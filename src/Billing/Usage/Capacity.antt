-- ===== src/Billing/Usage/Capacity.antt =====
-- The live count of enabled repositories.
use greensecops.Common.{
  inr, inl, ℕ, ◌≡◌, refl, sym, ◌↔◌, true, List, [], ◌∷◌, Memᴰ, arith, ◌==◌, any, Bool-cases,
}
use greensecops.Billing.Store.{RepositoryRow, Session}
use greensecops.Billing.Owner.{is_user, org_billing_owner, billing_owner_org_ids}
use greensecops.Billing.Owner.Resolution.{mem-billing_owner_org_ids}
use greensecops.Billing.Usage.{counts_repo, enabled_in, repo_ids_in, enabled_repo_ids}

any-mem : (o : ℕ) (os : List ℕ) → any (λ x. x == o) os ≡ true → Memᴰ o os
any-mem o [] h = cc
any-mem o (x ∷ os) h = elim (Bool-cases (x == o)) [
  | inl here ↦ Memᴰ.head (ground arith)
  | inr there ↦ Memᴰ.tail (any-mem o os (ground arith))
]

mem-any : (o : ℕ) (os : List ℕ) → Memᴰ o os → any (λ x. x == o) os ≡ true
mem-any o [] h = elim h [ ]
mem-any o (x ∷ os) (Memᴰ.head e) = ground arith
mem-any o (x ∷ os) (Memᴰ.tail m) = ground (arith, mem-any o os m)

-- A row that puts its repository among those of some organisations.
record IsCounted (org_ids : List ℕ) (rows : List RepositoryRow) (repo_id : ℕ) : Type 0 where
  row : RepositoryRow
  there : Memᴰ row rows
  named : row.id ≡ repo_id
  counted : counts_repo org_ids row ≡ true

IsCounted-cons :
    (org_ids : List ℕ) (r : RepositoryRow) (rows : List RepositoryRow) (repo_id : ℕ)
    → IsCounted org_ids rows repo_id
    → IsCounted org_ids (r ∷ rows) repo_id
IsCounted-cons org_ids r rows repo_id c = record {
  row = c.row;
  there = Memᴰ.tail c.there;
  named = c.named;
  counted = c.counted;
}

repo_ids_in-IsCounted :
    (org_ids : List ℕ) (rows : List RepositoryRow) (repo_id : ℕ)
    → Memᴰ repo_id (repo_ids_in org_ids rows)
    → IsCounted org_ids rows repo_id
unfolding repo_ids_in
repo_ids_in-IsCounted org_ids [] repo_id h = elim h [ ]
repo_ids_in-IsCounted org_ids (r ∷ rows) repo_id h = elim (Bool-cases (counts_repo org_ids r)) [
  | inl kept ↦ first kept (rw kept at h) (repo_ids_in-IsCounted org_ids rows repo_id)
  | inr dropped ↦
      IsCounted-cons org_ids r rows repo_id
        (repo_ids_in-IsCounted org_ids rows repo_id (rw dropped at h))
]
  where
    first :
        counts_repo org_ids r ≡ true
        → Memᴰ repo_id (r.id ∷ repo_ids_in org_ids rows)
        → (Memᴰ repo_id (repo_ids_in org_ids rows) → IsCounted org_ids rows repo_id)
        → IsCounted org_ids (r ∷ rows) repo_id
    first kept (Memᴰ.head e) ih = record {
      row = r;
      there = Memᴰ.head refl;
      named = sym e;
      counted = kept;
    }
    first kept (Memᴰ.tail later) ih = IsCounted-cons org_ids r rows repo_id (ih later)

mem-repo_ids_in :
    (org_ids : List ℕ) (rows : List RepositoryRow) (row : RepositoryRow)
    → Memᴰ row rows
    → counts_repo org_ids row ≡ true
    → Memᴰ row.id (repo_ids_in org_ids rows)
unfolding repo_ids_in
mem-repo_ids_in org_ids [] row h c = elim h [ ]
mem-repo_ids_in org_ids (r ∷ rows) row (Memᴰ.head e) c =
    let kept : counts_repo org_ids r ≡ true = rw e at c in rw (kept, e) (Memᴰ.head refl)
mem-repo_ids_in org_ids (r ∷ rows) row (Memᴰ.tail later) c =
    let ih = mem-repo_ids_in org_ids rows row later c in
    elim (Bool-cases (counts_repo org_ids r)) [
      | inl kept ↦ rw kept (Memᴰ.tail ih)
      | inr dropped ↦ rw dropped ih
    ]

-- The early return for a user without organisations answers what the query would.
enabled_in-repo_ids_in :
    (org_ids : List ℕ) (rows : List RepositoryRow)
    → enabled_in org_ids rows ≡ repo_ids_in org_ids rows
unfolding repo_ids_in
enabled_in-repo_ids_in [] [] = refl
enabled_in-repo_ids_in [] (r ∷ rows) = enabled_in-repo_ids_in [] rows
enabled_in-repo_ids_in (o ∷ os) rows = refl

counts_repo-parts :
    (org_ids : List ℕ) (r : RepositoryRow)
    → counts_repo org_ids r ≡ true
    → Memᴰ r.org_id org_ids × (r.enabled ≡ true)
unfolding counts_repo
counts_repo-parts org_ids r h = (any-mem r.org_id org_ids (ground arith), ground arith)

counts_repo_of :
    (org_ids : List ℕ) (r : RepositoryRow)
    → Memᴰ r.org_id org_ids
    → r.enabled ≡ true
    → counts_repo org_ids r ≡ true
unfolding counts_repo
counts_repo_of org_ids r m e = rw (mem-any r.org_id org_ids m) e

-- A row that puts its repository among those that a user pays for.
pub record IsPaid (session : Session) (user_id repo_id : ℕ) : Type 0 where
  pub repo : RepositoryRow
  pub there : Memᴰ repo session.repositories
  pub named : repo.id ≡ repo_id
  pub on : repo.enabled ≡ true
  pub owned : is_user user_id (org_billing_owner session repo.org_id) ≡ true

-- The repositories that take up a user's capacity are the enabled ones of the organisations whose
-- billing owner the user is.
pub mem-enabled_repo_ids :
    (session : Session) (user_id repo_id : ℕ)
    → Memᴰ repo_id (enabled_repo_ids session user_id) ↔ IsPaid session user_id repo_id
unfolding enabled_repo_ids
mem-enabled_repo_ids session user_id repo_id =
    rw (enabled_in-repo_ids_in (billing_owner_org_ids session user_id) session.repositories)
      (forth, back)
  where
    forth :
        Memᴰ repo_id (repo_ids_in (billing_owner_org_ids session user_id) session.repositories)
        → IsPaid session user_id repo_id
    forth h =
        let c =
          repo_ids_in-IsCounted (billing_owner_org_ids session user_id) session.repositories repo_id
            h in
        let (org, on) = counts_repo-parts (billing_owner_org_ids session user_id) c.row c.counted in
        record {
          repo = c.row;
          there = c.there;
          named = c.named;
          on = on;
          owned = (mem-billing_owner_org_ids session user_id c.row.org_id).0 org;
        }

    back :
        IsPaid session user_id repo_id
        → Memᴰ repo_id (repo_ids_in (billing_owner_org_ids session user_id) session.repositories)
    back p = rw p.named at (
        mem-repo_ids_in (billing_owner_org_ids session user_id) session.repositories p.repo p.there
          (counts_repo_of (billing_owner_org_ids session user_id) p.repo
            ((mem-billing_owner_org_ids session user_id p.repo.org_id).1 p.owned) p.on))
