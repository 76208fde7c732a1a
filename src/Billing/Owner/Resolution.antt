-- ===== src/Billing/Owner/Resolution.antt =====
-- Who pays for an organisation.
use greensecops.Common.{
  ℕ, ◌≡◌, refl, ◌↔◌, inl, inr, true, false, List, [], ◌∷◌, Memᴰ, Option, none, some, arith, subst,
  All-imp, Bool-cases, ==→eq, All, All-imp,
}
use greensecops.Billing.Store.{User, OrgMember, Session, find_user, get_user}
use greensecops.Billing.Owner.{
  pays, user_of_member, is_owner, earlier, owns, joined_before, first_owner, org_billing_owner,
  is_user, paid_orgs, billing_owner_org_ids,
}

abbrev pub NotBefore : ℕ → OrgMember → OrgMember → Type 0
NotBefore org_id m n = owns org_id n ≡ true → joined_before n m ≡ false

joined_before_asym : (m n : OrgMember) → joined_before m n ≡ true → joined_before n m ≡ false
unfolding joined_before
joined_before_asym m n h = ground arith

joined_before_trans :
    (m r n : OrgMember)
    → joined_before r m ≡ false
    → joined_before n r ≡ false
    → joined_before n m ≡ false
unfolding joined_before
joined_before_trans m r n h k = ground arith

joined_before_irrefl : (m : OrgMember) → joined_before m m ≡ false
unfolding joined_before
joined_before_irrefl m = ground arith

abbrev FirstOf : ℕ → List OrgMember → Option OrgMember → Type 0
FirstOf org_id ms none = All (λ n. owns org_id n ≡ false) ms
FirstOf org_id ms (some m) = Memᴰ m ms × (owns org_id m ≡ true) × All (NotBefore org_id m) ms

FirstOf-skip :
    (org_id : ℕ) (m : OrgMember) (ms : List OrgMember) (o : Option OrgMember)
    → owns org_id m ≡ false
    → FirstOf org_id ms o
    → FirstOf org_id (m ∷ ms) o
FirstOf-skip org_id m ms none out f = (out, f)
FirstOf-skip org_id m ms (some r) out f = (Memᴰ.tail f.0, f.1, (λ mine. cc, f.2))

FirstOf-keep :
    (org_id : ℕ) (m : OrgMember) (ms : List OrgMember) (o : Option OrgMember)
    → owns org_id m ≡ true
    → FirstOf org_id ms o
    → FirstOf org_id (m ∷ ms) (some (earlier m o))
FirstOf-keep org_id m ms none mine f = (
  Memᴰ.head refl,
  mine,
  (
    λ _. joined_before_irrefl m,
    All-imp (λ n. owns org_id n ≡ false) (NotBefore org_id m) ms (λ n out own. cc) f,
  ),
)
FirstOf-keep org_id m ms (some r) mine f = elim (Bool-cases (joined_before r m)) [
  | inl before ↦
      subst (λ e. FirstOf org_id (m ∷ ms) (some e)) (rw before)
        (Memᴰ.tail f.0, f.1, (λ _. joined_before_asym r m before, f.2))
  | inr behind ↦
      subst (λ e. FirstOf org_id (m ∷ ms) (some e)) (rw behind)
        (
          Memᴰ.head refl,
          mine,
          (
            λ _. joined_before_irrefl m,
            All-imp (NotBefore org_id r) (NotBefore org_id m) ms
                (λ n k own. joined_before_trans m r n behind (k own)) f.2,
          ),
        )
]

first_owner-FirstOf : (org_id : ℕ) (ms : List OrgMember) → FirstOf org_id ms (first_owner org_id ms)
unfolding first_owner
first_owner-FirstOf org_id [] = tt
first_owner-FirstOf org_id (m ∷ ms) =
    let ih = first_owner-FirstOf org_id ms in
    elim (Bool-cases (owns org_id m)) [
      | inl mine ↦ rw mine (FirstOf-keep org_id m ms _ mine ih)
      | inr out ↦ rw out (FirstOf-skip org_id m ms _ out ih)
    ]

-- The billing owner comes from a row that makes its user an owner of the organisation, and no such
-- row of the organisation stands before it by `joined_at` and then `user_id`.
pub first_owner-IsFirst :
    (org_id : ℕ) (ms : List OrgMember) (m : OrgMember)
    → first_owner org_id ms ≡ some m
    → Memᴰ m ms × (owns org_id m ≡ true) × All (NotBefore org_id m) ms
first_owner-IsFirst org_id ms m h = subst (FirstOf org_id ms) h (first_owner-FirstOf org_id ms)

find_user-id :
    (user_id : ℕ) (us : List User) (u : User) → find_user user_id us ≡ some u → u.id ≡ user_id
unfolding find_user
find_user-id user_id [] u h = cc
find_user-id user_id (v ∷ us) u h = ground (arith, find_user-id user_id us u)

-- `org_billing_owner` stays shut in these, and so the row's test does.
pays-is_user :
    (session : Session) (user_id : ℕ) (m : OrgMember)
    → pays session user_id m ≡ true
    → is_user user_id (org_billing_owner session m.org_id) ≡ true
unfolding pays
pays-is_user session user_id m h = ground arith

pays_of :
    (session : Session) (user_id : ℕ) (m : OrgMember)
    → m.user_id ≡ user_id
    → is_owner m.role ≡ true
    → is_user user_id (org_billing_owner session m.org_id) ≡ true
    → pays session user_id m ≡ true
unfolding pays
pays_of session user_id m u o p = ground arith

paid_orgs-is_user :
    (session : Session) (user_id org_id : ℕ) (ms : List OrgMember)
    → Memᴰ org_id (paid_orgs session user_id ms)
    → is_user user_id (org_billing_owner session org_id) ≡ true
unfolding paid_orgs
paid_orgs-is_user session user_id org_id [] h = elim h [ ]
paid_orgs-is_user session user_id org_id (m ∷ ms) h = elim (Bool-cases (pays session user_id m)) [
  | inl kept ↦ first (rw kept at h) kept (paid_orgs-is_user session user_id org_id ms)
  | inr dropped ↦ paid_orgs-is_user session user_id org_id ms (rw dropped at h)
]
  where
    first :
        Memᴰ org_id (m.org_id ∷ paid_orgs session user_id ms)
        → pays session user_id m ≡ true
        → (Memᴰ org_id (paid_orgs session user_id ms)
            → is_user user_id (org_billing_owner session org_id) ≡ true)
        → is_user user_id (org_billing_owner session org_id) ≡ true
    first (Memᴰ.head e) kept ih = rw e (pays-is_user session user_id m kept)
    first (Memᴰ.tail later) kept ih = ih later

mem-paid_orgs :
    (session : Session) (user_id : ℕ) (ms : List OrgMember) (m : OrgMember)
    → Memᴰ m ms
    → pays session user_id m ≡ true
    → Memᴰ m.org_id (paid_orgs session user_id ms)
unfolding paid_orgs
mem-paid_orgs session user_id [] m h p = elim h [ ]
mem-paid_orgs session user_id (n ∷ ms) m (Memᴰ.head e) p =
    let here' : pays session user_id n ≡ true = rw e at p in rw (here', e) (Memᴰ.head refl)
mem-paid_orgs session user_id (n ∷ ms) m (Memᴰ.tail later) p =
    let ih = mem-paid_orgs session user_id ms m later p in
    elim (Bool-cases (pays session user_id n)) [
      | inl kept ↦ rw kept (Memᴰ.tail ih)
      | inr dropped ↦ rw dropped ih
    ]

owns-org_id : (org_id : ℕ) (m : OrgMember) → owns org_id m ≡ true → m.org_id ≡ org_id
unfolding owns
owns-org_id org_id m h = ground arith

owns-is_owner : (org_id : ℕ) (m : OrgMember) → owns org_id m ≡ true → is_owner m.role ≡ true
unfolding owns
owns-is_owner org_id m h = ground arith

owner_row :
    (session : Session) (user_id org_id : ℕ) (o : Option OrgMember)
    → first_owner org_id session.members ≡ o
    → is_user user_id (user_of_member session o) ≡ true
    → (m : OrgMember) × Memᴰ m session.members
      × (m.org_id ≡ org_id)
      × (m.user_id ≡ user_id)
      × (is_owner m.role ≡ true)
owner_row session user_id org_id none e h = cc
owner_row session user_id org_id (some m) e h =
    let (there, own, _) = first_owner-IsFirst org_id session.members m e in
    (
      m,
      there,
      owns-org_id org_id m own,
      member_id (get_user session m.user_id) refl h,
      owns-is_owner org_id m own,
    )
  where
    member_id :
        (o : Option User)
        → get_user session m.user_id ≡ o
        → is_user user_id o ≡ true
        → m.user_id ≡ user_id
    member_id none e i = cc
    member_id (some u) e i =
        omega (arith, find_user-id m.user_id session.users u e, ==→eq u.id user_id i)

row :
    (session : Session) (user_id org_id : ℕ)
    → is_user user_id (org_billing_owner session org_id) ≡ true
    → (m : OrgMember) × Memᴰ m session.members
      × (m.org_id ≡ org_id)
      × (m.user_id ≡ user_id)
      × (is_owner m.role ≡ true)
unfolding org_billing_owner
row session user_id org_id h =
    owner_row session user_id org_id (first_owner org_id session.members) refl h

-- An organisation is among those that a user pays for exactly when the user is its billing owner.
pub mem-billing_owner_org_ids :
    (session : Session) (user_id org_id : ℕ)
    → Memᴰ org_id (billing_owner_org_ids session user_id)
      ↔ (is_user user_id (org_billing_owner session org_id) ≡ true)
unfolding billing_owner_org_ids
mem-billing_owner_org_ids session user_id org_id =
    (paid_orgs-is_user session user_id org_id session.members, back)
  where
    back :
        is_user user_id (org_billing_owner session org_id) ≡ true
        → Memᴰ org_id (paid_orgs session user_id session.members)
    back h =
        let (m, there, at, mine, role) = row session user_id org_id h in
        let paid = pays_of session user_id m mine role (rw at h) in
        rw at at (mem-paid_orgs session user_id session.members m there paid)
