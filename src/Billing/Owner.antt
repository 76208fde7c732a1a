-- ===== src/Billing/Owner.antt =====
-- backend/app/services/billing/owner.py.
pub mod Resolution
use greensecops.Common.{
  ℕ, Bool, true, false, ◌&&◌, ◌||◌, List, [], ◌∷◌, Option, none, some, if◌then◌else◌, ◌==◌, ltb,
}
use greensecops.Billing.Store.{OrgRole, owner, admin, member, User, OrgMember, Session, get_user}

abbrev pub is_owner : OrgRole → Bool
is_owner owner = true
is_owner _ = false

-- The first query's `where`.
unfoldable pub owns : ℕ → OrgMember → Bool
owns org_id m = m.org_id == org_id && is_owner m.role

-- `ORDER BY joined_at, user_id`: PostgreSQL puts a NULL behind every instant.
unfoldable pub joined_before : OrgMember → OrgMember → Bool
joined_before m n = elim m.joined_at [
  | none ↦ elim n.joined_at [ none ↦ ltb m.user_id n.user_id | some _ ↦ false ]
  | some s ↦ elim n.joined_at [
    | none ↦ true
    | some t ↦ ltb s t || s == t && ltb m.user_id n.user_id
  ]
]

abbrev pub earlier : OrgMember → Option OrgMember → OrgMember
earlier m none = m
earlier m (some n) = if joined_before n m then n else m

-- The first row of the ordered query.
unfoldable pub first_owner : ℕ → List OrgMember → Option OrgMember
unfolding owns joined_before
first_owner org_id [] = none
first_owner org_id (m ∷ ms) =
    let rest = first_owner org_id ms in if owns org_id m then some (earlier m rest) else rest

abbrev pub user_of_member : Session → Option OrgMember → Option User
user_of_member session none = none
user_of_member session (some m) = get_user session m.user_id

unfoldable pub org_billing_owner : Session → ℕ → Option User
unfolding first_owner
org_billing_owner session org_id = user_of_member session (first_owner org_id session.members)

abbrev pub is_user : ℕ → Option User → Bool
is_user user_id none = false
is_user user_id (some u) = u.id == user_id

-- Whether the second query returns a row and the comprehension keeps its organisation.
unfoldable pub pays : Session → ℕ → OrgMember → Bool
unfolding org_billing_owner
pays session user_id m =
    m.user_id == user_id && is_owner m.role && is_user user_id (org_billing_owner session m.org_id)

unfoldable pub paid_orgs : Session → ℕ → List OrgMember → List ℕ
unfolding pays
paid_orgs session user_id [] = []
paid_orgs session user_id (m ∷ ms) =
    let rest = paid_orgs session user_id ms in
    if pays session user_id m then m.org_id ∷ rest else rest

unfoldable pub billing_owner_org_ids : Session → ℕ → List ℕ
unfolding paid_orgs
billing_owner_org_ids session user_id = paid_orgs session user_id session.members
