-- ===== src/Billing/Quota/Enforcement.antt =====
-- What a quota check lets through.
use greensecops.Common.{
  ℕ, ◌+◌, ◌≤◌, ◌≡◌, ◌⊎◌, ◌↔◌, inl, inr, refl, true, Option, none, some, arith, Bool-cases,
}
use greensecops.Billing.Plans.{UserTier, Meter}
use greensecops.Billing.Store.{UsageEngine, User, Session}
use greensecops.Billing.Owner.{org_billing_owner}
use greensecops.Billing.Quota.{
  QuotaState, Request, allows, is_superuser, measured, measure, state_for_org, refusal_for,
  enforce_quota,
}

le_cases : (n : ℕ) → (n ≡ 0) ⊎ (1 ≤ n)
le_cases n = grind arith

-- A state that `state_for_org` answers names its tier unless it is exempt.
abbrev IsMeasured : QuotaState → Type 0
IsMeasured state = (state.exempt ≡ true) ⊎ ((t : UserTier) × (state.tier ≡ some t))

measure-IsMeasured :
    (request : Request) (session : Session) (meter : Meter) (o : Option User)
    → IsMeasured (measure request session meter o).1
unfolding measure
measure-IsMeasured request session meter none = inl refl
measure-IsMeasured request session meter (some owner) = inr (_, refl)

state_for_org-IsMeasured :
    (request : Request) (session : Session) (actor : Option User) (org_id : ℕ) (meter : Meter)
    → IsMeasured (state_for_org request session actor org_id meter).1
unfolding state_for_org
state_for_org-IsMeasured request session actor org_id meter =
    elim (Bool-cases (is_superuser actor)) [
      | inl admin ↦ rw admin (inl refl)
      | inr user ↦
          rw user
            (measure-IsMeasured request session meter (measured (org_billing_owner session org_id)))
    ]

-- The state is exempt or unlimited, or what is used and what is asked for stay within the limit.
abbrev pub Fits : QuotaState → ℕ → Type 0
Fits state requested =
    (state.exempt ≡ true)
    ⊎ (state.limit ≡ none)
    ⊎ ((l : ℕ) × (state.limit ≡ some l) × (state.used + requested ≤ l))

allows-Fits :
    (state : QuotaState) (requested : ℕ)
    → (allows state requested ≡ true) ↔ ((requested ≡ 0) ⊎ Fits state requested)
unfolding allows
allows-Fits state requested = (forth state.limit refl, ground arith)
  where
    forth :
        (o : Option ℕ)
        → state.limit ≡ o
        → allows state requested ≡ true
        → (requested ≡ 0) ⊎ Fits state requested
    forth none e h = inr (inr (inl e))
    forth (some l) e h = elim (Bool-cases state.exempt) [
      | inl free' ↦ inr (inl free')
      | inr bound ↦ elim (le_cases requested) [
        | inl nothing ↦ inl nothing
        | inr asks ↦ inr (inr (inr (l, e, ground arith)))
      ]
    ]

refusal_for-allows :
    (state : QuotaState) (meter : Meter) (requested : ℕ) (engine : Option UsageEngine)
    → IsMeasured state
    → (refusal_for state meter requested engine ≡ none) ↔ (allows state requested ≡ true)
unfolding refusal_for
refusal_for-allows state meter requested engine m = (ground arith, ground arith)

-- A request passes exactly where its owner is exempt or unlimited, where it asks for nothing, or where
-- it fits: what is used and what it asks for stay within the limit. Every other request raises an
-- error, so that the code's assertions hold.
pub enforce_quota-none :
    (request : Request) (session : Session) (actor : Option User) (org_id : ℕ) (meter : Meter)
    (requested : ℕ) (engine : Option UsageEngine)
    → ((enforce_quota request session actor org_id meter requested engine).1 ≡ none)
      ↔ ((requested ≡ 0) ⊎ Fits (state_for_org request session actor org_id meter).1 requested)
unfolding enforce_quota
enforce_quota-none request session actor org_id meter requested engine =
    let state = (state_for_org request session actor org_id meter).1 in
    let (to, from) =
      refusal_for-allows state meter requested engine
        (state_for_org-IsMeasured request session actor org_id meter) in
    let (forth, back) = allows-Fits state requested in
    (λ passed. forth (to passed), λ fits. from (back fits))
