-- ===== src/Billing/Quota/Agreement.antt =====
-- The page that lists every meter against the check of one.
use greensecops.Common.{inr, inl, ◌≡◌, refl, ℕ, Option, none, some, Bool-cases}
use greensecops.Billing.Plans.{Meter, analyses, fixes, repos}
use greensecops.Billing.Store.{User, Session}
use greensecops.Billing.Owner.{org_billing_owner}
use greensecops.Billing.Errors.{reset_date}
use greensecops.Billing.Quota.{
  exempt_state, Request, is_superuser, measured, measure, measure_all, state_for_org,
  states_for_org,
}

measure_all-measure :
    (request : Request) (session : Session) (o : Option User) (meter : Meter)
    → let (session', state) = measure request session meter o in
      ((measure_all request session o).0 ≡ session')
      × ((measure_all request session o).1 meter
          ≡ record state { resets_at = reset_date meter state.resets_at })
unfolding measure measure_all
measure_all-measure request session none analyses = (refl, refl)
measure_all-measure request session none fixes = (refl, refl)
measure_all-measure request session none repos = (refl, refl)
measure_all-measure request session (some owner) analyses = (refl, refl)
measure_all-measure request session (some owner) fixes = (refl, refl)
measure_all-measure request session (some owner) repos = (refl, refl)

-- For each meter the combined read shows what the check of that meter measures, and leaves the
-- session that it leaves; only the reset date of the capacity meter is withheld.
pub states_for_org-state_for_org :
    (request : Request) (session : Session) (actor : Option User) (org_id : ℕ) (meter : Meter)
    → let (session', state) = state_for_org request session actor org_id meter in
      ((states_for_org request session actor org_id).0 ≡ session')
      × ((states_for_org request session actor org_id).1 meter
          ≡ record state { resets_at = reset_date meter state.resets_at })
unfolding state_for_org states_for_org
states_for_org-state_for_org request session actor org_id meter =
    elim (Bool-cases (is_superuser actor)) [
      | inl admin ↦ rw admin (refl, exempt_lem meter)
      | inr user ↦
          rw user (
            measure_all-measure request session (measured (org_billing_owner session org_id)) meter)
    ]
  where
    exempt_lem : (m : Meter) → exempt_state ≡ record exempt_state { resets_at = reset_date m none }
    exempt_lem analyses = refl
    exempt_lem fixes = refl
    exempt_lem repos = refl
