-- ===== src/Billing/Quota/Charging.antt =====
-- A check and the charge behind it.
use greensecops.Common.{
  ℕ, ◌+◌, ◌≤◌, ◌<◌, ◌≡◌, ◌≢◌, ◌⊎◌, ◌↔◌, inl, inr, refl, true, false, Option, none, some, arith,
  Bool-cases,
}
use greensecops.StateMachines.Billing.{entitled_statuses}
use greensecops.Billing.Plans.{free, Meter, analyses, fixes, get, limits_for}
use greensecops.Billing.Store.{UsageMeter, UsageEngine, User, BillingSubscription, Session}
use greensecops.Billing.Owner.{org_billing_owner}
use greensecops.Billing.Usage.{Charge, record_for_org, period_usage}
use greensecops.Billing.Usage.Ledger.{period_usage-record_for_org}
use greensecops.Billing.Lifecycle.{effective_tier, get_subscription}
use greensecops.Billing.Lifecycle.Periods.{found_unchanged}
use greensecops.Billing.Quota.{
  is_superuser, Request, usage_for, measure, state_for_org, enforce_quota, enforce_auto_fix_enable,
  auto_fix_error,
}
use greensecops.Billing.Quota.Enforcement.{Fits, enforce_quota-none}

-- What the meter of a ledger counts.
abbrev pub ledger_meter : UsageMeter → Meter
ledger_meter UsageMeter.analyses = analyses
ledger_meter UsageMeter.fixes = fixes

record_for_org-le :
    (now : ℕ) (session : Session) (charge : Charge) (user_id : ℕ) (meter : UsageMeter)
    (period_start period_end : Option ℕ)
    → period_usage (record_for_org now session charge).0 user_id meter period_start period_end
      ≤ period_usage session user_id meter period_start period_end + charge.quantity
record_for_org-le now session charge user_id meter period_start period_end =
    ground
      (arith, period_usage-record_for_org now session charge user_id meter period_start period_end)

-- The state of an organisation with an owner who is measured.
state_for_org-measured :
    (request : Request) (session : Session) (actor : Option User) (org_id : ℕ) (meter : Meter)
    (owner : User)
    → is_superuser actor ≡ false
    → org_billing_owner session org_id ≡ some owner
    → owner.is_superuser ≡ false
    → state_for_org request session actor org_id meter ≡ measure request session meter (some owner)
unfolding state_for_org
state_for_org-measured request session actor org_id meter owner a o s = rw (a, o) (rw s)

measure-Fits :
    (request : Request) (session : Session) (meter : Meter) (owner : User) (n limit : ℕ)
    → let (session', used, sub) = usage_for request session owner meter in
      get (limits_for (some (effective_tier (some sub)))) meter ≡ some limit
      → Fits (measure request session meter (some owner)).1 n
      → used + n ≤ limit
unfolding measure
measure-Fits request session meter owner n limit l (inl free') = cc
measure-Fits request session meter owner n limit l (inr (inl none')) = cc
measure-Fits request session meter owner n limit l (inr (inr (l', e, h))) =
    let same : l' ≡ limit = cc in rw same at h

usage_for-period :
    (request : Request) (session : Session) (owner : User) (meter : UsageMeter)
    → let (session', used, sub) = usage_for request session owner (ledger_meter meter) in
      used ≡ period_usage session' owner.id meter sub.period_start sub.period_end
unfolding usage_for
usage_for-period request session owner UsageMeter.analyses = refl
usage_for-period request session owner UsageMeter.fixes = refl

-- A request for at least one unit that passes the check and is then charged leaves its owner within
-- the limit: the usage of the period that the check read, with the charge in it, is at most the limit
-- of the owner's effective tier.
pub enforce_quota-record_for_org :
    (request : Request) (session : Session) (actor : Option User) (charge : Charge) (owner : User)
    (engine : Option UsageEngine) (limit : ℕ)
    → let meter = ledger_meter charge.meter in
      let (session', used, sub) = usage_for request session owner meter in
      is_superuser actor ≡ false
      → org_billing_owner session charge.org_id ≡ some owner
      → owner.is_superuser ≡ false
      → get (limits_for (some (effective_tier (some sub)))) meter ≡ some limit
      → 0 < charge.quantity
      → (enforce_quota request session actor charge.org_id meter charge.quantity engine).1 ≡ none
      → period_usage
          (record_for_org request.now session' charge).0
          owner.id
          charge.meter
          sub.period_start
          sub.period_end
        ≤ limit
enforce_quota-record_for_org request session actor charge owner engine limit a o s l q passed =
    let meter = ledger_meter charge.meter in
    let (session', used, sub) = usage_for request session owner meter in
    let (forth, back) =
      enforce_quota-none request session actor charge.org_id meter charge.quantity engine in
    let measured_state =
      state_for_org-measured request session actor charge.org_id meter owner a o s in
    elim (forth passed) [
      | inl nothing ↦ absurd (omega arith)
      | inr fits ↦ omega (
        arith,
        record_for_org-le request.now session' charge owner.id charge.meter sub.period_start
            sub.period_end,
        usage_for-period request session owner charge.meter,
        measure-Fits request session meter owner charge.quantity limit l
            (rw measured_state at fits),
      )
    ]

-- An organisation without a billing owner is neither charged nor blocked.
pub unowned_unmetered :
    (request : Request) (session : Session) (actor : Option User) (charge : Charge) (meter : Meter)
    (requested : ℕ) (engine : Option UsageEngine)
    → org_billing_owner session charge.org_id ≡ none
    → ((enforce_quota request session actor charge.org_id meter requested engine) ≡ (session, none))
      × (record_for_org request.now session charge ≡ (session, none))
unfolding enforce_quota record_for_org
unowned_unmetered request session actor charge meter requested engine o =
    (unblocked (Bool-cases (is_superuser actor)), rw o)
  where
    unblocked :
        (is_superuser actor ≡ true) ⊎ (is_superuser actor ≡ false)
        → enforce_quota request session actor charge.org_id meter requested engine ≡ (session, none)
    unblocked (inl admin) = rw admin
    unblocked (inr user) = rw (user, o)

auto_fix-entitled :
    (sub : BillingSubscription)
    → (auto_fix_error (effective_tier (some sub)) ≡ none)
      ↔ ((entitled_statuses sub.status ≡ true) × (sub.tier ≢ free))
unfolding auto_fix_error effective_tier entitled_statuses
auto_fix-entitled sub = (ground arith, ground arith)

-- For an owner with a subscription, who is no superuser, a caller who is none may turn automatic fixes
-- on exactly where the subscription is in an entitled status and on another tier than Free.
pub enforce_auto_fix_enable-none :
    (request : Request) (session : Session) (caller : User) (org_id : ℕ) (owner : User)
    (sub : BillingSubscription)
    → caller.is_superuser ≡ false
    → org_billing_owner session org_id ≡ some owner
    → owner.is_superuser ≡ false
    → get_subscription session owner.id ≡ some sub
    → ((enforce_auto_fix_enable request session caller org_id).1 ≡ none)
      ↔ ((entitled_statuses sub.status ≡ true) × (sub.tier ≢ free))
unfolding enforce_auto_fix_enable
enforce_auto_fix_enable-none request session caller org_id owner sub c o s f =
    rw (c, o)
      (rw s (
        rw (found_unchanged request.other request.new_id session owner sub f)
          (auto_fix-entitled sub)))
