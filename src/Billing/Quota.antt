-- ===== src/Billing/Quota.antt =====
-- backend/app/services/billing/quota.py. A check may create and roll the owner's subscription, so it
-- returns the session beside its answer.
pub mod Agreement
pub mod Enforcement
pub mod Charging
use greensecops.Common.{
  ℕ, ◌-◌, ◌+◌, Bool, true, false, ◌||◌, List, [], ◌∷◌, Option, none, some, if◌then◌else◌, leb,
  length,
}
use greensecops.Billing.Plans.{
  UserTier, Meter, analyses, fixes, repos, PlanLimits, get, get_plan, limits_for,
}
use greensecops.Billing.Store.{UsageMeter, UsageEngine, User, BillingSubscription, Session}
use greensecops.Billing.Owner.{org_billing_owner}
use greensecops.Billing.Usage.{period_usage, enabled_repo_ids}
use greensecops.Billing.Lifecycle.{
  effective_tier, get_or_create_subscription, ensure_current_period,
}
use greensecops.Billing.Errors.{
  QuotaExceeded, BillingError, quota_exceeded_error, feature_not_in_plan_error, quota_exceeded,
  feature_not_in_plan,
}

pub record QuotaState : Type 0 where
  pub tier : Option UserTier
  pub limit : Option ℕ
  pub used : ℕ
  pub resets_at : Option ℕ
  pub exempt : Bool

abbrev is_none : Option ℕ → Bool
is_none none = true
is_none (some _) = false

unfoldable pub unlimited : QuotaState → Bool
unlimited state = state.exempt || is_none state.limit

abbrev left_of : ℕ → Option ℕ → Option ℕ
left_of used none = none
left_of used (some limit) = some (limit - used)

unfoldable pub remaining_of : QuotaState → Option ℕ
unfolding unlimited
remaining_of state = if unlimited state then none else left_of state.used state.limit

abbrev within : ℕ → Option ℕ → Bool
within requested none = true
within requested (some left) = leb requested left

unfoldable pub allows : QuotaState → ℕ → Bool
unfolding remaining_of
allows state requested = within requested (remaining_of state)

-- What a request meets: the clock, a fresh identifier, and the subscription that another request may
-- insert meanwhile.
pub record Request : Type 0 where
  pub now : ℕ
  pub new_id : ℕ
  pub other : Option BillingSubscription

-- `ensure_current_period(session, get_or_create_subscription(session, user))`.
unfoldable pub current_subscription : Request → Session → User → Session × BillingSubscription
unfolding get_or_create_subscription ensure_current_period
current_subscription request session user =
    let (seen, sub) = get_or_create_subscription request.other request.new_id session user in
    ensure_current_period request.now seen sub

abbrev pub meter_usage : Meter → Session → ℕ → BillingSubscription → ℕ
meter_usage repos session user_id sub = length (enabled_repo_ids session user_id)
meter_usage analyses session user_id sub =
    period_usage session user_id UsageMeter.analyses sub.period_start sub.period_end
meter_usage fixes session user_id sub =
    period_usage session user_id UsageMeter.fixes sub.period_start sub.period_end

unfoldable pub usage_for : Request → Session → User → Meter → Session × ℕ × BillingSubscription
unfolding current_subscription
usage_for request session user meter =
    let (session', sub) = current_subscription request session user in
    (session', meter_usage meter session' user.id sub, sub)

pub record UsageSnapshot : Type 0 where
  pub analyses_used : ℕ
  pub fixes_used : ℕ
  pub repos_used : ℕ
  pub subscription : BillingSubscription

unfoldable pub snapshot : Request → Session → User → Session × UsageSnapshot
unfolding current_subscription
snapshot request session user =
    let (session', sub) = current_subscription request session user in
    (
      session',
      record {
        analyses_used =
            period_usage session' user.id UsageMeter.analyses sub.period_start sub.period_end;
        fixes_used = period_usage session' user.id UsageMeter.fixes sub.period_start sub.period_end;
        repos_used = length (enabled_repo_ids session' user.id);
        subscription = sub;
      },
    )

abbrev pub exempt_state : QuotaState
exempt_state = record { tier = none; limit = none; used = 0; resets_at = none; exempt = true }

abbrev pub is_superuser : Option User → Bool
is_superuser none = false
is_superuser (some user) = user.is_superuser

-- The billing owner that is measured: none where the owner is missing or a superuser.
abbrev pub measured : Option User → Option User
measured none = none
measured (some owner) = if owner.is_superuser then none else some owner

measure : Request → Session → Meter → Option User → Session × QuotaState
unfolding usage_for effective_tier limits_for get
measure request session meter none = (session, exempt_state)
measure request session meter (some owner) =
    let (session', used, sub) = usage_for request session owner meter in
    let tier = effective_tier (some sub) in
    (
      session',
      record {
        tier = some tier;
        limit = get (limits_for (some tier)) meter;
        used = used;
        resets_at = sub.period_end;
        exempt = false;
      },
    )

unfoldable pub state_for_org : Request → Session → Option User → ℕ → Meter → Session × QuotaState
unfolding measure org_billing_owner
state_for_org request session actor org_id meter =
    if is_superuser actor
    then (session, exempt_state)
    else measure request session meter (measured (org_billing_owner session org_id))

abbrev used_of : UsageSnapshot → Meter → ℕ
used_of snap analyses = snap.analyses_used
used_of snap fixes = snap.fixes_used
used_of snap repos = snap.repos_used

abbrev resets_of : UsageSnapshot → Meter → Option ℕ
resets_of snap repos = none
resets_of snap _ = snap.subscription.period_end

measure_all : Request → Session → Option User → Session × (Meter → QuotaState)
unfolding snapshot effective_tier limits_for get
measure_all request session none = (session, λ meter. exempt_state)
measure_all request session (some owner) =
    let (session', snap) = snapshot request session owner in
    let tier = effective_tier (some snap.subscription) in
    (
      session',
      λ meter. record {
        tier = some tier;
        limit = get (limits_for (some tier)) meter;
        used = used_of snap meter;
        resets_at = resets_of snap meter;
        exempt = false;
      },
    )

unfoldable pub states_for_org : Request → Session → Option User → ℕ → Session × (Meter → QuotaState)
unfolding measure_all org_billing_owner
states_for_org request session actor org_id =
    if is_superuser actor
    then (session, λ meter. exempt_state)
    else measure_all request session (measured (org_billing_owner session org_id))

-- The asserted columns; a state without them is unlimited, and never gets here.
exceeded :
    QuotaState → Meter → ℕ → Option UsageEngine → Option UserTier → Option ℕ → Option QuotaExceeded
unfolding quota_exceeded
exceeded state meter requested engine (some tier) (some limit) =
    some (quota_exceeded meter tier limit state.used requested state.resets_at engine)
exceeded state meter requested engine _ _ = none

unfoldable pub refusal_for : QuotaState → Meter → ℕ → Option UsageEngine → Option QuotaExceeded
unfolding allows exceeded
refusal_for state meter requested engine =
    if allows state requested
    then none
    else exceeded state meter requested engine state.tier state.limit

unfoldable pub remaining : Request → Session → Option User → ℕ → Meter → Session × Option ℕ
unfolding state_for_org remaining_of
remaining request session actor org_id meter =
    let (session', state) = state_for_org request session actor org_id meter in
    (session', remaining_of state)

-- The error that is raised, if one is.
unfoldable pub enforce_quota :
    Request
    → Session
    → Option User
    → ℕ
    → Meter
    → ℕ
    → Option UsageEngine
    → Session × Option QuotaExceeded
unfolding state_for_org refusal_for
enforce_quota request session actor org_id meter requested engine =
    let (session', state) = state_for_org request session actor org_id meter in
    (session', refusal_for state meter requested engine)

auto_fix_error : UserTier → Option BillingError
unfolding get_plan feature_not_in_plan
auto_fix_error tier =
    if (get_plan (some tier)).auto_fix
    then none
    else some (
        feature_not_in_plan_error
          (feature_not_in_plan "Automatic fix pull requests" tier "Starter"))

auto_fix_check : Request → Session → Option User → Session × Option BillingError
unfolding get_or_create_subscription effective_tier auto_fix_error
auto_fix_check request session none = (session, none)
auto_fix_check request session (some owner) =
    let (session', sub) = get_or_create_subscription request.other request.new_id session owner in
    (session', auto_fix_error (effective_tier (some sub)))

unfoldable pub enforce_auto_fix_enable :
    Request → Session → User → ℕ → Session × Option BillingError
unfolding auto_fix_check org_billing_owner
enforce_auto_fix_enable request session current_user org_id =
    if current_user.is_superuser
    then (session, none)
    else auto_fix_check request session (measured (org_billing_owner session org_id))
