-- ===== src/Billing/Warnings.antt =====
-- backend/app/workers/tasks/billing.py: the daily pass that warns owners near a limit. `delivers` is
-- what `send_quota_warning` answers. `int(used * 100 / limit)` is a quotient of floats, which is the
-- quotient of the integers while `used * 100` stays below 2 ^ 53; the model takes the latter.
pub mod Levels
use greensecops.Billing.Plans.{repos, fixes, analyses, limits_for, Meter, get, PlanLimits}
use greensecops.Billing.Store.{
  UsageMeter, get_user, save_subscription, BillingSubscription, User, Session,
}
use greensecops.Billing.Tasks.{rows_in}
use greensecops.Billing.Lifecycle.{effective_tier, ensure_current_period}
use greensecops.Billing.Usage.{period_usage, enabled_repo_ids}
use greensecops.Common.{
  Bool, List, Option, [], false, if◌then◌else◌, leb, length, none, some, true, ℕ, ◌*◌, ◌++◌, ◌+◌,
  ◌/◌, ◌==◌, ◌∷◌,
}
use greensecops.StateMachines.Billing.{SubscriptionStatus, active, trialing}

pub record Warning : Type 0 where
  pub meter : Meter
  pub used : ℕ
  pub limit : ℕ
  pub highest : ℕ

pub record WarningRun : Type 0 where
  pub session : Session
  pub attempted : List (ℕ × Warning)
  pub sent : ℕ

-- `max(crossed)` over `_WARN_THRESHOLDS`.
unfoldable pub highest_crossed : ℕ → Option ℕ
highest_crossed percent =
    if leb 100 percent then some 100 else if leb 80 percent then some 80 else none

abbrev pub raise_level : ℕ → Meter → ℕ → ℕ → Option ℕ → Option Warning
raise_level level meter used limit none = none
raise_level level meter used limit (some highest) =
    if leb highest level
    then none
    else some (record { meter = meter; used = used; limit = limit; highest = highest })

-- The body of the loop over the meters.
abbrev pub warn_at : ℕ → Meter → ℕ → Option ℕ → Option Warning
warn_at level meter used none = none
warn_at level meter used (some limit) =
    if limit == 0
    then none
    else raise_level level meter used limit (highest_crossed (used * 100 / limit))

abbrev or_else : Option Warning → Option Warning → Option Warning
or_else none later = later
or_else (some w) later = some w

unfoldable pub first_warning : PlanLimits → ℕ → List (Meter × ℕ) → Option Warning
unfolding highest_crossed get
first_warning limits level [] = none
first_warning limits level ((meter, used) ∷ us) =
    or_else (warn_at level meter used (get limits meter)) (first_warning limits level us)

-- `used_by_meter`.
unfoldable pub usages : Session → User → BillingSubscription → List (Meter × ℕ)
usages session user sub =
    (analyses, period_usage session user.id UsageMeter.analyses sub.period_start sub.period_end)
    ∷ (fixes, period_usage session user.id UsageMeter.fixes sub.period_start sub.period_end)
    ∷ (repos, length (enabled_repo_ids session user.id))
    ∷ []

warn_with : (ℕ → Warning → Bool) → WarningRun → BillingSubscription → Option Warning → WarningRun
unfolding save_subscription
warn_with delivers run sub none = run
warn_with delivers run sub (some w) = record {
  session = save_subscription run.session (record sub { quota_warning_percent = w.highest });
  attempted = run.attempted ++ (sub.id, w) ∷ [];
  sent = if delivers sub.id w then run.sent + 1 else run.sent;
}

abbrev limits_of_sub : BillingSubscription → PlanLimits
unfolding effective_tier limits_for
limits_of_sub sub = limits_for (some (effective_tier (some sub)))

warn_user : ℕ → (ℕ → Warning → Bool) → WarningRun → BillingSubscription → Option User → WarningRun
unfolding ensure_current_period limits_of_sub first_warning usages warn_with
warn_user now delivers run sub none = run
warn_user now delivers run sub (some user) =
    if user.is_superuser
    then run
    else (let (session', sub') = ensure_current_period now run.session sub in
        warn_with delivers (record run { session = session' }) sub'
          (first_warning (limits_of_sub sub') sub'.quota_warning_percent
            (usages session' user sub')))

-- The body of the loop over the subscriptions.
unfoldable pub warn : ℕ → (ℕ → Warning → Bool) → WarningRun → BillingSubscription → WarningRun
unfolding warn_user
warn now delivers run sub = warn_user now delivers run sub (get_user run.session sub.user_id)

unfoldable pub warn_all :
    ℕ → (ℕ → Warning → Bool) → List BillingSubscription → WarningRun → WarningRun
unfolding warn
warn_all now delivers [] run = run
warn_all now delivers (s ∷ ss) run = warn_all now delivers ss (warn now delivers run s)

abbrev pub in_good_standing : SubscriptionStatus → Bool
in_good_standing active = true
in_good_standing trialing = true
in_good_standing _ = false

unfoldable pub run_quota_warnings : ℕ → (ℕ → Warning → Bool) → Session → WarningRun
unfolding warn_all rows_in
run_quota_warnings now delivers session =
    warn_all now delivers (rows_in in_good_standing session.subscriptions)
      (record { session = session; attempted = []; sent = 0 })
