-- ===== src/Billing/Lifecycle.antt =====
-- backend/app/services/billing/lifecycle.py. The settings and the clock are arguments.
pub mod Entitlement
pub mod Periods
pub mod Dunning
pub mod Redelivery
use greensecops.Common.{
  ℕ, ◌+◌, ◌*◌, ◌-◌, ◌/◌, refl, Bool, true, false, List, [], ◌∷◌, ◌++◌, Option, none, some, not,
  if◌then◌else◌, ◌==◌, ltb, leb, map,
}
use greensecops.StateMachines.Base.{Field, value, Engine, try_advance, output_for}
use greensecops.StateMachines.Signals.{SseSignal}
use greensecops.StateMachines.Billing.{
  SubscriptionStatus, active, past_due, pending_cancellation, canceled, BillingEvent,
  SubscriptionStatus-discrete, billing_machine, entitled_statuses,
}
use greensecops.Billing.Plans.{UserTier, default_tier}
use greensecops.Billing.Store.{
  User, BillingSubscription, SubscriptionChanged, Session, get_user, save_subscription, save_user,
}
use greensecops.Billing.Owner.{billing_owner_org_ids}
use greensecops.Billing.Calendar.{day_us, month_bounds}

unfoldable pub effective_tier : Option BillingSubscription → UserTier
unfolding entitled_statuses
effective_tier none = default_tier
effective_tier (some sub) = if entitled_statuses sub.status then sub.tier else default_tier

abbrev pub same_tier : UserTier → UserTier → Bool
same_tier UserTier.free UserTier.free = true
same_tier UserTier.starter UserTier.starter = true
same_tier UserTier.pro UserTier.pro = true
same_tier UserTier.ultimate UserTier.ultimate = true
same_tier UserTier.open_source UserTier.open_source = true
same_tier _ _ = false

unfoldable pub is_downgraded : Option BillingSubscription → Bool
unfolding effective_tier
is_downgraded none = false
is_downgraded (some sub) = not (same_tier (effective_tier (some sub)) sub.tier)

unfoldable pub find_subscription : ℕ → List BillingSubscription → Option BillingSubscription
find_subscription user_id [] = none
find_subscription user_id (s ∷ ss) =
    if s.user_id == user_id then some s else find_subscription user_id ss

unfoldable pub get_subscription : Session → ℕ → Option BillingSubscription
unfolding find_subscription
get_subscription session user_id = find_subscription user_id session.subscriptions

-- The columns' defaults.
abbrev pub new_subscription : ℕ → User → BillingSubscription
new_subscription new_id user = record {
  id = new_id;
  user_id = user.id;
  tier = user.tier;
  status = active;
  period_start = none;
  period_end = none;
  past_due_since = none;
  grace_expires_at = none;
  dunning_stage = 0;
  quota_warning_percent = 0;
  cancel_at_period_end = false;
  canceled_at = none;
}

abbrev pub with_row : Session → BillingSubscription → Session
with_row session sub = record session { subscriptions = session.subscriptions ++ sub ∷ [] }

-- A row that another request commits between the query and the insert.
abbrev pub arrive : Option BillingSubscription → Session → Session
arrive none session = session
arrive (some sub) session = with_row session sub

-- The insert under the savepoint: where `user_id` is taken, the savepoint is rolled back and the row
-- that is there is read again.
insert_subscription :
    ℕ → User → Session → Option BillingSubscription → Session × BillingSubscription
insert_subscription new_id user session (some taken) = (session, taken)
insert_subscription new_id user session none =
    (with_row session (new_subscription new_id user), new_subscription new_id user)

get_or_insert :
    Option BillingSubscription
    → ℕ
    → Session
    → User
    → Option BillingSubscription
    → Session × BillingSubscription
unfolding insert_subscription get_subscription
get_or_insert other new_id session user (some sub) = (session, sub)
get_or_insert other new_id session user none =
    let seen = arrive other session in
    insert_subscription new_id user seen (get_subscription seen user.id)

unfoldable pub get_or_create_subscription :
    Option BillingSubscription → ℕ → Session → User → Session × BillingSubscription
unfolding get_or_insert
get_or_create_subscription other new_id session user =
    get_or_insert other new_id session user (get_subscription session user.id)

unfoldable pub mirror_tier : Session → UserTier → Option User → Session
unfolding save_user
mirror_tier session tier none = session
mirror_tier session tier (some user) = save_user session (record user { tier = tier })

unfoldable pub apply_tier : Session → BillingSubscription → UserTier → Session × BillingSubscription
unfolding save_subscription mirror_tier
apply_tier session sub tier =
    let sub' = record sub { tier = tier } in
    let session' = save_subscription session sub' in
    (mirror_tier session' tier (get_user session' sub.user_id), sub')

abbrev pub is_current : ℕ → Option ℕ → Bool
is_current now none = false
is_current now (some period_end) = ltb now period_end

-- The row that `ensure_current_period` leaves.
unfoldable pub roll_period : ℕ → BillingSubscription → BillingSubscription
roll_period now sub = if is_current now sub.period_end then sub else (record sub {
  period_start = some (month_bounds now).0;
  period_end = some (month_bounds now).1;
  quota_warning_percent = 0;
})

unfoldable pub ensure_current_period :
    ℕ → Session → BillingSubscription → Session × BillingSubscription
unfolding roll_period save_subscription
ensure_current_period now session sub =
    if is_current now sub.period_end
    then (session, sub)
    else (save_subscription session (roll_period now sub), roll_period now sub)

-- Stripe's timestamps are seconds.
unfoldable pub set_stripe_period : BillingSubscription → Option ℕ → Option ℕ → BillingSubscription
set_stripe_period sub none end_ts = sub
set_stripe_period sub (some start_ts) none = sub
set_stripe_period sub (some start_ts) (some end_ts) = record sub {
  period_start = some (start_ts * 1000000);
  period_end = some (end_ts * 1000000);
}

abbrev pub status_field : Field BillingSubscription SubscriptionStatus
status_field = record {
  get = λ sub. value sub.status;
  set = λ s sub. record sub { status = s };
  get-set = λ s sub. refl;
}

abbrev events_for : Option SseSignal → BillingSubscription → List ℕ → List SubscriptionChanged
events_for none sub org_ids = []
events_for (some signal) sub org_ids =
    map
      (λ org_id. record { org_id = org_id; signal = signal; tier = sub.tier; status = sub.status })
      org_ids

unfoldable pub publish : Session → BillingSubscription → BillingEvent → Session
unfolding output_for billing_machine
publish session sub event = record session {
  pending_events =
      session.pending_events
      ++ events_for (output_for billing_machine event) sub
          (billing_owner_org_ids session sub.user_id);
}

open_window : ℕ → ℕ → BillingSubscription → Option ℕ → BillingSubscription
open_window now grace_days sub (some _) = sub
open_window now grace_days sub none = record sub {
  past_due_since = some now;
  grace_expires_at = some (now + grace_days * day_us);
  dunning_stage = 0;
}

-- The columns that the new status implies.
unfoldable pub maintain : ℕ → ℕ → SubscriptionStatus → BillingSubscription → BillingSubscription
unfolding open_window
maintain now grace_days past_due sub = open_window now grace_days sub sub.past_due_since
maintain now grace_days active sub = record sub {
  past_due_since = none;
  grace_expires_at = none;
  dunning_stage = 0;
  cancel_at_period_end = false;
}
maintain now grace_days pending_cancellation sub = record sub { cancel_at_period_end = true }
maintain now grace_days canceled sub = record sub {
  canceled_at = some now;
  cancel_at_period_end = false;
}
maintain now grace_days _ sub = sub

-- The row that `transition` leaves, and whether the event fired.
unfoldable pub transition_row :
    Engine SubscriptionStatus-discrete
    → ℕ
    → ℕ
    → BillingSubscription
    → BillingEvent
    → BillingSubscription × Bool
unfolding maintain
transition_row engine now grace_days sub event =
    let (moved, fired) = try_advance engine billing_machine status_field sub event in
    (if fired then maintain now grace_days moved.status moved else moved, fired)

-- What follows the change of the row: only an event that fired is saved and published.
unfoldable pub finish :
    Session → BillingEvent → BillingSubscription × Bool → Session × BillingSubscription × Bool
unfolding save_subscription publish
finish session event (row, fired) =
    if fired
    then (publish (save_subscription session row) row event, row, true)
    else (session, row, false)

unfoldable pub transition :
    Engine SubscriptionStatus-discrete
    → ℕ
    → ℕ
    → Session
    → BillingSubscription
    → BillingEvent
    → Session × BillingSubscription × Bool
unfolding transition_row finish
transition engine now grace_days session sub event =
    finish session event (transition_row engine now grace_days sub event)

-- Seconds left, rounded up to days; the difference may be negative in the source, and is then 0.
unfoldable pub grace_remaining_days : BillingSubscription → ℕ → ℕ
grace_remaining_days sub now = elim sub.grace_expires_at [
  | none ↦ 0
  | some deadline ↦ if leb deadline now then 0 else (deadline - now + (day_us - 1)) / day_us
]
