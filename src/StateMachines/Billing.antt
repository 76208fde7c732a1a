-- ===== src/StateMachines/Billing.antt =====
-- backend/app/services/state_machines/billing.py and `SubscriptionStatus` of backend/app/models/enums.py.
pub mod Graph
use greensecops.Common.{Bool, true, false, List, [], ◌∷◌, Option, none, some}
use greensecops.StateMachines.Base.{Machine}
use greensecops.StateMachines.Signals.{
  SseSignal, subscription_activated, subscription_canceled, subscription_past_due,
  subscription_unpaid, subscription_updated,
}

pub data SubscriptionStatus : Type 0 where
  incomplete trialing active past_due unpaid pending_cancellation canceled : SubscriptionStatus

pub data BillingEvent : Type 0 where
  checkout_completed trial_started trial_converted trial_ended payment_failed payment_succeeded :
      BillingEvent
  grace_expired cancel_requested resumed period_ended subscription_deleted plan_changed :
      BillingEvent

unfoldable pub SubscriptionStatus-discrete : Discrete SubscriptionStatus
SubscriptionStatus-discrete = hlevel

abbrev pub billing_final : SubscriptionStatus → Bool
billing_final canceled = true
billing_final _ = false

abbrev pub billing_transitions : BillingEvent → List (SubscriptionStatus × SubscriptionStatus)
billing_transitions checkout_completed = (incomplete, active) ∷ []
billing_transitions trial_started = (incomplete, trialing) ∷ []
billing_transitions trial_converted = (trialing, active) ∷ []
billing_transitions trial_ended = (trialing, past_due) ∷ []
billing_transitions payment_failed = (active, past_due) ∷ (trialing, past_due) ∷ []
billing_transitions payment_succeeded = (past_due, active) ∷ (unpaid, active) ∷ []
billing_transitions grace_expired = (past_due, unpaid) ∷ []
billing_transitions cancel_requested =
    (active, pending_cancellation)
    ∷ (trialing, pending_cancellation)
    ∷ (past_due, pending_cancellation)
    ∷ []
billing_transitions resumed = (pending_cancellation, active) ∷ []
billing_transitions period_ended = (pending_cancellation, canceled) ∷ []
billing_transitions subscription_deleted =
    (incomplete, canceled)
    ∷ (trialing, canceled)
    ∷ (active, canceled)
    ∷ (past_due, canceled)
    ∷ (unpaid, canceled)
    ∷ (pending_cancellation, canceled)
    ∷ []
billing_transitions plan_changed = (active, active) ∷ (trialing, trialing) ∷ []

abbrev pub billing_outputs : BillingEvent → Option SseSignal
billing_outputs checkout_completed = some subscription_activated
billing_outputs trial_started = some subscription_updated
billing_outputs trial_converted = some subscription_activated
billing_outputs trial_ended = some subscription_past_due
billing_outputs payment_failed = some subscription_past_due
billing_outputs payment_succeeded = some subscription_activated
billing_outputs grace_expired = some subscription_unpaid
billing_outputs cancel_requested = some subscription_updated
billing_outputs resumed = some subscription_activated
billing_outputs period_ended = some subscription_canceled
billing_outputs subscription_deleted = some subscription_canceled
billing_outputs plan_changed = some subscription_updated

unfoldable pub billing_machine : Machine SubscriptionStatus BillingEvent
billing_machine = record {
  initial = incomplete;
  final = billing_final;
  transitions = billing_transitions;
  outputs = billing_outputs;
}

-- Membership of `ENTITLED_STATUSES`.
unfoldable pub entitled_statuses : SubscriptionStatus → Bool
entitled_statuses trialing = true
entitled_statuses active = true
entitled_statuses past_due = true
entitled_statuses pending_cancellation = true
entitled_statuses _ = false
