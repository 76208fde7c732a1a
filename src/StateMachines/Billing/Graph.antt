-- ===== src/StateMachines/Billing/Graph.antt =====
-- The graph that backend/app/services/state_machines/billing.py declares.
use greensecops.Common.{◌≡◌, refl, true, false, none, some, arith}
use greensecops.StateMachines.Base.{next_state, Reach, here, after, IsWellFormed}
use greensecops.StateMachines.Billing.{
  SubscriptionStatus, incomplete, trialing, active, past_due, unpaid, pending_cancellation,
  canceled, BillingEvent, checkout_completed, trial_started, trial_converted, payment_failed,
  payment_succeeded, grace_expired, cancel_requested, resumed, subscription_deleted,
  SubscriptionStatus-discrete, billing_machine,
}

-- Opens what the graph computes with.
computed : Unit {0}
unfolding next_state billing_machine SubscriptionStatus-discrete
computed = tt

billing_connected :
    (s : SubscriptionStatus) → Reach SubscriptionStatus-discrete billing_machine incomplete s
unfolding computed
billing_connected incomplete = here
billing_connected trialing = after here trial_started refl
billing_connected active = after here checkout_completed refl
billing_connected past_due = after (after here checkout_completed refl) payment_failed refl
billing_connected unpaid =
    after (after (after here checkout_completed refl) payment_failed refl) grace_expired refl
billing_connected pending_cancellation =
    after (after here checkout_completed refl) cancel_requested refl
billing_connected canceled = after here subscription_deleted refl

billing_final_stuck :
    (s : SubscriptionStatus) (e : BillingEvent)
    → billing_machine.final s ≡ true
    → next_state SubscriptionStatus-discrete billing_machine e s ≡ none
unfolding computed
billing_final_stuck s e h = ground arith

billing_live :
    (s : SubscriptionStatus)
    → billing_machine.final s ≡ false
    → (e : BillingEvent) × (t : SubscriptionStatus) × (next_state SubscriptionStatus-discrete
          billing_machine e s
        ≡ some t)
unfolding computed
billing_live incomplete h = (checkout_completed, active, refl)
billing_live trialing h = (trial_converted, active, refl)
billing_live active h = (payment_failed, past_due, refl)
billing_live past_due h = (payment_succeeded, active, refl)
billing_live unpaid h = (payment_succeeded, active, refl)
billing_live pending_cancellation h = (resumed, active, refl)
billing_live canceled h = cc

-- Every state is reachable from the initial one, a final state refuses every event, and every
-- other state has an event that is legal in it.
pub billing_machine-IsWellFormed : IsWellFormed SubscriptionStatus-discrete billing_machine
unfolding computed
billing_machine-IsWellFormed = record {
  connected = billing_connected;
  final_stuck = billing_final_stuck;
  live = billing_live;
}
