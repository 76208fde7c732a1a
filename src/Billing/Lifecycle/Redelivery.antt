-- ===== src/Billing/Lifecycle/Redelivery.antt =====
-- Stripe redelivers and reorders its events.
use greensecops.Common.{inr, inl, ℕ, ◌≡◌, ◌≢◌, refl, Bool, false, none, some, arith}
use greensecops.StateMachines.Base.{Engine, next_state}
use greensecops.StateMachines.Billing.{
  SubscriptionStatus, BillingEvent, plan_changed, SubscriptionStatus-discrete, billing_machine,
}
use greensecops.Billing.Store.{BillingSubscription, Session}
use greensecops.Billing.Lifecycle.{finish, maintain, transition_row, transition}
use greensecops.Billing.Lifecycle.Entitlement.{
  maintain-status, next_status, transition_row_cases, transition_row_lem,
}

next_twice :
    (s t : SubscriptionStatus) (e : BillingEvent)
    → e ≢ plan_changed
    → next_status e s ≡ some t
    → next_status e t ≡ none
unfolding next_state billing_machine SubscriptionStatus-discrete
next_twice s t e other h = ground arith

refused_row :
    (engine : Engine SubscriptionStatus-discrete) (now grace_days : ℕ) (sub : BillingSubscription)
    (event : BillingEvent)
    → next_status event sub.status ≡ none
    → transition_row engine now grace_days sub event ≡ (sub, false)
refused_row engine now grace_days sub event refused =
    rw (transition_row_lem engine now grace_days sub event) (rw refused)

transition_row_twice :
    (engine : Engine SubscriptionStatus-discrete) (now later grace_days : ℕ)
    (sub : BillingSubscription) (event : BillingEvent)
    → event ≢ plan_changed
    → let after = (transition_row engine now grace_days sub event).0 in
      transition_row engine later grace_days after event ≡ (after, false)
transition_row_twice engine now later grace_days sub event other =
    elim (transition_row_cases engine now grace_days sub event) [
      | inl (refused, same) ↦ rw same (refused_row engine later grace_days sub event refused)
      | inr (t, moved, row) ↦ rw row (
          refused_row engine later grace_days
            (maintain now grace_days t (record sub { status = t })) event
            (rw (maintain-status now grace_days t (record sub { status = t }))
              (next_twice sub.status t event other moved)))
    ]

pub transition_lem :
    (engine : Engine SubscriptionStatus-discrete) (now grace_days : ℕ) (session : Session)
    (sub : BillingSubscription) (event : BillingEvent)
    → transition engine now grace_days session sub event
      ≡ finish session event (transition_row engine now grace_days sub event)
unfolding transition
transition_lem engine now grace_days session sub event = refl

pub finish-row :
    (session : Session) (event : BillingEvent) (r : BillingSubscription × Bool)
    → (finish session event r).1 ≡ r.0
unfolding finish
finish-row session event (row, fired) = ground arith

finish_refused :
    (session : Session) (event : BillingEvent) (row : BillingSubscription)
    → finish session event (row, false) ≡ (session, row, false)
unfolding finish
finish_refused session event row = refl

-- An event that is delivered twice has its effect once: the second delivery changes neither the
-- subscription nor the session and publishes nothing. Only a plan change may fire again.
pub transition_twice :
    (engine : Engine SubscriptionStatus-discrete) (now later grace_days : ℕ) (session : Session)
    (sub : BillingSubscription) (event : BillingEvent)
    → event ≢ plan_changed
    → let (session', after, fired) = transition engine now grace_days session sub event in
      transition engine later grace_days session' after event ≡ (session', after, false)
transition_twice engine now later grace_days session sub event other =
    rw
      (
        transition_lem engine later grace_days
            (transition engine now grace_days session sub event).0
            (transition engine now grace_days session sub event).1 event,
        transition_lem engine now grace_days session sub event,
        finish-row session event (transition_row engine now grace_days sub event),
        transition_row_twice engine now later grace_days sub event other,
      )
      (finish_refused (finish session event (transition_row engine now grace_days sub event)).0
        event (transition_row engine now grace_days sub event).0)
