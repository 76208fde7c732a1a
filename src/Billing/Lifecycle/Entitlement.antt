-- ===== src/Billing/Lifecycle/Entitlement.antt =====
-- Which events cost an account its plan.
use greensecops.Common.{
  Option, Option-cases, arith, false, inl, inr, none, refl, some, true, ℕ, ◌↔◌, ◌≡◌, ◌≢◌, ◌⊎◌,
}
use greensecops.StateMachines.Base.{Engine, next_state, try_advance-next_state}
use greensecops.StateMachines.Billing.{
  BillingEvent, SubscriptionStatus, SubscriptionStatus-discrete, billing_machine, entitled_statuses,
  grace_expired, past_due, payment_succeeded, period_ended, subscription_deleted, unpaid,
}
use greensecops.Billing.Store.{BillingSubscription}
use greensecops.Billing.Lifecycle.{
  UserTier, is_downgraded, effective_tier, maintain, status_field, transition_row,
}

-- A transition, computed from the graph.
pub transition_row_lem :
    (engine : Engine SubscriptionStatus-discrete) (now grace_days : ℕ) (sub : BillingSubscription)
    (event : BillingEvent)
    → transition_row engine now grace_days sub event
      ≡ elim (next_state SubscriptionStatus-discrete billing_machine event sub.status) [
        | none ↦ (sub, false)
        | some s ↦ (maintain now grace_days s (record sub { status = s }), true)
      ]
unfolding transition_row
transition_row_lem engine now grace_days sub event =
    ground
      (arith, try_advance-next_state engine billing_machine status_field sub event sub.status refl)

abbrev pub next_status : BillingEvent → SubscriptionStatus → Option SubscriptionStatus
next_status = next_state SubscriptionStatus-discrete billing_machine

-- A transition either is refused, and leaves the row, or moves it along the graph.
pub transition_row_cases :
    (engine : Engine SubscriptionStatus-discrete) (now grace_days : ℕ) (sub : BillingSubscription)
    (event : BillingEvent)
    → ((next_status event sub.status ≡ none)
        × (transition_row engine now grace_days sub event ≡ (sub, false)))
      ⊎ ((t : SubscriptionStatus) × (next_status event sub.status ≡ some t)
          × (transition_row engine now grace_days sub event
              ≡ (maintain now grace_days t (record sub { status = t }), true)))
transition_row_cases engine now grace_days sub event =
    elim (Option-cases (next_status event sub.status)) [
      | inl refused ↦
          inl (refused, rw (transition_row_lem engine now grace_days sub event) (rw refused))
      | inr (t, moved) ↦
          inr (t, moved, rw (transition_row_lem engine now grace_days sub event) (rw moved))
    ]

pub maintain-status :
    (now grace_days : ℕ) (t : SubscriptionStatus) (sub : BillingSubscription)
    → (maintain now grace_days t sub).status ≡ sub.status
unfolding maintain
maintain-status now grace_days t sub = ground arith

-- The limits of a paid plan stay in force under every event but the end of the grace window, the end
-- of a cancelled period and the deletion of the subscription, whatever order the events come in.
pub transition_row-effective_tier :
    (engine : Engine SubscriptionStatus-discrete) (now grace_days : ℕ) (sub : BillingSubscription)
    (event : BillingEvent)
    → entitled_statuses sub.status ≡ true
    → event ≢ grace_expired
    → event ≢ period_ended
    → event ≢ subscription_deleted
    → effective_tier (some (transition_row engine now grace_days sub event).0) ≡ sub.tier
unfolding effective_tier next_state billing_machine SubscriptionStatus-discrete maintain
transition_row-effective_tier engine now grace_days sub event on a b c =
    rw (transition_row_lem engine now grace_days sub event) (ground arith)

-- A payment restores the plan from either side of the grace boundary, and clears the deadline, the
-- beginning of the failed payments and the count of reminders.
pub transition_row-payment_succeeded :
    (engine : Engine SubscriptionStatus-discrete) (now grace_days : ℕ) (sub : BillingSubscription)
    → (sub.status ≡ past_due) ⊎ (sub.status ≡ unpaid)
    → let after = (transition_row engine now grace_days sub payment_succeeded).0 in
      (effective_tier (some after) ≡ sub.tier)
      × (after.past_due_since ≡ none)
      × (after.grace_expires_at ≡ none)
      × (after.dunning_stage ≡ 0)
unfolding effective_tier next_state billing_machine SubscriptionStatus-discrete maintain
transition_row-payment_succeeded engine now grace_days sub h =
    rw (transition_row_lem engine now grace_days sub payment_succeeded) (ground arith)

-- An account is limited below what it bought exactly where its status is not entitled and it bought
-- another plan than Free.
pub is_downgraded_lem :
    (sub : BillingSubscription)
    → (is_downgraded (some sub) ≡ true)
      ↔ ((entitled_statuses sub.status ≡ false) × (sub.tier ≢ UserTier.free))
unfolding is_downgraded entitled_statuses
is_downgraded_lem sub = (ground arith, ground arith)
