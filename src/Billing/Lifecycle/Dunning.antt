-- ===== src/Billing/Lifecycle/Dunning.antt =====
-- The columns that follow a subscription's status.
use greensecops.Common.{
  inr, inl, ℕ, ◌+◌, ◌*◌, ◌≡◌, ◌≢◌, refl, Bool, true, false, List, [], ◌∷◌, Option, none, some,
  arith,
}
use greensecops.StateMachines.Base.{Engine, next_state}
use greensecops.StateMachines.Billing.{
  SubscriptionStatus, incomplete, trialing, active, past_due, unpaid, pending_cancellation,
  canceled, BillingEvent, SubscriptionStatus-discrete, billing_machine,
}
use greensecops.Billing.Store.{User, BillingSubscription}
use greensecops.Billing.Calendar.{day_us}
use greensecops.Billing.Lifecycle.{new_subscription, maintain, transition_row}
use greensecops.Billing.Lifecycle.Entitlement.{maintain-status, next_status, transition_row_cases}

abbrev pub is_set : Option ℕ → Bool
is_set none = false
is_set (some _) = true

-- Whether the status is one in which a failed payment is outstanding.
abbrev pub owes : SubscriptionStatus → Bool
owes past_due = true
owes unpaid = true
owes _ = false

-- Whether no failed payment can be on record.
abbrev pub is_clear : SubscriptionStatus → Bool
is_clear incomplete = true
is_clear trialing = true
is_clear active = true
is_clear _ = false

abbrev pub is_pending_cancellation : SubscriptionStatus → Bool
is_pending_cancellation pending_cancellation = true
is_pending_cancellation _ = false

abbrev pub is_canceled : SubscriptionStatus → Bool
is_canceled canceled = true
is_canceled _ = false

-- The grace columns are set while a payment is owed and empty before any failed; the two flags of a
-- cancellation say what the status says.
pub record IsConsistent (sub : BillingSubscription) : Type 0 where
  pub window_open : owes sub.status ≡ true → is_set sub.past_due_since ≡ true
  pub window_clear : is_clear sub.status ≡ true → sub.past_due_since ≡ none
  pub deadline : is_set sub.grace_expires_at ≡ is_set sub.past_due_since
  pub cancelling : sub.cancel_at_period_end ≡ is_pending_cancellation sub.status
  pub ended : is_set sub.canceled_at ≡ is_canceled sub.status

-- What the graph allows of an edge.
edge :
    (s t : SubscriptionStatus) (e : BillingEvent)
    → next_status e s ≡ some t
    → (is_canceled s ≡ false)
      × (t ≢ incomplete)
      × (t ≡ unpaid → s ≡ past_due)
      × (t ≡ trialing → is_clear s ≡ true)
      × (t ≡ past_due → is_clear s ≡ true)
unfolding next_state billing_machine SubscriptionStatus-discrete
edge s t e h = ground arith

maintain-IsConsistent :
    (now grace_days : ℕ) (sub : BillingSubscription) (t : SubscriptionStatus)
    → IsConsistent sub
    → is_canceled sub.status ≡ false
    → t ≢ incomplete
    → (t ≡ unpaid → sub.status ≡ past_due)
    → (t ≡ trialing → is_clear sub.status ≡ true)
    → (t ≡ past_due → is_clear sub.status ≡ true)
    → IsConsistent (maintain now grace_days t (record sub { status = t }))
unfolding maintain
maintain-IsConsistent now grace_days sub incomplete c a b d e f = absurd (b refl)
maintain-IsConsistent now grace_days sub trialing c a b d e f = ground (arith, e refl)
maintain-IsConsistent now grace_days sub active c a b d e f = ground arith
maintain-IsConsistent now grace_days sub past_due c a b d e f = ground (arith, f refl)
maintain-IsConsistent now grace_days sub unpaid c a b d e f = ground (arith, d refl)
maintain-IsConsistent now grace_days sub pending_cancellation c a b d e f = ground arith
maintain-IsConsistent now grace_days sub canceled c a b d e f = ground arith

-- Every event, legal or not, keeps a subscription's columns consistent with its status.
pub transition_row-IsConsistent :
    (engine : Engine SubscriptionStatus-discrete) (now grace_days : ℕ) (sub : BillingSubscription)
    (event : BillingEvent)
    → IsConsistent sub
    → IsConsistent (transition_row engine now grace_days sub event).0
transition_row-IsConsistent engine now grace_days sub event c =
    elim (transition_row_cases engine now grace_days sub event) [
      | inl (refused, same) ↦ rw same c
      | inr (t, moved, row) ↦
          let (a, b, d, e, f) = edge sub.status t event moved in
          rw row (maintain-IsConsistent now grace_days sub t c a b d e f)
    ]

-- A new subscription is consistent.
new_subscription-IsConsistent :
    (new_id : ℕ) (user : User) → IsConsistent (new_subscription new_id user)
new_subscription-IsConsistent new_id user = record {
  window_open = λ owing. cc;
  window_clear = λ _. refl;
  deadline = refl;
  cancelling = refl;
  ended = refl;
}

-- The events in turn, each at its instant.
unfoldable pub transitions :
    Engine SubscriptionStatus-discrete
    → ℕ
    → BillingSubscription
    → List (ℕ × BillingEvent)
    → BillingSubscription
transitions engine grace_days sub [] = sub
transitions engine grace_days sub ((now, e) ∷ es) =
    transitions engine grace_days (transition_row engine now grace_days sub e).0 es

pub transitions-IsConsistent :
    (engine : Engine SubscriptionStatus-discrete) (grace_days : ℕ) (sub : BillingSubscription)
    (es : List (ℕ × BillingEvent))
    → IsConsistent sub
    → IsConsistent (transitions engine grace_days sub es)
unfolding transitions
transitions-IsConsistent engine grace_days sub [] c = c
transitions-IsConsistent engine grace_days sub ((now, e) ∷ es) c =
    transitions-IsConsistent engine grace_days (transition_row engine now grace_days sub e).0 es
      (transition_row-IsConsistent engine now grace_days sub e c)

maintain-past_due :
    (now grace_days : ℕ) (sub : BillingSubscription) (t : SubscriptionStatus)
    → IsConsistent sub
    → (t ≡ past_due → is_clear sub.status ≡ true)
    → t ≡ past_due
    → let after = maintain now grace_days t (record sub { status = t }) in
      (after.past_due_since ≡ some now)
      × (after.grace_expires_at ≡ some (now + grace_days * day_us))
      × (after.dunning_stage ≡ 0)
unfolding maintain
maintain-past_due now grace_days sub t c f h = ground (arith, f h, c.window_clear)

-- A consistent subscription that an event brings into the grace window gets the whole window, counted
-- from that event, with no reminder sent yet; so no earlier failure shortens it.
pub transition_row-past_due :
    (engine : Engine SubscriptionStatus-discrete) (now grace_days : ℕ) (sub : BillingSubscription)
    (event : BillingEvent)
    → IsConsistent sub
    → sub.status ≢ past_due
    → (transition_row engine now grace_days sub event).0.status ≡ past_due
    → let after = (transition_row engine now grace_days sub event).0 in
      (after.past_due_since ≡ some now)
      × (after.grace_expires_at ≡ some (now + grace_days * day_us))
      × (after.dunning_stage ≡ 0)
transition_row-past_due engine now grace_days sub event c out entered =
    elim (transition_row_cases engine now grace_days sub event) [
      | inl (refused, same) ↦ absurd (out (rw same at entered))
      | inr (t, moved, row) ↦
          let e = edge sub.status t event moved in
          let arrived : (maintain now grace_days t (record sub { status = t })).status ≡ past_due =
            rw row at entered in
          rw row (
            maintain-past_due now grace_days sub t c e.4
              (rw (maintain-status now grace_days t (record sub { status = t })) at arrived))
    ]

-- Whatever events arrive from its creation on, and in whatever order, the grace columns and the
-- cancellation flags of a subscription say what its status says.
pub transitions-new :
    (engine : Engine SubscriptionStatus-discrete) (grace_days new_id : ℕ) (user : User)
    (es : List (ℕ × BillingEvent))
    → IsConsistent (transitions engine grace_days (new_subscription new_id user) es)
transitions-new engine grace_days new_id user es =
    transitions-IsConsistent engine grace_days (new_subscription new_id user) es
      (new_subscription-IsConsistent new_id user)
