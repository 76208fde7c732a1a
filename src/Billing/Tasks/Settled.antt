-- ===== src/Billing/Tasks/Settled.antt =====
-- The pass leaves nothing to do.
use greensecops.Billing.Lifecycle.Entitlement.{next_status, transition_row_lem}
use greensecops.StateMachines.Base.{Engine, next_state}
use greensecops.Billing.Tasks.{
  default_tier, windowed, close, Run, Settings, chase, commit, expire, is_cancelling, is_over,
  is_past_due, remind, send_billing_email, stage_at, visit, visit_from,
}
use greensecops.Billing.Store.{
  User, save_user, BillingSubscription, Session, replace_subscription, save_subscription,
}
use greensecops.Billing.Tasks.Outcome.{Outcome, Rows, replace_twice}
use greensecops.Billing.Lifecycle.{
  apply_tier, finish, maintain, publish, transition, transition_row,
}
use greensecops.StateMachines.Billing.{
  SubscriptionStatus, BillingEvent, SubscriptionStatus-discrete, billing_machine, unpaid, canceled,
}
use greensecops.Billing.Lifecycle.{mirror_tier}
use greensecops.Billing.Lifecycle.Redelivery.{transition_lem}
use greensecops.Billing.Plans.{UserTier}
use greensecops.Common.{
  ap, Bool-cases, Option, arith, false, inl, inr, ltb, none, refl, some, sym, true, ℕ, ◌∙◌, ◌≡◌,
  ◌≤◌,
}

expiry :
    (s : SubscriptionStatus)
    → is_past_due s ≡ true
    → next_status BillingEvent.grace_expired s ≡ some unpaid
unfolding next_state billing_machine SubscriptionStatus-discrete
expiry s h = ground arith

ending :
    (s : SubscriptionStatus)
    → is_cancelling s ≡ true
    → next_status BillingEvent.period_ended s ≡ some canceled
unfolding next_state billing_machine SubscriptionStatus-discrete
ending s h = ground arith

mirror_tier-subscriptions :
    (session : Session) (tier : UserTier) (o : Option User)
    → (mirror_tier session tier o).subscriptions ≡ session.subscriptions
unfolding mirror_tier save_user
mirror_tier-subscriptions session tier none = refl
mirror_tier-subscriptions session tier (some user) = refl

module _ (engine : Engine SubscriptionStatus-discrete) (settings : Settings) (now : ℕ) where
  -- A failed payment's window is on record and open, and every reminder that is due was sent.
  abbrev pub Chased : BillingSubscription → Type 0
  Chased sub =
      is_past_due sub.status ≡ true
      → (since : ℕ) × (sub.past_due_since ≡ some since)
        × (is_over now sub.grace_expires_at ≡ false)
        × (stage_at settings.dunning_days now since ≤ sub.dunning_stage)

  -- A cancelled subscription's period has not ended.
  abbrev pub Closed : BillingSubscription → Type 0
  Closed sub = is_cancelling sub.status ≡ true → is_over now sub.period_end ≡ false

  abbrev pub row_after : BillingSubscription → BillingEvent → BillingSubscription
  row_after sub event = (transition_row engine now settings.grace_days sub event).0

  finish_row :
      (session : Session) (sub : BillingSubscription) (event : BillingEvent)
      (t : SubscriptionStatus)
      → next_status event sub.status ≡ some t
      → transition engine now settings.grace_days session sub event
        ≡ finish session event
            (maintain now settings.grace_days t (record sub { status = t }), true)
  finish_row session sub event t h =
      rw
        (
          transition_lem engine now settings.grace_days session sub event,
          transition_row_lem engine now settings.grace_days sub event,
        )
        (rw h)

  expire_lem :
      (run : Run) (sub : BillingSubscription)
      → is_past_due sub.status ≡ true
      → (expire engine settings now run sub).session.subscriptions
        ≡ replace_subscription (record sub { status = unpaid }) run.session.subscriptions
  unfolding expire finish save_subscription publish maintain commit send_billing_email
  expire_lem run sub h =
      rw (finish_row run.session sub BillingEvent.grace_expired unpaid (expiry sub.status h)) refl

  expire-Outcome :
      (run : Run) (sub : BillingSubscription)
      → is_past_due sub.status ≡ true
      → Outcome sub Chased run.session.subscriptions
          (expire engine settings now run sub).session.subscriptions
  expire-Outcome run sub h =
      inr (record sub { status = unpaid }, refl, (λ d. cc), expire_lem run sub h)

  remind-Outcome :
      (run : Run) (sub : BillingSubscription) (since : ℕ)
      → sub.past_due_since ≡ some since
      → is_over now sub.grace_expires_at ≡ false
      → Outcome sub Chased run.session.subscriptions
          (remind engine settings now run sub
            (stage_at settings.dunning_days now since)).session.subscriptions
  unfolding remind commit send_billing_email save_subscription
  remind-Outcome run sub since e o =
      let due = stage_at settings.dunning_days now since in
      elim (Bool-cases (ltb sub.dunning_stage due)) [
        | inl owed ↦ rw owed (
            inr (record sub { dunning_stage = due }, refl, (λ _. (since, e, o, omega arith)), refl))
        | inr up_to_date ↦ rw up_to_date (inl (refl, (λ _. (since, e, o, ground arith))))
      ]

  chase_over :
      (run : Run) (sub : BillingSubscription) (since : ℕ)
      → is_over now sub.grace_expires_at ≡ true
      → chase engine settings now run sub since ≡ expire engine settings now run sub
  unfolding chase
  chase_over run sub since h = rw h

  pub chase_open :
      (run : Run) (sub : BillingSubscription) (since : ℕ)
      → is_over now sub.grace_expires_at ≡ false
      → chase engine settings now run sub since
        ≡ remind engine settings now run sub (stage_at settings.dunning_days now since)
  unfolding chase
  chase_open run sub since h = rw h

  chase-Outcome :
      (run : Run) (sub : BillingSubscription) (since : ℕ)
      → is_past_due sub.status ≡ true
      → sub.past_due_since ≡ some since
      → Outcome sub Chased run.session.subscriptions
          (chase engine settings now run sub since).session.subscriptions
  chase-Outcome run sub since h e = elim (Bool-cases (is_over now sub.grace_expires_at)) [
    | inl over ↦ rw (chase_over run sub since over) (expire-Outcome run sub h)
    | inr open' ↦ rw (chase_open run sub since open') (remind-Outcome run sub since e open')
  ]

  -- The write before another to the same row is overwritten.
  Outcome-replace :
      (P : BillingSubscription → Type 0) (sub sub' : BillingSubscription) (ss ss' : Rows)
      → sub'.id ≡ sub.id
      → Outcome sub' P (replace_subscription sub' ss) ss'
      → Outcome sub P ss ss'
  Outcome-replace P sub sub' ss ss' i (inl (same, done)) = inr (sub', i, done, same)
  Outcome-replace P sub sub' ss ss' i (inr (row, j, done, wrote)) =
      inr (row, j ∙ i, done, wrote ∙ replace_twice sub' row ss (sym j))

  pub visit-Outcome :
      (run : Run) (sub : BillingSubscription)
      → is_past_due sub.status ≡ true
      → Outcome sub Chased run.session.subscriptions
          (visit engine settings now run sub).session.subscriptions
  unfolding visit commit save_subscription
  visit-Outcome run sub h = from sub.past_due_since refl
    where
      from :
          (o : Option ℕ)
          → sub.past_due_since ≡ o
          → Outcome sub Chased run.session.subscriptions
              (visit_from engine settings now run sub o).session.subscriptions
      from none e =
          Outcome-replace Chased sub (windowed engine settings now sub) run.session.subscriptions _
            refl
            (chase-Outcome
              (commit (save_subscription run.session (windowed engine settings now sub)) run)
              (windowed engine settings now sub) now h refl)
      from (some since) e = chase-Outcome run sub since h e

  abbrev ended : BillingSubscription → BillingSubscription
  ended sub = record sub {
    status = canceled;
    tier = default_tier;
    canceled_at = some now;
    cancel_at_period_end = false;
  }

  close_over :
      (run : Run) (sub : BillingSubscription)
      → is_cancelling sub.status ≡ true
      → is_over now sub.period_end ≡ true
      → (close engine settings now run sub).session.subscriptions
        ≡ replace_subscription (ended sub) run.session.subscriptions
  unfolding close finish save_subscription publish maintain commit send_billing_email apply_tier
  close_over run sub h over =
      rw (over, finish_row run.session sub BillingEvent.period_ended canceled (ending sub.status h))
        (mirror_tier-subscriptions _ _ _ ∙ replace_twice _ _ run.session.subscriptions refl)

  pub close_open :
      (run : Run) (sub : BillingSubscription)
      → is_over now sub.period_end ≡ false
      → close engine settings now run sub ≡ run
  unfolding close
  close_open run sub h = rw h

  pub close-Outcome :
      (run : Run) (sub : BillingSubscription)
      → is_cancelling sub.status ≡ true
      → Outcome sub
          (λ s. Chased s × Closed s)
          run.session.subscriptions
          (close engine settings now run sub).session.subscriptions
  close-Outcome run sub h = elim (Bool-cases (is_over now sub.period_end)) [
    | inl over ↦ inr (ended sub, refl, ((λ d. cc), (λ c. cc)), close_over run sub h over)
    | inr open' ↦ inl (
      ap (λ (r : Run). r.session.subscriptions) (close_open run sub open'),
      ((λ d. ground arith), (λ c. open')),
    )
  ]
