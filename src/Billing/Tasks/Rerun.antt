-- ===== src/Billing/Tasks/Rerun.antt =====
-- A second pass at the same instant.
use greensecops.Billing.Tasks.{
  visit_from, chase, Run, Settings, close, for_each, is_cancelling, is_past_due, remind, rows_in,
  run_dunning, stage_at, start_run, visit,
}
use greensecops.Billing.Tasks.Outcome.{Rows, for_each-rows_in}
use greensecops.Billing.Store.{BillingSubscription, Session}
use greensecops.Billing.Tasks.Settled.{
  Chased, Closed, chase_open, close-Outcome, close_open, visit-Outcome,
}
use greensecops.Common.{
  All, All-imp, Bool, Bool-cases, [], ap, false, inl, inr, le→ltb, refl, some, true, ℕ, ◌∙◌, ◌∷◌,
  ◌≡◌, ◌≤◌,
}
use greensecops.StateMachines.Billing.{SubscriptionStatus, SubscriptionStatus-discrete}
use greensecops.StateMachines.Base.{Engine}

-- A loop whose body leaves each of its rows alone.
for_each_idle :
    (body : Run → BillingSubscription → Run) (rs : Rows) (run : Run)
    → All (λ s. (r : Run) → body r s ≡ r) rs
    → for_each body rs run ≡ run
unfolding for_each
for_each_idle body [] run a = refl
for_each_idle body (s ∷ ss) run (now, later) = rw (now run) (for_each_idle body ss run later)

All-rows_in :
    (P Q : BillingSubscription → Type 0) (p : SubscriptionStatus → Bool) (ss : Rows)
    → ((s : BillingSubscription) → p s.status ≡ true → P s → Q s)
    → All P ss
    → All Q (rows_in p ss)
unfolding rows_in
All-rows_in P Q p [] f a = tt
All-rows_in P Q p (s ∷ ss) f (now, later) = elim (Bool-cases (p s.status)) [
  | inl kept ↦ rw kept (f s kept now, All-rows_in P Q p ss f later)
  | inr out ↦ rw out (All-rows_in P Q p ss f later)
]

module _ (engine : Engine SubscriptionStatus-discrete) (settings : Settings) (now : ℕ) where
  abbrev Settled : BillingSubscription → Type 0
  Settled s = Chased engine settings now s × Closed engine settings now s

  remind_idle :
      (run : Run) (sub : BillingSubscription) (due : ℕ)
      → due ≤ sub.dunning_stage
      → remind engine settings now run sub due ≡ run
  unfolding remind
  remind_idle run sub due h = rw (le→ltb sub.dunning_stage due h)

  visit_since :
      (run : Run) (sub : BillingSubscription) (since : ℕ)
      → sub.past_due_since ≡ some since
      → visit engine settings now run sub ≡ chase engine settings now run sub since
  unfolding visit
  visit_since run sub since e = ap (λ o. visit_from engine settings now run sub o) e

  visit_idle :
      (sub : BillingSubscription)
      → is_past_due sub.status ≡ true
      → Settled sub
      → (run : Run) → visit engine settings now run sub ≡ run
  visit_idle sub h (chased, _) run =
      let (since, e, open', sent) = chased h in
      visit_since run sub since e
      ∙ chase_open engine settings now run sub since open'
      ∙ remind_idle run sub (stage_at settings.dunning_days now since) sent

  close_idle :
      (sub : BillingSubscription)
      → is_cancelling sub.status ≡ true
      → Settled sub
      → (run : Run) → close engine settings now run sub ≡ run
  close_idle sub h (_, closed) run = close_open engine settings now run sub (closed h)

  abbrev chased_run : Session → Run
  chased_run session =
      for_each (visit engine settings now) (rows_in is_past_due session.subscriptions)
        (start_run session)

  everything :
      (P : BillingSubscription → Type 0)
      → ((s : BillingSubscription) → P s)
      → (ss : Rows) → All P ss
  everything P f [] = tt
  everything P f (s ∷ ss) = (f s, everything P f ss)

  chased_run-Chased :
      (session : Session)
      → All (Chased engine settings now) (chased_run session).session.subscriptions
  chased_run-Chased session =
      for_each-rows_in (Chased engine settings now) is_past_due (visit engine settings now)
        (visit-Outcome engine settings now) (start_run session)
        (everything (λ s. is_past_due s.status ≡ false → Chased engine settings now s)
          (λ s out past. cc) session.subscriptions)

  -- After a pass every row is settled: no reminder is due, and no window and no cancelled period is
  -- over.
  run_dunning-Settled :
      (session : Session)
      → All Settled (run_dunning engine settings now session).session.subscriptions
  unfolding run_dunning
  run_dunning-Settled session =
      for_each-rows_in Settled is_cancelling (close engine settings now)
        (close-Outcome engine settings now) (chased_run session)
        (All-imp (Chased engine settings now) (λ s. is_cancelling s.status ≡ false → Settled s)
          (chased_run session).session.subscriptions (λ s chased out. (chased, λ c. cc))
          (chased_run-Chased session))

  idle_run :
      (session : Session)
      → All Settled session.subscriptions
      → run_dunning engine settings now session ≡ start_run session
  unfolding run_dunning
  idle_run session a =
      let first =
        for_each_idle (visit engine settings now) (rows_in is_past_due session.subscriptions)
          (start_run session)
          (All-rows_in Settled (λ s. (r : Run) → visit engine settings now r s ≡ r) is_past_due
            session.subscriptions visit_idle a) in
      let second =
        for_each_idle (close engine settings now) (rows_in is_cancelling session.subscriptions)
          (start_run session)
          (All-rows_in Settled (λ s. (r : Run) → close engine settings now r s ≡ r) is_cancelling
            session.subscriptions close_idle a) in
      rw first second

  -- A second pass at the same instant does nothing: it mails, publishes and counts nothing and leaves
  -- the database as the first pass left it.
  pub run_dunning_twice :
      (session : Session)
      → let after = (run_dunning engine settings now session).session in
        run_dunning engine settings now after ≡ start_run after
  run_dunning_twice session =
      idle_run (run_dunning engine settings now session).session (run_dunning-Settled session)
