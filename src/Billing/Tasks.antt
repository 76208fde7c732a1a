-- ===== src/Billing/Tasks.antt =====
-- backend/app/workers/tasks/billing.py: the daily pass over overdue and cancelled subscriptions, with
-- `commit` of backend/app/core/db.py. The pass's log lines are left out; an e-mail is an entry of a list.
pub mod Outcome
pub mod Settled
pub mod Rerun
use greensecops.StateMachines.Base.{Engine}
use greensecops.Billing.Lifecycle.{apply_tier, transition}
use greensecops.Billing.Store.{save_subscription, BillingSubscription, Session, SubscriptionChanged}
use greensecops.Billing.Calendar.{day_us}
use greensecops.Billing.Plans.{default_tier}
use greensecops.StateMachines.Billing.{
  SubscriptionStatus, SubscriptionStatus-discrete, BillingEvent, past_due, pending_cancellation,
}
use greensecops.Common.{
  Bool, List, Option, [], false, if◌then◌else◌, leb, ltb, none, some, true, ℕ, ◌*◌, ◌++◌, ◌+◌, ◌-◌,
  ◌/◌, ◌∷◌,
}

-- The e-mail templates.
pub data Template : Type 0 where
  payment_failed grace_expired subscription_canceled : Template

-- `BILLING_GRACE_PERIOD_DAYS` and `BILLING_DUNNING_DAYS`.
pub record Settings : Type 0 where
  pub grace_days : ℕ
  pub dunning_days : List ℕ

-- The state of a pass: the database, what was published and mailed, and the three counts.
pub record Run : Type 0 where
  pub session : Session
  pub published : List SubscriptionChanged
  pub emails : List (ℕ × Template)
  pub reminded : ℕ
  pub expired : ℕ
  pub canceled_count : ℕ

abbrev pub start_run : Session → Run
start_run session = record {
  session = session;
  published = [];
  emails = [];
  reminded = 0;
  expired = 0;
  canceled_count = 0;
}

unfoldable pub commit : Session → Run → Run
commit session run = record run {
  session = record session { pending_events = [] };
  published = run.published ++ session.pending_events;
}

unfoldable pub send_billing_email : BillingSubscription → Template → Run → Run
send_billing_email sub template run = record run { emails = run.emails ++ (sub.id, template) ∷ [] }

unfoldable pub due_stage : List ℕ → ℕ → ℕ
due_stage [] days_elapsed = 0
due_stage (day ∷ days) days_elapsed =
    let rest = due_stage days days_elapsed in if leb day days_elapsed then rest + 1 else rest

-- `(now - since).days` is negative where `since` lies ahead, and then no day of the schedule is due.
unfoldable pub stage_at : List ℕ → ℕ → ℕ → ℕ
unfolding due_stage
stage_at dunning_days now since =
    if ltb now since then 0 else due_stage dunning_days ((now - since) / day_us)

-- `deadline is not None and now >= deadline`.
unfoldable pub is_over : ℕ → Option ℕ → Bool
is_over now none = false
is_over now (some deadline) = leb deadline now

abbrev pub is_past_due : SubscriptionStatus → Bool
is_past_due past_due = true
is_past_due _ = false

abbrev pub is_cancelling : SubscriptionStatus → Bool
is_cancelling pending_cancellation = true
is_cancelling _ = false

-- The query for the rows in some status.
unfoldable pub rows_in :
    (SubscriptionStatus → Bool) → List BillingSubscription → List BillingSubscription
rows_in p [] = []
rows_in p (s ∷ ss) = let rest = rows_in p ss in if p s.status then s ∷ rest else rest

module _ (engine : Engine SubscriptionStatus-discrete) (settings : Settings) (now : ℕ) where
  expired_run : Run → Session × BillingSubscription × Bool → Run
  unfolding commit send_billing_email
  expired_run run (session, row, fired) =
      if fired
      then send_billing_email row Template.grace_expired (
          let committed = commit session run in
          record committed { expired = committed.expired + 1 })
      else run

  unfoldable pub expire : Run → BillingSubscription → Run
  unfolding expired_run transition
  expire run sub =
      expired_run run
        (transition engine now settings.grace_days run.session sub BillingEvent.grace_expired)

  unfoldable pub remind : Run → BillingSubscription → ℕ → Run
  unfolding commit send_billing_email save_subscription
  remind run sub due =
      if ltb sub.dunning_stage due
      then (let sub' = record sub { dunning_stage = due } in
          let committed = commit (save_subscription run.session sub') run in
          let mailed = send_billing_email sub' Template.payment_failed committed in
          record mailed { reminded = mailed.reminded + 1 })
      else run

  unfoldable pub chase : Run → BillingSubscription → ℕ → Run
  unfolding expire remind is_over stage_at
  chase run sub since =
      if is_over now sub.grace_expires_at
      then expire run sub
      else remind run sub (stage_at settings.dunning_days now since)

  -- A row without a window gets one.
  abbrev pub windowed : BillingSubscription → BillingSubscription
  windowed sub = record sub {
    past_due_since = some now;
    grace_expires_at = some (now + settings.grace_days * day_us);
  }

  visit_from : Run → BillingSubscription → Option ℕ → Run
  unfolding chase commit save_subscription
  visit_from run sub none =
      chase (commit (save_subscription run.session (windowed sub)) run) (windowed sub) now
  visit_from run sub (some since) = chase run sub since

  -- The body of the first loop.
  unfoldable pub visit : Run → BillingSubscription → Run
  unfolding visit_from
  visit run sub = visit_from run sub sub.past_due_since

  canceled_run : Run → Session × BillingSubscription × Bool → Run
  unfolding commit send_billing_email apply_tier
  canceled_run run (session, row, fired) =
      if fired
      then (let (session', row') = apply_tier session row default_tier in
          let mailed =
            send_billing_email row' Template.subscription_canceled (commit session' run) in
          record mailed { canceled_count = mailed.canceled_count + 1 })
      else run

  -- The body of the second loop.
  unfoldable pub close : Run → BillingSubscription → Run
  unfolding canceled_run transition is_over
  close run sub =
      if is_over now sub.period_end
      then canceled_run run
          (transition engine now settings.grace_days run.session sub BillingEvent.period_ended)
      else run

unfoldable pub for_each : (Run → BillingSubscription → Run) → List BillingSubscription → Run → Run
for_each body [] run = run
for_each body (s ∷ ss) run = for_each body ss (body run s)

unfoldable pub run_dunning : Engine SubscriptionStatus-discrete → Settings → ℕ → Session → Run
unfolding for_each rows_in visit close
run_dunning engine settings now session =
    let chased =
      for_each (visit engine settings now) (rows_in is_past_due session.subscriptions)
        (start_run session) in
    for_each (close engine settings now) (rows_in is_cancelling chased.session.subscriptions) chased
