-- ===== src/Tests/Tasks.antt =====
-- The daily billing tasks at concrete inputs.
use greensecops.Billing.Store.{Session}
use greensecops.Billing.Tasks.{start_run, run_dunning, Settings, Template}
use greensecops.Billing.Tasks.Rerun.{run_dunning_twice}
use greensecops.StateMachines.Base.{first_target, try_advance, Engine}
use greensecops.Billing.Plans.{limits_of, Meter, PlanLimits}
use greensecops.Billing.Warnings.Levels.{Quiet, IsDue, first_warning_lem}
use greensecops.Billing.Calendar.{day_us}
use greensecops.Billing.Warnings.{Warning, first_warning}
use greensecops.Common.{All, List, [], none, refl, some, ℕ, ◌*◌, ◌∷◌, ◌≡◌}
use greensecops.Tests.Samples.{database, first_engine, owing, paying}
use greensecops.StateMachines.Billing.{SubscriptionStatus, SubscriptionStatus-discrete}

abbrev engine : Engine SubscriptionStatus-discrete
engine = first_engine SubscriptionStatus-discrete

abbrev settings : Settings
settings = record { grace_days = 14; dunning_days = 0 ∷ 3 ∷ 7 ∷ 13 ∷ [] }

-- Ada owes, Bob's window is over, and a third account has cancelled.
abbrev overdue : Session
overdue = record database {
  subscriptions =
      record owing { dunning_stage = 0; grace_expires_at = some (20 * day_us) }
      ∷ record owing { id = 8; user_id = 2 }
      ∷ record paying { id = 9; user_id = 3; status = SubscriptionStatus.pending_cancellation }
      ∷ [];
}

first_pass :
    (run_dunning engine settings (4 * day_us) overdue).emails
    ≡ (7, Template.payment_failed)
      ∷ (8, Template.grace_expired)
      ∷ (9, Template.subscription_canceled)
      ∷ []
unfolding run_dunning try_advance first_target SubscriptionStatus-discrete
first_pass = refl

run_dunning_twice_example :
    let after = (run_dunning engine settings (4 * day_us) overdue).session in
    run_dunning engine settings (4 * day_us) after ≡ start_run after
run_dunning_twice_example = run_dunning_twice engine settings (4 * day_us) overdue

abbrev starter_limits : PlanLimits
starter_limits = limits_of (some 1000) (some 100) (some 20)

abbrev reads : List (Meter × ℕ)
reads = (Meter.analyses, 850) ∷ (Meter.fixes, 100) ∷ (Meter.repos, 2) ∷ []

abbrev warning_80 : Warning
warning_80 = record { meter = Meter.analyses; used = 850; limit = 1000; highest = 80 }

abbrev warning_100 : Warning
warning_100 = record { meter = Meter.fixes; used = 100; limit = 100; highest = 100 }

-- The fixes are spent, and yet the first mail is about the analyses.
first_is_lower : first_warning starter_limits 0 reads ≡ some warning_80
unfolding first_warning
first_is_lower = refl

-- The mail about the fixes comes a day later.
second_is_higher : first_warning starter_limits 80 reads ≡ some warning_100
unfolding first_warning
second_is_higher = refl

first_warning_example :
    ((w : Warning)
      → first_warning starter_limits 80 reads ≡ some w
      → IsDue starter_limits 80 reads w)
    × (first_warning starter_limits 80 reads ≡ none → All (Quiet starter_limits 80) reads)
first_warning_example = first_warning_lem starter_limits 80 reads
