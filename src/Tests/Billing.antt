-- ===== src/Tests/Billing.antt =====
-- Billing at concrete inputs.
use greensecops.StateMachines.Base.{Engine, first_target, try_advance}
use greensecops.Billing.Quota.Enforcement.{Fits, enforce_quota-none}
use greensecops.Billing.Quota.Agreement.{states_for_org-state_for_org}
use greensecops.Billing.Owner.Resolution.{mem-billing_owner_org_ids}
use greensecops.Billing.Usage.Ledger.{period_usage-record_for_org}
use greensecops.Billing.Calendar.{day_us, month_bounds}
use greensecops.Billing.Usage.{Charge, period_usage, record_for_org}
use greensecops.Billing.Store.{BillingSubscription, Session, UsageMeter, find_user}
use greensecops.Billing.Quota.Charging.{enforce_quota-record_for_org, ledger_meter}
use greensecops.Billing.Lifecycle.Entitlement.{transition_row-effective_tier}
use greensecops.Billing.Lifecycle.{
  effective_tier, get_or_create_subscription, new_subscription, transition, transition_row,
}
use greensecops.Billing.Quota.{enforce_quota, state_for_org, states_for_org, usage_for}
use greensecops.Billing.Lifecycle.Redelivery.{transition_twice}
use greensecops.StateMachines.Billing.{
  BillingEvent, SubscriptionStatus, SubscriptionStatus-discrete, billing_machine, entitled_statuses,
}
use greensecops.Billing.Owner.{billing_owner_org_ids, is_user, org_billing_owner}
use greensecops.Billing.Plans.{Meter, UserTier}
use greensecops.Billing.Lifecycle.Dunning.{
  IsConsistent, transition_row-past_due, transitions, transitions-new,
}
use greensecops.Billing.Errors.{QuotaExceeded}
use greensecops.Common.{
  Bool, List, Memᴰ, Option, [], arith, false, none, refl, some, true, ℕ, ◌*◌, ◌+◌, ◌-◌, ◌↔◌, ◌∷◌,
  ◌≡◌, ◌≤◌, ◌⊎◌,
}
use greensecops.Tests.Samples.{ada, bob, database, first_engine, paying, request, ten}

abbrev engine : Engine SubscriptionStatus-discrete
engine = first_engine SubscriptionStatus-discrete

-- Ada is the first owner of organisation 10 in spite of Bob's row before hers: his has no date.
owner_10 : org_billing_owner database 10 ≡ some ada
unfolding org_billing_owner find_user
owner_10 = refl

unowned_12 : org_billing_owner database 12 ≡ none
unfolding org_billing_owner
unowned_12 = refl

abbrev unowned_charge : Charge
unowned_charge = record ten { org_id = 12 }

enforce_quota-record_for_org_example :
    period_usage
      (record_for_org request.now (usage_for request database ada (ledger_meter ten.meter)).0 ten).0
      ada.id
      ten.meter
      (usage_for request database ada (ledger_meter ten.meter)).2.period_start
      (usage_for request database ada (ledger_meter ten.meter)).2.period_end
    ≤ 10000
unfolding enforce_quota usage_for find_user period_usage
enforce_quota-record_for_org_example =
    enforce_quota-record_for_org request database (some bob) ten ada none 10000 refl owner_10 refl
      refl (omega arith) refl

enforce_quota-none_example :
    ((enforce_quota request database none 10 Meter.analyses 11 none).1 ≡ none)
    ↔ ((◌≡◌ {A = ℕ} 11 0) ⊎ Fits (state_for_org request database none 10 Meter.analyses).1 11)
enforce_quota-none_example = enforce_quota-none request database none 10 Meter.analyses 11 none

abbrev refusal : Option QuotaExceeded → Option (ℕ × ℕ × ℕ)
refusal none = none
refusal (some e) = some (e.requested, e.remaining, e.used)

refused_11 :
    refusal (enforce_quota request database none 10 Meter.analyses 11 none).1 ≡ some (11, 10, 9990)
unfolding enforce_quota find_user period_usage
refused_11 = refl

states_for_org-state_for_org_example :
    ((states_for_org request database none 10).0
      ≡ (state_for_org request database none 10 Meter.repos).0)
    × ((states_for_org request database none 10).1 Meter.repos
        ≡ record (state_for_org request database none 10 Meter.repos).1 { resets_at = none })
states_for_org-state_for_org_example =
    states_for_org-state_for_org request database none 10 Meter.repos

paying-IsConsistent : IsConsistent paying
paying-IsConsistent = record {
  window_open = λ c. cc;
  window_clear = λ _. refl;
  deadline = refl;
  cancelling = refl;
  ended = refl;
}

abbrev life : List (ℕ × BillingEvent)
life =
    (150, BillingEvent.payment_failed)
    ∷ (150, BillingEvent.payment_failed)
    ∷ (180, BillingEvent.cancel_requested)
    ∷ (190, BillingEvent.payment_succeeded)
    ∷ (200, BillingEvent.period_ended)
    ∷ []

transitions-new_example : IsConsistent (transitions engine 7 (new_subscription 8 ada) life)
transitions-new_example = transitions-new engine 7 8 ada life

life_ends :
    (transitions engine 7 (new_subscription 8 ada) life).status ≡ SubscriptionStatus.canceled
unfolding transitions transition_row try_advance first_target billing_machine
    SubscriptionStatus-discrete
life_ends = refl

transition_row-past_due_example :
    ((transition_row engine 160 7 paying BillingEvent.payment_failed).0.past_due_since ≡ some 160)
    × ((transition_row engine 160 7 paying BillingEvent.payment_failed).0.grace_expires_at
        ≡ some (160 + 7 * day_us))
    × ((transition_row engine 160 7 paying BillingEvent.payment_failed).0.dunning_stage ≡ 0)
unfolding transition_row try_advance first_target billing_machine SubscriptionStatus-discrete
transition_row-past_due_example =
    transition_row-past_due engine 160 7 paying BillingEvent.payment_failed paying-IsConsistent
      (λ e. cc) refl

abbrev failed_payment : Session × BillingSubscription × Bool
unfolding transition
failed_payment = transition engine 160 7 database paying BillingEvent.payment_failed

transition_twice_example :
    transition engine 170 7 failed_payment.0 failed_payment.1 BillingEvent.payment_failed
    ≡ (failed_payment.0, failed_payment.1, false)
unfolding failed_payment transition
transition_twice_example =
    transition_twice engine 160 170 7 database paying BillingEvent.payment_failed (λ e. cc)

transition_row-effective_tier_example :
    effective_tier (some (transition_row engine 160 7 paying BillingEvent.payment_failed).0)
    ≡ UserTier.pro
unfolding entitled_statuses
transition_row-effective_tier_example =
    transition_row-effective_tier engine 160 7 paying BillingEvent.payment_failed refl (λ e. cc)
      (λ e. cc) (λ e. cc)

mem-billing_owner_org_ids_example :
    Memᴰ 10 (billing_owner_org_ids database 2) ↔ (is_user 2 (org_billing_owner database 10) ≡ true)
mem-billing_owner_org_ids_example = mem-billing_owner_org_ids database 2 10

period_usage-record_for_org_example :
    period_usage (record_for_org 150 database ten).0 1 UsageMeter.analyses (some 100) (some 200)
    ≡ 10000
unfolding period_usage org_billing_owner find_user
period_usage-record_for_org_example =
    period_usage-record_for_org 150 database ten 1 UsageMeter.analyses (some 100) (some 200)

-- The last instant of February 1972.
abbrev leap_day : ℕ
leap_day = 790 * day_us - 1

leap_february : month_bounds leap_day ≡ (761 * day_us, 790 * day_us)
unfolding month_bounds
leap_february = refl

-- Another request inserts Bob's row first.
abbrev others : BillingSubscription
others = record paying { id = 9; user_id = 2 }

abbrev created : Session × BillingSubscription
unfolding get_or_create_subscription
created = get_or_create_subscription (some others) 8 database bob
