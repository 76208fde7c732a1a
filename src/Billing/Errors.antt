-- ===== src/Billing/Errors.antt =====
-- backend/app/services/billing/errors.py: the fields of the two refusals that billing raises. Of the
-- sentence of a quota error the model keeps which of the headlines it takes and which plan it advises.
use Prim.Native.String.{String}
use greensecops.Common.{ℕ, ◌-◌, Option, none, some, if◌then◌else◌, ◌==◌}
use greensecops.Billing.Plans.{UserTier, Meter, repos, Plan, get_plan, next_tier_above}
use greensecops.Billing.Store.{UsageEngine}

-- "You've enabled all …", "You've used all …", "This request needs …".
pub data Headline : Type 0 where
  enabled_all used_all needs_more : Headline

pub record QuotaExceeded : Type 0 where
  pub meter : Meter
  pub engine : Option UsageEngine
  pub tier : UserTier
  pub plan : Plan
  pub limit : ℕ
  pub used : ℕ
  pub requested : ℕ
  pub remaining : ℕ
  pub resets_at : Option ℕ
  pub headline : Headline
  pub upgrade : Option Plan

pub record FeatureNotInPlan : Type 0 where
  pub feature : String
  pub tier : UserTier
  pub plan : Plan
  pub required_plan_name : String

-- HTTP 402 with either detail.
pub data BillingError : Type 0 where
  quota_exceeded_error : QuotaExceeded → BillingError
  feature_not_in_plan_error : FeatureNotInPlan → BillingError

abbrev pub spent_headline : Meter → Headline
spent_headline repos = enabled_all
spent_headline _ = used_all

-- A slot for a repository is no consumption, and has no reset date.
abbrev pub reset_date : Meter → Option ℕ → Option ℕ
reset_date repos resets_at = none
reset_date _ resets_at = resets_at

unfoldable pub quota_exceeded :
    Meter → UserTier → ℕ → ℕ → ℕ → Option ℕ → Option UsageEngine → QuotaExceeded
unfolding get_plan
quota_exceeded meter tier limit used requested resets_at engine = record {
  meter = meter;
  engine = engine;
  tier = tier;
  plan = get_plan (some tier);
  limit = limit;
  used = used;
  requested = requested;
  remaining = limit - used;
  resets_at = reset_date meter resets_at;
  headline = if limit - used == 0 then spent_headline meter else needs_more;
  upgrade = next_tier_above tier meter;
}

unfoldable pub feature_not_in_plan : String → UserTier → String → FeatureNotInPlan
unfolding get_plan
feature_not_in_plan feature tier required_plan_name = record {
  feature = feature;
  tier = tier;
  plan = get_plan (some tier);
  required_plan_name = required_plan_name;
}
