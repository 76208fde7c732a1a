-- ===== src/Billing/Plans.antt =====
-- backend/app/core/plans.py, with `UserTier` of backend/app/models/enums.py.
-- A meter is one of the three names of `METERS`; prices are in cents.
pub mod Upgrade
use Prim.Native.String.{String}
use greensecops.Common.{
  ℕ, Bool, true, false, List, [], ◌∷◌, Option, none, some, if◌then◌else◌, ltb, map,
}

pub data UserTier : Type 0 where
  free starter pro ultimate open_source : UserTier

pub data Meter : Type 0 where
  analyses fixes repos : Meter

-- `none` is unlimited.
pub record PlanLimits : Type 0 where
  pub analyses_limit : Option ℕ
  pub fixes_limit : Option ℕ
  pub repos_limit : Option ℕ

unfoldable pub get : PlanLimits → Meter → Option ℕ
get limits analyses = limits.analyses_limit
get limits fixes = limits.fixes_limit
get limits repos = limits.repos_limit

pub record Plan : Type 0 where
  pub tier : UserTier
  pub name : String
  pub price_cents : ℕ
  pub tagline : String
  pub limits : PlanLimits
  pub auto_fix : Bool
  pub public_repos_only : Bool
  pub stripe_price_setting : Option String
  pub features : List String

unfoldable pub is_purchasable : Plan → Bool
is_purchasable plan = elim plan.stripe_price_setting [ none ↦ false | some _ ↦ true ]

abbrev pub limits_of : Option ℕ → Option ℕ → Option ℕ → PlanLimits
limits_of a f r = record { analyses_limit = a; fixes_limit = f; repos_limit = r }

-- `PLANS`.
unfoldable pub plans : UserTier → Plan
plans free = record {
  tier = free;
  name = "Free";
  price_cents = 0;
  tagline = "Personal projects and evaluation. No credit card required.";
  limits = limits_of (some 100) (some 10) (some 3);
  auto_fix = false;
  public_repos_only = false;
  stripe_price_setting = none;
  features = "Full five-pillar grading" ∷ "Issue breakdown & detail" ∷ "Dashboard & history" ∷ [];
}
plans starter = record {
  tier = starter;
  name = "Starter";
  price_cents = 1900;
  tagline = "Small teams and growing solo developers.";
  limits = limits_of (some 1000) (some 100) (some 20);
  auto_fix = true;
  public_repos_only = false;
  stripe_price_setting = some "STRIPE_PRICE_STARTER";
  features =
      "Automatic fix pull requests" ∷ "Pull request status checks" ∷ "Email notifications" ∷ [];
}
plans pro = record {
  tier = pro;
  name = "Pro";
  price_cents = 7900;
  tagline = "Growing teams that need higher limits and faster support.";
  limits = limits_of (some 10000) (some 1000) (some 100);
  auto_fix = true;
  public_repos_only = false;
  stripe_price_setting = some "STRIPE_PRICE_PRO";
  features =
      "Automatic fix pull requests" ∷ "Terraform, Docker & cloud scanning"
      ∷ "Priority email support" ∷ [];
}
plans ultimate = record {
  tier = ultimate;
  name = "Ultimate";
  price_cents = 29900;
  tagline = "Large organisations with unlimited need.";
  limits = limits_of none none none;
  auto_fix = true;
  public_repos_only = false;
  stripe_price_setting = some "STRIPE_PRICE_ULTIMATE";
  features =
      "Unlimited everything" ∷ "Dedicated support channel" ∷ "Custom integrations on request" ∷ [];
}
plans open_source = record {
  tier = open_source;
  name = "Open Source";
  price_cents = 0;
  tagline = "For qualifying public open-source projects. Apply with your repository link.";
  limits = limits_of (some 2000) (some 300) none;
  auto_fix = true;
  public_repos_only = true;
  stripe_price_setting = none;
  features = "Automatic fix pull requests" ∷ "OSS badge for your README" ∷ "Community support" ∷ [];
}

abbrev pub plan_order : List UserTier
plan_order = free ∷ starter ∷ pro ∷ ultimate ∷ open_source ∷ []

abbrev pub default_tier : UserTier
default_tier = free

unfoldable pub get_plan : Option UserTier → Plan
unfolding plans
get_plan none = plans default_tier
get_plan (some tier) = plans tier

unfoldable pub limits_for : Option UserTier → PlanLimits
unfolding get_plan
limits_for tier = (get_plan tier).limits

unfoldable pub ordered_plans : List Plan
unfolding plans
ordered_plans = map plans plan_order

-- Whether a candidate limit is above the current one.
abbrev pub raises : ℕ → Option ℕ → Bool
raises current none = true
raises current (some candidate) = ltb current candidate

-- The `for` loop of `next_tier_above`.
unfoldable pub first_above : Meter → ℕ → List Plan → Option Plan
unfolding is_purchasable get
first_above meter current [] = none
first_above meter current (plan ∷ rest) =
    let later = first_above meter current rest in
    if is_purchasable plan
    then (if raises current (get plan.limits meter) then some plan else later)
    else later

unfoldable pub next_tier_above : UserTier → Meter → Option Plan
unfolding limits_for first_above ordered_plans
next_tier_above tier meter = elim (get (limits_for (some tier)) meter) [
  | none ↦ none
  | some current ↦ first_above meter current ordered_plans
]
