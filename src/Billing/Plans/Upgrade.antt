-- ===== src/Billing/Plans/Upgrade.antt =====
-- The plan that a quota error advises.
use greensecops.Common.{ℕ, ◌≤◌, ◌<◌, ◌≡◌, true, Option, none, some, arith}
use greensecops.Billing.Plans.{
  UserTier, free, Meter, analyses, get, Plan, is_purchasable, plans, limits_for, next_tier_above,
}

-- A limit is above another; `none` is unlimited.
abbrev pub IsAbove : Option ℕ → Option ℕ → Type 0
IsAbove none _ = ⊥
IsAbove (some current) none = Unit
IsAbove (some current) (some candidate) = current < candidate

-- The advised plan can be bought, raises the meter above the tier's cap, and no other plan that can
-- be bought and raises it costs less.
pub next_tier_above-some :
    (tier : UserTier) (meter : Meter) (plan : Plan)
    → next_tier_above tier meter ≡ some plan
    → (is_purchasable plan ≡ true)
      × IsAbove (get (limits_for (some tier)) meter) (get plan.limits meter)
      × ((other : UserTier)
          → is_purchasable (plans other) ≡ true
          → IsAbove (get (limits_for (some tier)) meter) (get (plans other).limits meter)
          → plan.price_cents ≤ (plans other).price_cents)
unfolding next_tier_above
next_tier_above-some free analyses plan h =
    (ground arith, ground arith, λ other buyable above. ground arith)
next_tier_above-some _ _ plan h = (ground arith, ground arith, λ other buyable above. ground arith)

-- No plan is advised only where none that can be bought raises the meter.
pub next_tier_above-none :
    (tier other : UserTier) (meter : Meter)
    → next_tier_above tier meter ≡ none
    → is_purchasable (plans other) ≡ true
    → ¬ IsAbove (get (limits_for (some tier)) meter) (get (plans other).limits meter)
unfolding next_tier_above
next_tier_above-none free free analyses h p a = ground arith
next_tier_above-none _ _ _ h p a = ground arith
