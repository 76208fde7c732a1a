-- ===== src/Billing/Usage/Ledger.antt =====
-- The ledger and its sums.
use greensecops.Common.{
  inr, inl, Option-cases, ℕ, ◌+◌, ◌≤◌, ◌≡◌, refl, Bool, ◌&&◌, List, [], ◌∷◌, ◌++◌, Option, some,
  if◌then◌else◌, arith,
}
use greensecops.Billing.Store.{UsageMeter, BillingUsageRecord, Session}
use greensecops.Billing.Owner.{is_user, org_billing_owner}
use greensecops.Billing.Usage.{
  Charge, record_for_org, same_meter, from_start, before_end, counts, sum_quantity, period_usage,
}

sum_quantity-append :
    (p : BillingUsageRecord → Bool) (xs ys : List BillingUsageRecord)
    → sum_quantity p (xs ++ ys) ≡ sum_quantity p xs + sum_quantity p ys
unfolding sum_quantity
sum_quantity-append p [] ys = omega arith
sum_quantity-append p (x ∷ xs) ys = ground (arith, sum_quantity-append p xs ys)

-- A charge adds its quantity to the period usage of the organisation's billing owner, on its own
-- meter and in the periods that hold the present instant, and changes no other user's, meter's or
-- period's. Without an owner nothing is charged.
pub period_usage-record_for_org :
    (now : ℕ) (session : Session) (charge : Charge) (user_id : ℕ) (meter : UsageMeter)
    (period_start period_end : Option ℕ)
    → period_usage (record_for_org now session charge).0 user_id meter period_start period_end
      ≡ period_usage session user_id meter period_start period_end
        + (if is_user user_id (org_billing_owner session charge.org_id)
              && same_meter charge.meter meter
              && from_start period_start now
              && before_end period_end now
            then charge.quantity
            else 0)
unfolding period_usage record_for_org
period_usage-record_for_org now session charge user_id meter period_start period_end =
    elim (Option-cases (org_billing_owner session charge.org_id)) [
      | inl unpaid ↦ rw unpaid (omega arith)
      | inr (owner, paid) ↦
          rw (paid, sum_quantity-append (counts user_id meter period_start period_end))
            (ground arith)
    ]

-- Two adjacent periods share no charge and miss none: their usages add up to that of their union.
pub period_usage-split :
    (session : Session) (user_id : ℕ) (meter : UsageMeter) (a b c : ℕ)
    → a ≤ b
    → b ≤ c
    → period_usage session user_id meter (some a) (some c)
      ≡ period_usage session user_id meter (some a) (some b)
        + period_usage session user_id meter (some b) (some c)
unfolding period_usage
period_usage-split session user_id meter a b c h k = split session.usage_records
  where
    split :
        (rs : List BillingUsageRecord)
        → sum_quantity (counts user_id meter (some a) (some c)) rs
          ≡ sum_quantity (counts user_id meter (some a) (some b)) rs
            + sum_quantity (counts user_id meter (some b) (some c)) rs
    split [] = refl
    split (r ∷ rs) = ground (arith, split rs)
