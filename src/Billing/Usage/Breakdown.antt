-- ===== src/Billing/Usage/Breakdown.antt =====
-- `period_breakdown` of backend/app/services/billing/usage.py: the usage of a period by meter and
-- engine. PostgreSQL leaves the order of equal totals open; here they keep that of the ledger.
use greensecops.Common.{
  All, All-imp, Bool, Bool-cases, List, Option, [], arith, false, if◌then◌else◌, inl, inr, leb,
  leb→le, refl, true, ℕ, ◌&&◌, ◌+◌, ◌==◌, ◌∙◌, ◌∷◌, ◌≡◌, ◌≤◌,
}
use greensecops.Billing.Store.{BillingUsageRecord, Session, UsageEngine, UsageMeter}
use greensecops.Billing.Usage.{
  before_end, counts, from_start, period_usage, same_meter, sum_quantity,
}

pub record Spending : Type 0 where
  pub meter : UsageMeter
  pub engine : UsageEngine
  pub total : ℕ

abbrev pub same_engine : UsageEngine → UsageEngine → Bool
same_engine UsageEngine.workflow UsageEngine.workflow = true
same_engine UsageEngine.terraform UsageEngine.terraform = true
same_engine UsageEngine.ansible UsageEngine.ansible = true
same_engine UsageEngine.docker UsageEngine.docker = true
same_engine UsageEngine.cloud UsageEngine.cloud = true
same_engine UsageEngine.telemetry UsageEngine.telemetry = true
same_engine UsageEngine.carryover UsageEngine.carryover = true
same_engine _ _ = false

-- The query's `where` clauses.
unfoldable pub in_period : ℕ → Option ℕ → Option ℕ → BillingUsageRecord → Bool
in_period user_id period_start period_end r =
    r.user_id == user_id
    && from_start period_start r.occurred_at
    && before_end period_end r.occurred_at

-- A record in its group.
unfoldable pub add_spending : BillingUsageRecord → List Spending → List Spending
add_spending r [] = record { meter = r.meter; engine = r.engine; total = r.quantity } ∷ []
add_spending r (g ∷ gs) =
    if same_meter g.meter r.meter && same_engine g.engine r.engine
    then record g { total = g.total + r.quantity } ∷ gs
    else g ∷ add_spending r gs

-- `GROUP BY`.
unfoldable pub group_spending :
    (BillingUsageRecord → Bool) → List BillingUsageRecord → List Spending
unfolding add_spending
group_spending p [] = []
group_spending p (r ∷ rs) =
    let rest = group_spending p rs in if p r then add_spending r rest else rest

unfoldable pub insert_spending : Spending → List Spending → List Spending
insert_spending g [] = g ∷ []
insert_spending g (h ∷ hs) = if leb h.total g.total then g ∷ h ∷ hs else h ∷ insert_spending g hs

-- `ORDER BY total DESC`.
unfoldable pub sort_spending : List Spending → List Spending
unfolding insert_spending
sort_spending [] = []
sort_spending (g ∷ gs) = insert_spending g (sort_spending gs)

unfoldable pub period_breakdown : Session → ℕ → Option ℕ → Option ℕ → List Spending
unfolding group_spending sort_spending in_period
period_breakdown session user_id period_start period_end =
    sort_spending (group_spending (in_period user_id period_start period_end) session.usage_records)

-- The totals of a meter together.
unfoldable pub total_of : UsageMeter → List Spending → ℕ
total_of meter [] = 0
total_of meter (g ∷ gs) =
    let rest = total_of meter gs in if same_meter g.meter meter then g.total + rest else rest

total_of-add :
    (meter : UsageMeter) (r : BillingUsageRecord) (gs : List Spending)
    → total_of meter (add_spending r gs)
      ≡ total_of meter gs + (if same_meter r.meter meter then r.quantity else 0)
unfolding total_of add_spending
total_of-add meter r [] = ground arith
total_of-add meter r (g ∷ gs) = ground (arith, total_of-add meter r gs, meets g.meter r.meter meter)
  where
    meets : (a b m : UsageMeter) → same_meter a b ≡ true → same_meter a m ≡ same_meter b m
    meets a b m h = ground arith

total_of-insert :
    (meter : UsageMeter) (g : Spending) (gs : List Spending)
    → total_of meter (insert_spending g gs) ≡ total_of meter (g ∷ gs)
unfolding total_of insert_spending
total_of-insert meter g [] = refl
total_of-insert meter g (h ∷ hs) = ground (arith, total_of-insert meter g hs)

total_of-sort :
    (meter : UsageMeter) (gs : List Spending)
    → total_of meter (sort_spending gs) ≡ total_of meter gs
unfolding total_of sort_spending
total_of-sort meter [] = refl
total_of-sort meter (g ∷ gs) =
    total_of-insert meter g (sort_spending gs) ∙ ground (arith, total_of-sort meter gs)

counts-in_period :
    (user_id : ℕ) (meter : UsageMeter) (period_start period_end : Option ℕ) (r : BillingUsageRecord)
    → counts user_id meter period_start period_end r
      ≡ (in_period user_id period_start period_end r && same_meter r.meter meter)
unfolding counts in_period
counts-in_period user_id meter period_start period_end r = ground arith

total_of-group :
    (user_id : ℕ) (meter : UsageMeter) (period_start period_end : Option ℕ)
    (rs : List BillingUsageRecord)
    → total_of meter (group_spending (in_period user_id period_start period_end) rs)
      ≡ sum_quantity (counts user_id meter period_start period_end) rs
unfolding group_spending sum_quantity total_of
total_of-group user_id meter period_start period_end [] = refl
total_of-group user_id meter period_start period_end (r ∷ rs) =
    let ih = total_of-group user_id meter period_start period_end rs in
    let split = counts-in_period user_id meter period_start period_end r in
    elim (Bool-cases (in_period user_id period_start period_end r)) [
      | inl inside ↦
          rw (split, inside)
            (total_of-add meter r (group_spending (in_period user_id period_start period_end) rs)
              ∙ ground (arith, ih))
      | inr outside ↦ rw (split, outside) ih
    ]

-- The biggest spender comes first.
abbrev pub IsDescending : List Spending → Type 0
IsDescending [] = Unit
IsDescending (g ∷ gs) = All (λ h. h.total ≤ g.total) gs × IsDescending gs

insert_spending-All :
    (bound : ℕ) (g : Spending) (gs : List Spending)
    → g.total ≤ bound
    → All (λ h. h.total ≤ bound) gs
    → All (λ h. h.total ≤ bound) (insert_spending g gs)
unfolding insert_spending
insert_spending-All bound g [] b a = (b, tt)
insert_spending-All bound g (h ∷ hs) b (now, later) = elim (Bool-cases (leb h.total g.total)) [
  | inl le ↦ rw le (b, (now, later))
  | inr gt ↦ rw gt (now, insert_spending-All bound g hs b later)
]

insert_spending-IsDescending :
    (g : Spending) (gs : List Spending) → IsDescending gs → IsDescending (insert_spending g gs)
unfolding insert_spending
insert_spending-IsDescending g [] d = (tt, tt)
insert_spending-IsDescending g (h ∷ hs) (top, d) = elim (Bool-cases (leb h.total g.total)) [
  | inl le ↦
      let b : h.total ≤ g.total = leb→le h.total g.total le in
      rw le (
        (
          b,
          All-imp (λ x. x.total ≤ h.total) (λ x. x.total ≤ g.total) hs (λ x k. omega (arith, k, b))
              top,
        ),
        (top, d),
      )
  | inr gt ↦
      rw gt
        (insert_spending-All h.total g hs (ground arith) top, insert_spending-IsDescending g hs d)
]

sort_spending-IsDescending : (gs : List Spending) → IsDescending (sort_spending gs)
unfolding sort_spending
sort_spending-IsDescending [] = tt
sort_spending-IsDescending (g ∷ gs) =
    insert_spending-IsDescending g (sort_spending gs) (sort_spending-IsDescending gs)

-- The breakdown of a period accounts for all of its usage: the totals of each meter add up to the
-- meter's usage of the period, and no later total is above an earlier one.
pub period_breakdown_lem :
    (session : Session) (user_id : ℕ) (meter : UsageMeter) (period_start period_end : Option ℕ)
    → let spendings = period_breakdown session user_id period_start period_end in
      (total_of meter spendings ≡ period_usage session user_id meter period_start period_end)
      × IsDescending spendings
unfolding period_breakdown period_usage
period_breakdown_lem session user_id meter period_start period_end = (
  total_of-sort meter
        (group_spending (in_period user_id period_start period_end) session.usage_records)
      ∙ total_of-group user_id meter period_start period_end session.usage_records,
  sort_spending-IsDescending
      (group_spending (in_period user_id period_start period_end) session.usage_records),
)
