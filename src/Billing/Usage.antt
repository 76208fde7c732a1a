-- ===== src/Billing/Usage.antt =====
-- backend/app/services/billing/usage.py. `now` is the clock's answer for `occurred_at`'s default.
-- A commit and a flush differ only in what other transactions see, which the model leaves out.
pub mod Ledger
pub mod Capacity
pub mod Breakdown
use Prim.Native.String.{String}
use greensecops.Common.{
  ℕ, ◌+◌, Bool, true, false, ◌&&◌, ◌||◌, List, [], ◌∷◌, ◌++◌, Option, none, some, if◌then◌else◌,
  ◌==◌, ltb, leb, any,
}
use greensecops.Billing.Store.{
  UsageMeter, UsageEngine, User, RepositoryRow, BillingUsageRecord, Session,
}
use greensecops.Billing.Owner.{org_billing_owner, billing_owner_org_ids}

-- The keyword arguments of `record_for_org`.
pub record Charge : Type 0 where
  pub org_id : ℕ
  pub meter : UsageMeter
  pub engine : UsageEngine
  pub source_type : String
  pub source_id : Option ℕ
  pub repo_id : Option ℕ
  pub quantity : ℕ

abbrev or_now : ℕ → Option ℕ → ℕ
or_now now none = now
or_now now (some t) = t

unfoldable pub record_usage : ℕ → Session → ℕ → Charge → Option ℕ → Session × BillingUsageRecord
record_usage now session user_id charge occurred_at =
    let entry : BillingUsageRecord = record {
      user_id = user_id;
      org_id = charge.org_id;
      repo_id = charge.repo_id;
      meter = charge.meter;
      engine = charge.engine;
      quantity = charge.quantity;
      source_type = charge.source_type;
      source_id = charge.source_id;
      occurred_at = or_now now occurred_at;
    } in
    (record session { usage_records = session.usage_records ++ entry ∷ [] }, entry)

record_for : ℕ → Session → Charge → Option User → Session × Option BillingUsageRecord
unfolding record_usage
record_for now session charge none = (session, none)
record_for now session charge (some owner) =
    let (after, entry) = record_usage now session owner.id charge none in (after, some entry)

unfoldable pub record_for_org : ℕ → Session → Charge → Session × Option BillingUsageRecord
unfolding record_for
record_for_org now session charge =
    record_for now session charge (org_billing_owner session charge.org_id)

unfoldable pub record_for_repo :
    ℕ
    → Session
    → RepositoryRow
    → UsageMeter
    → UsageEngine
    → String
    → Option ℕ
    → ℕ
    → Session × Option BillingUsageRecord
unfolding record_for_org
record_for_repo now session repo meter engine source_type source_id quantity =
    record_for_org now session (record {
      org_id = repo.org_id;
      meter = meter;
      engine = engine;
      source_type = source_type;
      source_id = source_id;
      repo_id = some repo.id;
      quantity = quantity;
    })

abbrev pub same_meter : UsageMeter → UsageMeter → Bool
same_meter UsageMeter.analyses UsageMeter.analyses = true
same_meter UsageMeter.fixes UsageMeter.fixes = true
same_meter _ _ = false

-- An open-ended bound is not applied.
abbrev pub from_start : Option ℕ → ℕ → Bool
from_start none t = true
from_start (some s) t = leb s t

abbrev pub before_end : Option ℕ → ℕ → Bool
before_end none t = true
before_end (some e) t = ltb t e

-- The `where` clauses of the sum.
unfoldable pub counts : ℕ → UsageMeter → Option ℕ → Option ℕ → BillingUsageRecord → Bool
counts user_id meter period_start period_end r =
    r.user_id == user_id
    && same_meter r.meter meter
    && from_start period_start r.occurred_at
    && before_end period_end r.occurred_at

unfoldable pub sum_quantity : (BillingUsageRecord → Bool) → List BillingUsageRecord → ℕ
sum_quantity p [] = 0
sum_quantity p (r ∷ rs) = let rest = sum_quantity p rs in if p r then r.quantity + rest else rest

unfoldable pub period_usage : Session → ℕ → UsageMeter → Option ℕ → Option ℕ → ℕ
unfolding sum_quantity counts
period_usage session user_id meter period_start period_end =
    sum_quantity (counts user_id meter period_start period_end) session.usage_records

-- The `where` clauses of the query for repositories.
unfoldable pub counts_repo : List ℕ → RepositoryRow → Bool
counts_repo org_ids r = any (λ o. o == r.org_id) org_ids && r.enabled

unfoldable pub repo_ids_in : List ℕ → List RepositoryRow → List ℕ
unfolding counts_repo
repo_ids_in org_ids [] = []
repo_ids_in org_ids (r ∷ rs) =
    let rest = repo_ids_in org_ids rs in if counts_repo org_ids r then r.id ∷ rest else rest

abbrev pub enabled_in : List ℕ → List RepositoryRow → List ℕ
enabled_in [] repos = []
enabled_in (o ∷ os) repos = repo_ids_in (o ∷ os) repos

unfoldable pub enabled_repo_ids : Session → ℕ → List ℕ
unfolding repo_ids_in
enabled_repo_ids session user_id =
    enabled_in (billing_owner_org_ids session user_id) session.repositories
