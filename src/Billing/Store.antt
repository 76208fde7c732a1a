-- ===== src/Billing/Store.antt =====
-- The tables that billing reads and writes, and the session over them: backend/app/models/db/user.py,
-- organization.py, repository.py and billing.py, as far as billing uses their columns.
-- An identifier is a number, and an instant the microseconds since 1970 in UTC.
use Prim.Native.String.{String}
use greensecops.Common.{ℕ, Bool, List, [], ◌∷◌, Option, none, some, if◌then◌else◌, ◌==◌}
use greensecops.StateMachines.Billing.{SubscriptionStatus}
use greensecops.StateMachines.Signals.{SseSignal}
use greensecops.Billing.Plans.{UserTier}

pub data OrgRole : Type 0 where
  owner admin member : OrgRole

pub data UsageMeter : Type 0 where
  analyses fixes : UsageMeter

pub data UsageEngine : Type 0 where
  workflow terraform ansible docker cloud telemetry carryover : UsageEngine

pub record User : Type 0 where
  pub id : ℕ
  pub is_superuser : Bool
  pub tier : UserTier

pub record OrgMember : Type 0 where
  pub org_id : ℕ
  pub user_id : ℕ
  pub role : OrgRole
  pub joined_at : Option ℕ

pub record RepositoryRow : Type 0 where
  pub id : ℕ
  pub org_id : ℕ
  pub enabled : Bool

pub record BillingSubscription : Type 0 where
  pub id : ℕ
  pub user_id : ℕ
  pub tier : UserTier
  pub status : SubscriptionStatus
  pub period_start : Option ℕ
  pub period_end : Option ℕ
  pub past_due_since : Option ℕ
  pub grace_expires_at : Option ℕ
  pub dunning_stage : ℕ
  pub quota_warning_percent : ℕ
  pub cancel_at_period_end : Bool
  pub canceled_at : Option ℕ

pub record BillingUsageRecord : Type 0 where
  pub user_id : ℕ
  pub org_id : ℕ
  pub repo_id : Option ℕ
  pub meter : UsageMeter
  pub engine : UsageEngine
  pub quantity : ℕ
  pub source_type : String
  pub source_id : Option ℕ
  pub occurred_at : ℕ

-- `ev.subscription_changed`.
pub record SubscriptionChanged : Type 0 where
  pub org_id : ℕ
  pub signal : SseSignal
  pub tier : UserTier
  pub status : SubscriptionStatus

-- `pending_events` is what `after_commit` has queued for publication, in order.
pub record Session : Type 0 where
  pub users : List User
  pub members : List OrgMember
  pub repositories : List RepositoryRow
  pub subscriptions : List BillingSubscription
  pub usage_records : List BillingUsageRecord
  pub pending_events : List SubscriptionChanged

-- `session.get(User, user_id)`.
unfoldable pub find_user : ℕ → List User → Option User
find_user user_id [] = none
find_user user_id (u ∷ us) = if u.id == user_id then some u else find_user user_id us

abbrev pub get_user : Session → ℕ → Option User
get_user session user_id = find_user user_id session.users

-- The flush of a changed row, an UPDATE: the row of that identifier takes the object's columns.
unfoldable pub replace_subscription :
    BillingSubscription → List BillingSubscription → List BillingSubscription
replace_subscription sub [] = []
replace_subscription sub (s ∷ ss) =
    (if s.id == sub.id then sub else s) ∷ replace_subscription sub ss

unfoldable pub save_subscription : Session → BillingSubscription → Session
unfolding replace_subscription
save_subscription session sub = record session {
  subscriptions = replace_subscription sub session.subscriptions;
}

unfoldable pub replace_user : User → List User → List User
replace_user user [] = []
replace_user user (u ∷ us) = (if u.id == user.id then user else u) ∷ replace_user user us

unfoldable pub save_user : Session → User → Session
unfolding replace_user
save_user session user = record session { users = replace_user user session.users }
