-- ===== src/Tests/Samples.antt =====
-- Small inputs that the examples share.
use greensecops.Common.{ℕ, refl, true, false, [], ◌∷◌, Option, none, some}
use greensecops.StateMachines.Base.{Engine, Column, value, Field, first_target}
use greensecops.StateMachines.Billing.{active, past_due}
use greensecops.Billing.Plans.{free, pro}
use greensecops.Billing.Store.{
  OrgRole, owner, UsageMeter, UsageEngine, User, OrgMember, BillingSubscription, BillingUsageRecord,
  Session,
}
use greensecops.Billing.Usage.{Charge}
use greensecops.Billing.Quota.{Request}

-- An engine that does what the library documents.
abbrev pub first_engine : {S : Type 0} (d : Discrete S) → Engine d
first_engine d = record { send = first_target d; send_lem = λ ts s. refl }

-- A model that is its state column.
abbrev pub whole : {S : Type 0} → Field (Column S) S
whole = record { get = λ c. c; set = λ s c. value s; get-set = λ s c. refl }

abbrev pub ada : User
ada = record { id = 1; is_superuser = false; tier = pro }

abbrev pub bob : User
bob = record { id = 2; is_superuser = false; tier = free }

abbrev pub membership : ℕ → ℕ → OrgRole → Option ℕ → OrgMember
membership org user role joined = record {
  org_id = org;
  user_id = user;
  role = role;
  joined_at = joined;
}

-- Ada's subscription, for the period from 100 to 200.
abbrev pub paying : BillingSubscription
paying = record {
  id = 7;
  user_id = 1;
  tier = pro;
  status = active;
  period_start = some 100;
  period_end = some 200;
  past_due_since = none;
  grace_expires_at = none;
  dunning_stage = 0;
  quota_warning_percent = 80;
  cancel_at_period_end = false;
  canceled_at = none;
}

abbrev pub owing : BillingSubscription
owing = record paying {
  status = past_due;
  past_due_since = some 150;
  grace_expires_at = some 190;
  dunning_stage = 2;
}

abbrev pub entry : ℕ → ℕ → BillingUsageRecord
entry quantity at = record {
  user_id = 1;
  org_id = 10;
  repo_id = none;
  meter = UsageMeter.analyses;
  engine = UsageEngine.workflow;
  quantity = quantity;
  source_type = "analysis";
  source_id = none;
  occurred_at = at;
}

abbrev pub database : Session
database = record {
  users = ada ∷ bob ∷ [];
  members =
      membership 10 2 owner none
      ∷ membership 10 1 owner (some 5)
      ∷ membership 11 2 owner (some 3)
      ∷ [];
  repositories =
      record { id = 20; org_id = 10; enabled = true }
      ∷ record { id = 21; org_id = 11; enabled = true }
      ∷ [];
  subscriptions = paying ∷ [];
  usage_records = entry 9990 120 ∷ entry 40 90 ∷ [];
  pending_events = [];
}

abbrev pub request : Request
request = record { now = 150; new_id = 8; other = none }

abbrev pub ten : Charge
ten = record {
  org_id = 10;
  meter = UsageMeter.analyses;
  engine = UsageEngine.terraform;
  source_type = "terraform_scan";
  source_id = none;
  repo_id = some 20;
  quantity = 10;
}
