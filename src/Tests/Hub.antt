-- ===== src/Tests/Hub.antt =====
-- A repository with a fix pull request, and the surroundings that the examples of events share.
use greensecops.Common.{ℕ, true, false, Option, none, some, [], ◌∷◌, Text, codes}
use greensecops.StateMachines.Base.{value}
use greensecops.StateMachines.Fix.{FixStatus, FixStatus-discrete}
use greensecops.StateMachines.PullRequest.{PullRequestState, PullRequestState-discrete}
use greensecops.StateMachines.Repository.{active, RepositoryStatus-discrete}
use greensecops.Events.Store.{
  Repository, PullRequest, WorkflowFix, WorkflowFinding, ScanTarget, World, Machines,
}
use greensecops.Webhooks.Payload.{Payload, fresh}
use greensecops.Webhooks.Dispatch.{WebhookSettings, Surroundings}
use greensecops.Tests.Samples.{first_engine}

abbrev pub machines : Machines
machines = record {
  on_fix = first_engine FixStatus-discrete;
  on_pull_request = first_engine PullRequestState-discrete;
  on_repository = first_engine RepositoryStatus-discrete;
}

abbrev pub repository : Repository
repository = record {
  id = 1;
  org_id = 10;
  github_repo_id = 500;
  installation_id = some 70;
  full_name = codes "ada/site";
  default_branch = codes "main";
  enabled = true;
  is_external = false;
  access = record { status = value active; is_accessible = true };
  last_polled_head_sha = some 90;
  last_polled_at = none;
}

abbrev pub fix_branch : Text
fix_branch = codes "greensecops/fix-1"

abbrev pub pull_url : Text
pull_url = codes "https://github.com/ada/site/pull/7"

abbrev pub pull_request : PullRequest
pull_request = record {
  id = 2;
  repo_id = 1;
  pr_branch = fix_branch;
  pr_url = some pull_url;
  pr_state = value PullRequestState.opened;
  ci_status = none;
  review_decision = none;
  mergeable_state = none;
  externally_modified = false;
  head_sha = some 91;
  last_polled_comment_at = none;
  updated_at = none;
}

abbrev pub fix : ℕ → Option ℕ → FixStatus → WorkflowFix
fix id pr_id status = record { id = id; workflow_file_id = id; pr_id = pr_id; status = status }

abbrev pub finding : ℕ → ℕ → Option ℕ → WorkflowFinding
finding id file_id fix_id = record {
  id = id;
  repo_id = 1;
  workflow_file_id = file_id;
  fix_id = fix_id;
  fingerprint = codes "f1";
  resolved_at = none;
  resolution_reason = none;
  ignored_at = none;
}

abbrev pub target : ℕ → Text → ScanTarget
target id root = record { id = id; repo_id = 1; enabled = true; root_path = root }

abbrev pub world : World
world = record {
  organizations = [];
  repositories = repository ∷ [];
  pull_requests = pull_request ∷ [];
  fixes =
      fix 3 (some 2) FixStatus.delivered
      ∷ fix 4 (some 2) FixStatus.rejected_by_user
      ∷ fix 5 none FixStatus.delivered
      ∷ [];
  findings = finding 6 3 (some 3) ∷ finding 7 4 (some 4) ∷ [];
  files = record { id = 3; repo_id = 1; branch = codes "topic" } ∷ [];
  terraform_roots = target 20 (codes "envs/prod") ∷ target 21 (codes "envs/stage") ∷ [];
  ansible_projects = [];
  docker_targets = target 22 [] ∷ target 23 (codes "api") ∷ [];
  queued = [];
  published = [];
}

abbrev pub payload : Payload
payload = record {
  action = codes "closed";
  repository_id = some 500;
  repository_full_name = none;
  repository_default_branch = none;
  sender_login = some (codes "ada");
  ref = codes "topic";
  ref_type = codes "branch";
  before = codes "1";
  after = some 92;
  deleted = false;
  forced = false;
  commits = [];
  run_head_branch = [];
  run_head_sha = none;
  comment_body = [];
  pr_url = some pull_url;
  pr_merged = true;
  pr_mergeable_state = none;
  pr_head_ref = [];
  suite_head_branch = none;
  suite_status = [];
  suite_conclusion = none;
  review_state = [];
  installation_id = none;
  account_id = none;
  account_login = none;
  added_ids = [];
  removed_ids = [];
}

abbrev pub settings : WebhookSettings
settings = record {
  webhook_secret = codes "s";
  environment = codes "production";
  bot_handle = codes "greensecops";
}

abbrev pub surroundings : Surroundings
surroundings = record { now = 100; new_id = 99; delivery_slot = fresh; task_slot = fresh }

-- A stand-in for the HMAC.
abbrev pub digest : Text → Text → Text
digest secret bytes = secret
