-- ===== src/Events/Store.antt =====
-- backend/app/models/db/repository.py, pull_request.py, workflow_fix.py, workflow_finding.py and organization.py, as
-- far as events read and write them, the tasks that events queue and the events they announce. Ids, instants and commits are numbers; what the source
-- parses or cuts is text. A finding carries the repository of its analysis. The object that a
-- handler is given stands for the row of its id, and a write to it is a write to that row.
use greensecops.Common.{
  ℕ, refl, Bool, List, ◌++◌, Option, none, some, ◌==◌, false, update, first, Text,
}
use greensecops.StateMachines.Base.{Column, value, Field, Engine}
use greensecops.StateMachines.Signals.{SseSignal}
use greensecops.StateMachines.Fix.{FixStatus, FixStatus-discrete}
use greensecops.StateMachines.PullRequest.{PullRequestState, PullRequestState-discrete}
use greensecops.StateMachines.Repository.{AccessRow, RepositoryStatus-discrete}
use greensecops.WorkflowSync.{FindingResolutionReason}
use greensecops.Events.Enums.{ScanTrigger, CiStatus, ReviewDecision}

pub record Organization : Type 0 where
  pub id : ℕ
  pub github_org_id : Option ℕ
  pub name : Text
  pub installation_id : Option ℕ

pub record Repository : Type 0 where
  pub id : ℕ
  pub org_id : ℕ
  pub github_repo_id : ℕ
  pub installation_id : Option ℕ
  pub full_name : Text
  pub default_branch : Text
  pub enabled : Bool
  pub is_external : Bool
  pub access : AccessRow
  pub last_polled_head_sha : Option ℕ
  pub last_polled_at : Option ℕ

pub record PullRequest : Type 0 where
  pub id : ℕ
  pub repo_id : ℕ
  pub pr_branch : Text
  pub pr_url : Option Text
  pub pr_state : Column PullRequestState
  pub ci_status : Option CiStatus
  pub review_decision : Option ReviewDecision
  pub mergeable_state : Option Text
  pub externally_modified : Bool
  pub head_sha : Option ℕ
  pub last_polled_comment_at : Option ℕ
  pub updated_at : Option ℕ

pub record WorkflowFix : Type 0 where
  pub id : ℕ
  pub workflow_file_id : ℕ
  pub pr_id : Option ℕ
  pub status : FixStatus

pub record WorkflowFinding : Type 0 where
  pub id : ℕ
  pub repo_id : ℕ
  pub workflow_file_id : ℕ
  pub fix_id : Option ℕ
  pub fingerprint : Text
  pub resolved_at : Option ℕ
  pub resolution_reason : Option FindingResolutionReason
  pub ignored_at : Option ℕ

pub record WorkflowFile : Type 0 where
  pub id : ℕ
  pub repo_id : ℕ
  pub branch : Text

-- A `TerraformRoot`, an `AnsibleProject` or a `DockerTarget`.
pub record ScanTarget : Type 0 where
  pub id : ℕ
  pub repo_id : ℕ
  pub enabled : Bool
  pub root_path : Text

-- The `.delay` calls.
pub data Task : Type 0 where
  run_static_analysis :
      (repo_id : ℕ) (branch : Text) (commit_sha : Option ℕ) (trigger : ScanTrigger) (force : Bool)
      → Task
  run_terraform_scan run_ansible_scan run_docker_scan :
      (target_id : ℕ) (branch : Text) (commit_sha : Option ℕ) (trigger : ScanTrigger) → Task
  refresh_pr_mergeable_state : (repo_id : ℕ) → Task
  sync_installation_repositories : (installation_id org_id : ℕ) → Task
  poll_repository : (repo_id countdown : ℕ) → Task

pub data Event : Type 0 where
  analysis_queued : (org_id repo_id : ℕ) (branch : Text) (trigger : ScanTrigger) → Event
  fix_landed fix_rejected : (org_id repo_id fix_id : ℕ) → Event
  pr_closed : (org_id repo_id fix_id : ℕ) (pr_url : Option Text) (merged : Bool) → Event
  pr_opened pr_updated :
      (org_id repo_id : ℕ) (fix_ids : List ℕ) (pr_url : Option Text) (pr_branch : Text) → Event
  repository_status_changed : (org_id : ℕ) (repo_ids : List ℕ) (signal : SseSignal) → Event
  repository_disabled : (org_id : ℕ) (repo_ids : List ℕ) → Event
  installation_deleted installation_suspended : (org_id installation_id repo_count : ℕ) → Event
  installation_created installation_unsuspended installation_updated :
      (org_id installation_id : ℕ) (org_name : Text) → Event

pub record World : Type 0 where
  pub organizations : List Organization
  pub repositories : List Repository
  pub pull_requests : List PullRequest
  pub fixes : List WorkflowFix
  pub findings : List WorkflowFinding
  pub files : List WorkflowFile
  pub terraform_roots : List ScanTarget
  pub ansible_projects : List ScanTarget
  pub docker_targets : List ScanTarget
  pub queued : List Task
  pub published : List Event

-- The engines of the three machines.
pub record Machines : Type 0 where
  pub on_fix : Engine FixStatus-discrete
  pub on_pull_request : Engine PullRequestState-discrete
  pub on_repository : Engine RepositoryStatus-discrete

abbrev pub pr_state_field : Field PullRequest PullRequestState
pr_state_field = record {
  get = λ pr. pr.pr_state;
  set = λ s pr. record pr { pr_state = value s };
  get-set = λ s pr. refl;
}

abbrev pub fix_status_field : Field WorkflowFix FixStatus
fix_status_field = record {
  get = λ fix. value fix.status;
  set = λ s fix. record fix { status = s };
  get-set = λ s fix. refl;
}

-- A comparison with a nullable column.
unfoldable pub is_number : Option ℕ → ℕ → Bool
is_number none n = false
is_number (some m) n = m == n

unfoldable pub enqueue : List Task → World → World
enqueue tasks w = record w { queued = w.queued ++ tasks }

unfoldable pub announce : List Event → World → World
announce events w = record w { published = w.published ++ events }

-- `session.add(pr)` and the commit behind it.
unfoldable pub save_pull_request : PullRequest → World → World
save_pull_request pr w = record w {
  pull_requests = update (λ row. row.id == pr.id) (λ _. pr) w.pull_requests;
}

unfoldable pub save_repository : Repository → World → World
save_repository repo w = record w {
  repositories = update (λ row. row.id == repo.id) (λ _. repo) w.repositories;
}

-- `session.get(Repository, id)`.
unfoldable pub get_repository : ℕ → World → Option Repository
get_repository id w = first (λ repo. repo.id == id) w.repositories
