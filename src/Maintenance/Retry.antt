-- ===== src/Maintenance/Retry.antt =====
-- backend/app/workers/tasks/maintenance.py: the hourly pass that runs again what failed transiently. Redis's
-- answer for each repository and branch is an argument; a pass asks at most once for each.
use greensecops.Common.{
  ℕ, ◌+◌, ◌-◌, ◌*◌, Bool, true, false, List, [], ◌∷◌, ◌++◌, Option, none, some, ◌==◌, ◌&&◌,
  if◌then◌else◌, leb, any, first, filter, length, Text, codes, text_eq, is_empty_text,
}
use greensecops.StateMachines.Scan.{ScanStatus}
use greensecops.Events.Enums.{ScanTrigger}
use greensecops.Events.Store.{Repository}
use greensecops.Webhooks.Payload.{SlotReply, may_go_on}
use greensecops.Maintenance.{ScanFailureKind}

pub record WorkflowScan : Type 0 where
  pub id : ℕ
  pub repo_id : ℕ
  pub workflow_file_id : Option ℕ
  pub content_hash : ℕ
  pub status : ScanStatus
  pub branch : Option Text
  pub failure_kind : Option ScanFailureKind
  pub completed_at : Option ℕ

abbrev pub max_auto_retry_attempts : ℕ
max_auto_retry_attempts = 3

-- `AUTO_RETRY_WINDOW_HOURS` before `now`.
unfoldable pub retry_cutoff : ℕ → ℕ
retry_cutoff now = now - 24 * 3600 * 1000000

abbrev pub is_failed : ScanStatus → Bool
is_failed ScanStatus.failed = true
is_failed _ = false

abbrev pub is_transient : Option ScanFailureKind → Bool
is_transient (some ScanFailureKind.transient) = true
is_transient _ = false

-- A comparison with NULL is not true.
abbrev pub is_since : ℕ → Option ℕ → Bool
is_since cutoff none = false
is_since cutoff (some t) = leb cutoff t

-- `==` with a value of Python: with None it is IS NULL.
abbrev pub is_same_file : Option ℕ → Option ℕ → Bool
is_same_file none none = true
is_same_file (some a) (some b) = a == b
is_same_file _ _ = false

unfoldable pub is_transient_failure : WorkflowScan → Bool
is_transient_failure scan = is_failed scan.status && is_transient scan.failure_kind

-- The rows that the query joins, with their repositories.
unfoldable pub candidate_of : ℕ → List Repository → WorkflowScan → List (WorkflowScan × Repository)
unfolding is_transient_failure
candidate_of cutoff repos scan =
    elim (first (λ repo. repo.id == scan.repo_id && repo.enabled) repos) [
      | none ↦ []
      | some repo ↦
          if is_transient_failure scan && is_since cutoff scan.completed_at
          then (scan, repo) ∷ []
          else []
    ]

unfoldable pub candidates :
    ℕ → List Repository → List WorkflowScan → List (WorkflowScan × Repository)
unfolding candidate_of
candidates cutoff repos [] = []
candidates cutoff repos (scan ∷ scans) =
    candidate_of cutoff repos scan ++ candidates cutoff repos scans

-- A failure of the same contents of the same file.
unfoldable pub is_attempt : WorkflowScan → WorkflowScan → Bool
unfolding is_transient_failure
is_attempt scan row =
    row.repo_id == scan.repo_id
    && is_same_file row.workflow_file_id scan.workflow_file_id
    && row.content_hash == scan.content_hash
    && is_transient_failure row

unfoldable pub attempts : List WorkflowScan → WorkflowScan → ℕ
unfolding is_attempt
attempts scans scan = length (filter (is_attempt scan) scans)

unfoldable pub is_exhausted : List WorkflowScan → WorkflowScan → Bool
unfolding attempts
is_exhausted scans scan = leb max_auto_retry_attempts (attempts scans scan)

-- `analysis.branch or repo.default_branch or "main"`.
unfoldable pub retry_branch : WorkflowScan → Repository → Text
retry_branch scan repo =
    let default = if is_empty_text repo.default_branch then codes "main" else repo.default_branch in
    elim scan.branch [
      | none ↦ default
      | some branch ↦ if is_empty_text branch then default else branch
    ]

-- A call of `run_static_analysis.delay`.
pub record Rerun : Type 0 where
  pub repo_id : ℕ
  pub branch : Text
  pub trigger : ScanTrigger
  pub force : Bool
  pub billable : Bool

abbrev pub rerun : ℕ → Text → Rerun
rerun repo_id branch = record {
  repo_id = repo_id;
  branch = branch;
  trigger = ScanTrigger.scheduled;
  force = true;
  billable = false;
}

-- What the pass has done so far.
pub record RetryPass : Type 0 where
  pub seen_targets : List (ℕ × Text)
  pub queued : List Rerun
  pub scheduled : ℕ
  pub skipped_exhausted : ℕ

unfoldable pub is_seen : ℕ → Text → List (ℕ × Text) → Bool
is_seen repo_id branch targets = any (λ t. t.0 == repo_id && text_eq t.1 branch) targets

-- A target that the pass has not seen.
unfoldable pub schedule : (ℕ → Text → SlotReply) → ℕ → Text → RetryPass → RetryPass
unfolding may_go_on
schedule slot repo_id branch pass =
    let seen = record pass { seen_targets = (repo_id, branch) ∷ pass.seen_targets } in
    if may_go_on (slot repo_id branch)
    then record seen {
      queued = pass.queued ++ (rerun repo_id branch ∷ []);
      scheduled = pass.scheduled + 1;
    }
    else seen

unfoldable pub retry_candidate :
    (ℕ → Text → SlotReply) → List WorkflowScan → WorkflowScan × Repository → RetryPass → RetryPass
unfolding schedule is_seen is_exhausted retry_branch
retry_candidate slot scans (scan, repo) pass =
    let branch = retry_branch scan repo in
    if is_exhausted scans scan
    then record pass { skipped_exhausted = pass.skipped_exhausted + 1 }
    else if is_seen repo.id branch pass.seen_targets
    then pass
    else schedule slot repo.id branch pass

unfoldable pub retry_candidates :
    (ℕ → Text → SlotReply)
    → List WorkflowScan
    → List (WorkflowScan × Repository)
    → RetryPass
    → RetryPass
unfolding retry_candidate
retry_candidates slot scans [] pass = pass
retry_candidates slot scans (candidate ∷ rest) pass =
    retry_candidates slot scans rest (retry_candidate slot scans candidate pass)

unfoldable pub retry_transient_analyses :
    (ℕ → Text → SlotReply) → ℕ → List Repository → List WorkflowScan → RetryPass
unfolding retry_candidates candidates retry_cutoff
retry_transient_analyses slot now repos scans =
    retry_candidates slot scans (candidates (retry_cutoff now) repos scans)
      (record { seen_targets = []; queued = []; scheduled = 0; skipped_exhausted = 0 })
