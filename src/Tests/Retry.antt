-- ===== src/Tests/Retry.antt =====
-- The retry pass at concrete inputs.
use greensecops.Common.{
  arith, ℕ, ◌≡◌, refl, List, [], ◌∷◌, Option, none, some, Text, codes, Memᴰ, first, filter,
  is_empty_text, arith, text_eq,
}
use greensecops.StateMachines.Scan.{ScanStatus}
use greensecops.Events.Store.{Repository}
use greensecops.Webhooks.Payload.{SlotReply, fresh, may_go_on}
use greensecops.Maintenance.{ScanFailureKind}
use greensecops.Maintenance.Retry.{
  attempts, is_transient_failure, WorkflowScan, rerun, retry_transient_analyses, retry_cutoff,
  retry_branch,
}
use greensecops.Maintenance.Retrying.{Retryable, times, retried}
use greensecops.Tests.Hub.{repository}

abbrev row : ℕ → ScanStatus → Option ScanFailureKind → WorkflowScan
row id status kind = record {
  id = id;
  repo_id = 1;
  workflow_file_id = some 4;
  content_hash = 77;
  status = status;
  branch = none;
  failure_kind = kind;
  completed_at = some 5;
}

abbrev failure : WorkflowScan
failure = row 1 ScanStatus.failed (some ScanFailureKind.transient)

abbrev one_repository : List Repository
one_repository = repository ∷ []

abbrev free : ℕ → Text → SlotReply
free repo_id branch = fresh

-- Two failures of one branch queue it once, uncharged.
once :
    (retry_transient_analyses free 9 one_repository (failure ∷ failure ∷ [])).queued
    ≡ rerun 1 (codes "main") ∷ []
unfolding retry_transient_analyses first filter text_eq is_empty_text
once = refl

-- The third failure of the same contents ends it.
ended :
    (retry_transient_analyses free 9 one_repository (failure ∷ failure ∷ failure ∷ [])).queued ≡ []
unfolding retry_transient_analyses first filter text_eq is_empty_text
ended = refl

-- A failure whose contents were analysed since is run again all the same.
run_again :
    (retry_transient_analyses free 9 one_repository
      (failure ∷ row 2 ScanStatus.completed none ∷ [])).queued
    ≡ rerun 1 (codes "main") ∷ []
unfolding retry_transient_analyses first filter text_eq is_empty_text
run_again = refl

retryable : Retryable (retry_cutoff 9) one_repository (failure ∷ []) failure repository
unfolding first is_transient_failure retry_cutoff attempts filter
retryable = record {
  stored = Memᴰ.head refl;
  found = refl;
  failed = refl;
  recent = refl;
  few = omega arith;
}

retried_example :
    times repository.id
      (retry_branch failure repository)
      (retry_transient_analyses free 9 one_repository (failure ∷ [])).queued
    ≡ 1
unfolding may_go_on
retried_example = retried free 9 one_repository (failure ∷ []) failure repository retryable refl
