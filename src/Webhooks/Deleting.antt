-- ===== src/Webhooks/Deleting.antt =====
-- What the deletion of a branch does to its findings and fixes.
use greensecops.Common.{ℕ, Bool, true, List, some, ◌==◌, ◌&&◌, any, if◌then◌else◌}
use greensecops.StateMachines.Fix.{
  FixStatus, pending, generating, ready, delivering, delivered, superseded_by_deleted_file,
}
use greensecops.WorkflowSync.{FindingResolutionReason}
use greensecops.Events.Store.{WorkflowFix, WorkflowFinding, WorkflowFile}
use greensecops.Events.Landing.{is_unresolved}
use greensecops.Webhooks.Payload.{Payload}

abbrev pub withdrawn : FixStatus → FixStatus
withdrawn pending = superseded_by_deleted_file
withdrawn generating = superseded_by_deleted_file
withdrawn ready = superseded_by_deleted_file
withdrawn delivering = superseded_by_deleted_file
withdrawn delivered = superseded_by_deleted_file
withdrawn s = s

-- The rows behind the loop over some files.
abbrev pub resolved_row :
    ℕ → (WorkflowFile → Bool) → List WorkflowFile → WorkflowFinding → WorkflowFinding
resolved_row now test files finding =
    if any (λ file. test file && finding.workflow_file_id == file.id) files
      && is_unresolved finding.resolved_at
    then record finding {
      resolved_at = some now;
      resolution_reason = some FindingResolutionReason.branch_deleted;
    }
    else finding

abbrev pub withdrawn_row : (WorkflowFile → Bool) → List WorkflowFile → WorkflowFix → WorkflowFix
withdrawn_row test files fix =
    if any (λ file. test file && fix.workflow_file_id == file.id) files
    then record fix { status = withdrawn fix.status }
    else fix

abbrev all_files : WorkflowFile → Bool
all_files file = true
