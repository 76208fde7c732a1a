-- ===== src/Webhooks/Branches.antt =====
-- backend/app/api/routes/webhooks.py: `delete` events.
use greensecops.Common.{
  ℕ, Bool, true, false, List, [], ◌∷◌, Option, none, some, ◌==◌, ◌&&◌, filter, update,
  if◌then◌else◌, Text, codes, text_eq, is_empty_text,
}
use greensecops.StateMachines.Base.{Column, value}
use greensecops.StateMachines.Fix.{FixEvent}
use greensecops.StateMachines.PullRequest.{PullRequestState, merged, closed, close}
use greensecops.WorkflowSync.{FindingResolutionReason}
use greensecops.Events.Store.{Repository, PullRequest, WorkflowFile, World, Machines}
use greensecops.Events.Scans.{is_own_branch}
use greensecops.Events.Lifecycle.{is_open, resolve_as, advance_row, handle_pull_request_lifecycle}
use greensecops.Webhooks.Payload.{Payload, find_repository, find_pr_of_branch}

-- `pr_state in (closed, merged)`.
unfoldable pub has_ended : Column PullRequestState → Bool
has_ended (value closed) = true
has_ended (value merged) = true
has_ended _ = false

unfoldable pub is_file_of : Repository → Text → WorkflowFile → Bool
is_file_of repo branch file = file.repo_id == repo.id && text_eq file.branch branch

module _ (machines : Machines) (now : ℕ) where
  unfoldable pub close_pr_of : Option PullRequest → World → World
  unfolding handle_pull_request_lifecycle
  close_pr_of none w = w
  close_pr_of (some pr) w =
      if has_ended pr.pr_state then w else (handle_pull_request_lifecycle machines now close pr w).1

  -- One round of the loop over the branch's files: their open findings, and their fix.
  unfoldable pub delete_file : WorkflowFile → World → World
  unfolding is_open resolve_as advance_row
  delete_file file w = record w {
    findings =
        update (λ finding. finding.workflow_file_id == file.id && is_open finding)
          (resolve_as FindingResolutionReason.branch_deleted now) w.findings;
    fixes =
        update (λ fix. fix.workflow_file_id == file.id)
          (λ fix. (advance_row machines FixEvent.supersede_deleted_file fix).0) w.fixes;
  }

  unfoldable pub delete_files : List WorkflowFile → World → World
  unfolding delete_file
  delete_files [] w = w
  delete_files (file ∷ files) w = delete_files files (delete_file file w)

  unfoldable pub delete_branch : Option Repository → Text → World → World
  delete_branch none branch w = w
  delete_branch (some repo) branch w =
      if text_eq branch repo.default_branch
      then w
      else if is_own_branch branch
      then close_pr_of (find_pr_of_branch repo branch w) w
      else delete_files (filter (is_file_of repo branch) w.files) w

  unfoldable pub handle_delete_event : Payload → World → World
  unfolding delete_branch
  handle_delete_event payload w =
      if text_eq payload.ref_type (codes "branch")
      then if is_empty_text payload.ref
        then w
        else delete_branch (find_repository payload.repository_id w) payload.ref w
      else w
