-- ===== src/Webhooks/PullRequests.antt =====
-- backend/app/api/routes/webhooks.py: `pull_request`, `check_suite`, `pull_request_review`, `workflow_run` and
-- `issue_comment` events.
use greensecops.Common.{
  ℕ, Bool, false, List, [], ◌∷◌, ◌++◌, Option, none, some, ◌||◌, ◌&&◌, if◌then◌else◌, Text, codes,
  text_eq, starts_with, strip,
}
use greensecops.StateMachines.Base.{value}
use greensecops.StateMachines.PullRequest.{
  opened, merge, close, reopen, convert_to_draft, mark_ready_for_review,
}
use greensecops.Events.Enums.{ReviewDecision, webhook_workflow_run}
use greensecops.Events.Store.{Repository, PullRequest, World, Machines, save_pull_request}
use greensecops.Events.Commands.{
  ci_status_from_conclusion, review_state_to_decision, parse_greensecops_command, prefix,
}
use greensecops.Events.Scans.{is_own_branch, enqueue_workflow_analysis}
use greensecops.Events.Lifecycle.{advance_pr, handle_pull_request_lifecycle}
use greensecops.Events.Attributes.{
  handle_pull_request_draft_toggle, handle_pull_request_sync, handle_ci_status,
  handle_review_decision, handle_issue_command,
}
use greensecops.Webhooks.Payload.{
  Payload, find_repository, resolve_repo_by_github_id, find_pr_of_branch, find_pr_of_url,
}

unfoldable pub or_url : Option Text → Text → Text
or_url none url = url
or_url (some old) url = old

unfoldable pub is_pull_request_action : Text → Bool
is_pull_request_action action =
    text_eq action (codes "opened")
    || text_eq action (codes "closed")
    || text_eq action (codes "reopened")
    || text_eq action (codes "synchronize")
    || text_eq action (codes "edited")
    || text_eq action (codes "converted_to_draft")
    || text_eq action (codes "ready_for_review")

module _ (machines : Machines) (now new_id : ℕ) where
  unfoldable pub new_pull_request : Repository → Text → Text → PullRequest
  new_pull_request repo branch url = record {
    id = new_id;
    repo_id = repo.id;
    pr_branch = branch;
    pr_url = some url;
    pr_state = value opened;
    ci_status = none;
    review_decision = none;
    mergeable_state = none;
    externally_modified = false;
    head_sha = none;
    last_polled_comment_at = none;
    updated_at = none;
  }

  unfoldable pub link_pull_request : Repository → Text → Text → Option PullRequest → World → World
  unfolding new_pull_request or_url advance_pr save_pull_request
  link_pull_request repo branch url none w = record w {
    pull_requests = w.pull_requests ++ new_pull_request repo branch url ∷ [];
  }
  link_pull_request repo branch url (some pr) w =
      save_pull_request
        (advance_pr machines reopen (record pr { pr_url = some (or_url pr.pr_url url) })).0 w

  unfoldable pub open_for : Option Repository → Text → Text → World → World
  open_for none branch url w = w
  open_for (some repo) branch url w =
      link_pull_request repo branch url (find_pr_of_branch repo branch w) w

  unfoldable pub handle_pull_request_opened : Payload → Text → World → World
  handle_pull_request_opened payload url w =
      if is_own_branch payload.pr_head_ref
      then open_for (find_repository payload.repository_id w) payload.pr_head_ref url w
      else w

  -- The actions on a pull request that is known.
  unfoldable pub act_on_pull_request : Option PullRequest → Payload → World → World
  act_on_pull_request none payload w = w
  act_on_pull_request (some pr) payload w =
      if text_eq payload.action (codes "converted_to_draft")
      then (handle_pull_request_draft_toggle machines now convert_to_draft pr w).1
      else if text_eq payload.action (codes "ready_for_review")
      then (handle_pull_request_draft_toggle machines now mark_ready_for_review pr w).1
      else if text_eq payload.action (codes "synchronize")
          || text_eq payload.action (codes "edited")
      then (handle_pull_request_sync machines now payload.pr_mergeable_state pr w).1
      else if text_eq payload.action (codes "closed")
      then (handle_pull_request_lifecycle machines now (if payload.pr_merged then merge else close)
          pr w).1
      else (handle_pull_request_lifecycle machines now reopen pr w).1

  unfoldable pub pull_request_at : Option Text → Payload → World → World
  pull_request_at none payload w = w
  pull_request_at (some url) payload w =
      if text_eq payload.action (codes "opened")
      then handle_pull_request_opened payload url w
      else act_on_pull_request (find_pr_of_url url w) payload w

  unfoldable pub handle_pull_request_event : Payload → World → World
  unfolding is_pull_request_action
  handle_pull_request_event payload w =
      if is_pull_request_action payload.action then pull_request_at payload.pr_url payload w else w

unfoldable pub record_ci : Payload → Option PullRequest → World → World
unfolding ci_status_from_conclusion handle_ci_status
record_ci payload none w = w
record_ci payload (some pr) w =
    (handle_ci_status (ci_status_from_conclusion payload.suite_status payload.suite_conclusion) pr
      w).1

unfoldable pub record_ci_of : Payload → Option Repository → Text → World → World
record_ci_of payload none branch w = w
record_ci_of payload (some repo) branch w = record_ci payload (find_pr_of_branch repo branch w) w

unfoldable pub check_suite_at : Option Text → Payload → World → World
check_suite_at none payload w = w
check_suite_at (some branch) payload w =
    record_ci_of payload (find_repository payload.repository_id w) branch w

unfoldable pub handle_check_suite_event : Payload → World → World
unfolding check_suite_at
handle_check_suite_event payload w = check_suite_at payload.suite_head_branch payload w

unfoldable pub record_decision : Option ReviewDecision → Option PullRequest → World → World
unfolding handle_review_decision
record_decision none pr w = w
record_decision (some decision) none w = w
record_decision (some decision) (some pr) w = (handle_review_decision decision pr w).1

unfoldable pub find_pr_at : Option Text → World → Option PullRequest
unfolding find_pr_of_url
find_pr_at none w = none
find_pr_at (some url) w = find_pr_of_url url w

unfoldable pub handle_pull_request_review_event : Payload → World → World
handle_pull_request_review_event payload w =
    if text_eq payload.action (codes "submitted") || text_eq payload.action (codes "dismissed")
    then record_decision (review_state_to_decision payload.review_state)
        (find_pr_at payload.pr_url w) w
    else w

unfoldable pub run_completed : Payload → Option Repository → World → World
run_completed payload none w = w
run_completed payload (some repo) w =
    enqueue_workflow_analysis repo payload.run_head_branch payload.run_head_sha webhook_workflow_run
      false w

unfoldable pub handle_workflow_run_event : Payload → World → World
handle_workflow_run_event payload w =
    if text_eq payload.action (codes "completed")
    then run_completed payload (resolve_repo_by_github_id payload w) w
    else w

unfoldable pub run_command : ℕ → Option (List Text) → Option Repository → World → World
run_command now none repo w = w
run_command now (some command) none w = w
run_command now (some command) (some repo) w = handle_issue_command now repo command w

unfoldable pub handle_issue_comment_event : ℕ → Payload → World → World
handle_issue_comment_event now payload w =
    if text_eq payload.action (codes "created") && starts_with prefix (strip payload.comment_body)
    then run_command now (parse_greensecops_command payload.comment_body)
        (resolve_repo_by_github_id payload w) w
    else w
