-- ===== src/Polling/Applying.antt =====
-- backend/app/workers/tasks/polling.py: what a poll does with the data that it fetched. A function on a pull request
-- returns its row beside the tables.
use greensecops.Common.{
  ℕ, Bool, true, false, List, [], ◌∷◌, Option, none, some, ◌==◌, ◌&&◌, not, if◌then◌else◌, Text,
  is_empty_text,
}
use greensecops.StateMachines.Base.{Column, value}
use greensecops.StateMachines.PullRequest.{
  PullRequestState, opened, draft, merged, closed, PullRequestEvent, merge, close, reopen,
  convert_to_draft, mark_ready_for_review,
}
use greensecops.Events.Enums.{
  CiStatus, ReviewDecision, polled_push, approved, changes_requested, review_required, pending,
  success, failure,
}
use greensecops.Events.Store.{
  Repository, PullRequest, World, Machines, save_pull_request, save_repository,
}
use greensecops.Events.Commands.{parse_greensecops_command}
use greensecops.Events.Scans.{
  enqueue_workflow_analysis, enqueue_terraform_scans, enqueue_docker_scans, enqueue_ansible_scans,
}
use greensecops.Events.Lifecycle.{handle_pull_request_lifecycle}
use greensecops.Events.Attributes.{
  handle_pull_request_draft_toggle, handle_pull_request_sync, handle_ci_status,
  handle_review_decision, handle_issue_command,
}
use greensecops.Polling.Snapshot.{PrSnapshot}
use greensecops.Polling.Fetching.{PrPollResult, RepoPollData}

-- The four calls for a head that moved.
unfoldable pub enqueue_polled : Repository → Text → ℕ → World → World
unfolding enqueue_workflow_analysis enqueue_terraform_scans enqueue_docker_scans
    enqueue_ansible_scans
enqueue_polled repo branch sha w =
    let analysed = enqueue_workflow_analysis repo branch (some sha) polled_push false w in
    let terraform = enqueue_terraform_scans repo branch (some sha) polled_push none analysed in
    let docker = enqueue_docker_scans repo branch (some sha) polled_push none terraform in
    enqueue_ansible_scans repo branch (some sha) polled_push none docker

-- The head differs from the one that the last poll saw; a first poll is a baseline.
unfoldable pub has_moved : Option ℕ → ℕ → Bool
has_moved none sha = false
has_moved (some seen) sha = not (sha == seen)

-- The repository as it then is, the tables, and whether an analysis was queued.
unfoldable pub push_at : ℕ → Repository → Text → Option ℕ → World → Repository × World × Bool
unfolding enqueue_polled has_moved save_repository
push_at now repo branch none w = (repo, w, false)
push_at now repo branch (some sha) w =
    let polled = record repo { last_polled_head_sha = some sha; last_polled_at = some now } in
    let moved = has_moved repo.last_polled_head_sha sha in
    if is_empty_text branch then (repo, w, false) else (
      polled,
      save_repository polled (if moved then enqueue_polled repo branch sha w else w),
      moved,
    )

unfoldable pub apply_push : ℕ → Repository → RepoPollData → World → Repository × World × Bool
unfolding push_at
apply_push now repo found w = push_at now repo found.branch found.head_sha w

unfoldable pub is_state : PullRequestState → Column PullRequestState → Bool
is_state opened (value opened) = true
is_state draft (value draft) = true
is_state merged (value merged) = true
is_state closed (value closed) = true
is_state _ _ = false

unfoldable pub lifecycle_event : PullRequest → PrSnapshot → Option PullRequestEvent
unfolding is_state
lifecycle_event pr snapshot =
    if snapshot.merged && not (is_state merged pr.pr_state)
    then some merge
    else if is_state closed (value snapshot.state)
        && not (is_state closed pr.pr_state)
        && not (is_state merged pr.pr_state)
    then some close
    else if is_state opened (value snapshot.state) && is_state closed pr.pr_state
    then some reopen
    else none

unfoldable pub is_ci : CiStatus → Option CiStatus → Bool
is_ci pending (some pending) = true
is_ci success (some success) = true
is_ci failure (some failure) = true
is_ci CiStatus.none (some CiStatus.none) = true
is_ci _ _ = false

unfoldable pub is_decision : ReviewDecision → Option ReviewDecision → Bool
is_decision approved (some approved) = true
is_decision changes_requested (some changes_requested) = true
is_decision review_required (some review_required) = true
is_decision _ _ = false

module _ (machines : Machines) (now : ℕ) where
  unfoldable pub run_commands : Repository → List Text → World → World
  unfolding parse_greensecops_command handle_issue_command
  run_commands repo [] w = w
  run_commands repo (body ∷ bodies) w =
      run_commands repo bodies (elim (parse_greensecops_command body) [
        | none ↦ w
        | some command ↦ handle_issue_command now repo command w
      ])

  unfoldable pub apply_command_comments :
      Repository → PrPollResult → PullRequest × World → PullRequest × World
  unfolding run_commands save_pull_request
  apply_command_comments repo result (pr, w) =
      let polled = record pr { last_polled_comment_at = some now } in
      (polled, save_pull_request polled (run_commands repo result.command_comments w))

  unfoldable pub apply_draft : PrSnapshot → PullRequest × World → PullRequest × World
  unfolding is_state handle_pull_request_draft_toggle
  apply_draft snapshot (pr, w) =
      if snapshot.draft && is_state opened pr.pr_state
      then handle_pull_request_draft_toggle machines now convert_to_draft pr w
      else if not snapshot.draft && is_state draft pr.pr_state
      then handle_pull_request_draft_toggle machines now mark_ready_for_review pr w
      else (pr, w)

  -- A head that is not the one recorded; without a recorded one it is only recorded.
  unfoldable pub sync_to : ℕ → Option Text → Option ℕ → PullRequest × World → PullRequest × World
  unfolding save_pull_request handle_pull_request_sync
  sync_to sha mergeable_state none (pr, w) =
      let based = record pr { head_sha = some sha } in (based, save_pull_request based w)
  sync_to sha mergeable_state (some old) (pr, w) =
      if sha == old
      then (pr, w)
      else handle_pull_request_sync machines now mergeable_state (record pr { head_sha = some sha })
          w

  unfoldable pub apply_sync : Option ℕ → Option Text → PullRequest × World → PullRequest × World
  unfolding sync_to
  apply_sync none mergeable_state (pr, w) = (pr, w)
  apply_sync (some sha) mergeable_state (pr, w) = sync_to sha mergeable_state pr.head_sha (pr, w)

  unfoldable pub apply_ci : CiStatus → PullRequest × World → PullRequest × World
  unfolding is_ci handle_ci_status
  apply_ci ci_status (pr, w) =
      if is_ci ci_status pr.ci_status then (pr, w) else handle_ci_status ci_status pr w

  unfoldable pub apply_review : Option ReviewDecision → PullRequest × World → PullRequest × World
  unfolding is_decision handle_review_decision
  apply_review none (pr, w) = (pr, w)
  apply_review (some decision) (pr, w) =
      if is_decision decision pr.review_decision
      then (pr, w)
      else handle_review_decision decision pr w

  -- Steps 2 to 5.
  unfoldable pub apply_attributes : PrSnapshot → PullRequest × World → PullRequest × World
  unfolding apply_draft apply_sync apply_ci apply_review
  apply_attributes snapshot at = apply_review snapshot.review_decision (
      apply_ci snapshot.ci_status
        (apply_sync snapshot.head_sha snapshot.mergeable_state (apply_draft snapshot at)))

  unfoldable pub apply_event :
      PrSnapshot → Option PullRequestEvent → PullRequest × World → PullRequest × World
  unfolding handle_pull_request_lifecycle apply_attributes
  apply_event snapshot none at = apply_attributes snapshot at
  apply_event snapshot (some merge) (pr, w) = handle_pull_request_lifecycle machines now merge pr w
  apply_event snapshot (some close) (pr, w) = handle_pull_request_lifecycle machines now close pr w
  apply_event snapshot (some event) (pr, w) =
      apply_attributes snapshot (handle_pull_request_lifecycle machines now event pr w)

  unfoldable pub apply_snapshot : Option PrSnapshot → PullRequest × World → PullRequest × World
  unfolding apply_event lifecycle_event
  apply_snapshot none at = at
  apply_snapshot (some snapshot) (pr, w) =
      apply_event snapshot (lifecycle_event pr snapshot) (pr, w)

  unfoldable pub apply_pr : Repository → PullRequest → PrPollResult → World → PullRequest × World
  unfolding apply_snapshot apply_command_comments
  apply_pr repo pr result w =
      apply_command_comments repo result (apply_snapshot result.snapshot (pr, w))
