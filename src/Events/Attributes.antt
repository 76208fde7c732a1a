-- ===== src/Events/Attributes.antt =====
-- backend/app/services/github/event_handlers.py: the handlers of draft toggles, new commits, CI and reviews, and the
-- `/greensecops` commands. Each returns the pull request's row beside the tables.
use greensecops.Common.{
  ℕ, zero, suc, Bool, true, List, [], ◌∷◌, Option, none, some, ◌==◌, ◌&&◌, map, filter,
  if◌then◌else◌, update, Text, codes, text_eq,
}
use greensecops.StateMachines.PullRequest.{PullRequestEvent, external_update}
use greensecops.Events.Enums.{CiStatus, ReviewDecision, manual}
use greensecops.Events.Store.{
  Repository, PullRequest, WorkflowFinding, Event, pr_updated, World, Machines, announce,
  save_pull_request, get_repository,
}
use greensecops.Events.Commands.{is_verb}
use greensecops.Events.Scans.{enqueue_workflow_analysis}
use greensecops.Events.Lifecycle.{is_of_pr, advance_pr}

unfoldable pub updated_events : Option Repository → PullRequest → World → List Event
unfolding is_of_pr
updated_events none pr w = []
updated_events (some repo) pr w =
    pr_updated repo.org_id repo.id (map (λ fix. fix.id) (filter (is_of_pr pr) w.fixes)) pr.pr_url
      pr.pr_branch
    ∷ []

unfoldable pub publish_pr_updated : PullRequest → World → World
unfolding updated_events announce get_repository
publish_pr_updated pr w = announce (updated_events (get_repository pr.repo_id w) pr w) w

-- `session.add`, `session.commit` and `_publish_pr_updated`.
unfoldable pub record_update : PullRequest → World → PullRequest × World
unfolding publish_pr_updated save_pull_request
record_update pr w = (pr, publish_pr_updated pr (save_pull_request pr w))

-- The first characters of a text.
unfoldable pub cut : ℕ → Text → Text
cut zero s = []
cut (suc n) [] = []
cut (suc n) (c ∷ s) = c ∷ cut n s

unfoldable pub set_mergeable : Option Text → PullRequest → PullRequest
unfolding cut
set_mergeable none pr = pr
set_mergeable (some state) pr = record pr { mergeable_state = some (cut 32 state) }

module _ (machines : Machines) where
  unfoldable pub handle_pull_request_draft_toggle :
      ℕ → PullRequestEvent → PullRequest → World → PullRequest × World
  unfolding advance_pr record_update
  handle_pull_request_draft_toggle now event pr w =
      let (moved, done) = advance_pr machines event pr in
      if done then record_update (record moved { updated_at = some now }) w else (pr, w)

  unfoldable pub handle_pull_request_sync :
      ℕ → Option Text → PullRequest → World → PullRequest × World
  unfolding advance_pr record_update set_mergeable
  handle_pull_request_sync now mergeable_state pr w =
      let (moved, done) = advance_pr machines external_update pr in
      if done
      then record_update (set_mergeable mergeable_state (record moved { updated_at = some now })) w
      else (pr, w)

unfoldable pub handle_ci_status : CiStatus → PullRequest → World → PullRequest × World
unfolding record_update
handle_ci_status ci_status pr w = record_update (record pr { ci_status = some ci_status }) w

unfoldable pub handle_review_decision : ReviewDecision → PullRequest → World → PullRequest × World
unfolding record_update
handle_review_decision decision pr w =
    record_update (record pr { review_decision = some decision }) w

-- The findings that a command names.
unfoldable pub has_fingerprint : Repository → Text → WorkflowFinding → Bool
has_fingerprint repo fingerprint finding =
    finding.repo_id == repo.id && text_eq finding.fingerprint fingerprint

unfoldable pub set_ignored : Option ℕ → WorkflowFinding → WorkflowFinding
set_ignored at finding = record finding { ignored_at = at }

unfoldable pub handle_issue_ignore_command : ℕ → Repository → Text → List Text → World → World
unfolding has_fingerprint set_ignored
handle_issue_ignore_command now repo verb [] w = w
handle_issue_ignore_command now repo verb (fingerprint ∷ _) w = record w {
  findings =
      update (has_fingerprint repo fingerprint)
        (set_ignored (if text_eq verb (codes "ignore") then some now else none)) w.findings;
}

unfoldable pub handle_issue_command : ℕ → Repository → List Text → World → World
unfolding is_verb handle_issue_ignore_command enqueue_workflow_analysis
handle_issue_command now repo [] w = w
handle_issue_command now repo (verb ∷ args) w =
    if is_verb verb
    then if text_eq verb (codes "reanalyze")
      then enqueue_workflow_analysis repo repo.default_branch none manual true w
      else handle_issue_ignore_command now repo verb args w
    else w
