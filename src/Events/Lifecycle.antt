-- ===== src/Events/Lifecycle.antt =====
-- backend/app/services/github/event_handlers.py: `handle_pull_request_lifecycle` and the resolution of the findings of
-- landed fixes. The handler returns the pull request's row beside the tables. An `advance` that
-- raises would end the handler: only the row that it leaves is read here, since the event is fired
-- in the one status in which it is legal.
use greensecops.Common.{
  ℕ, Bool, true, false, List, [], ◌∷◌, ◌++◌, Option, none, some, ◌&&◌, any, map, filter,
  if◌then◌else◌, update,
}
use greensecops.StateMachines.Base.{advance, try_advance}
use greensecops.StateMachines.Fix.{
  FixStatus, FixEvent, superseded_by_closed_pr, restore, supersede_closed_pr, land, fix_machine,
}
use greensecops.StateMachines.PullRequest.{
  PullRequestEvent, merge, close, reopen, pull_request_machine,
}
use greensecops.WorkflowSync.{FindingResolutionReason}
use greensecops.Events.Store.{
  Repository, PullRequest, WorkflowFix, WorkflowFinding, Event, fix_landed, fix_rejected, pr_closed,
  pr_opened, World, Machines, pr_state_field, fix_status_field, is_number, announce,
  save_pull_request, get_repository,
}

-- `WorkflowFix.pr_id == pr_record.id`.
unfoldable pub is_of_pr : PullRequest → WorkflowFix → Bool
unfolding is_number
is_of_pr pr fix = is_number fix.pr_id pr.id

unfoldable pub is_withdrawn : FixStatus → Bool
is_withdrawn superseded_by_closed_pr = true
is_withdrawn _ = false

-- `resolved_at IS NULL`.
unfoldable pub is_open : WorkflowFinding → Bool
is_open finding = elim finding.resolved_at [ none ↦ true | some _ ↦ false ]

-- `fix_id IN fix_ids`.
unfoldable pub is_addressed : List WorkflowFix → WorkflowFinding → Bool
unfolding is_number
is_addressed fixes finding = any (λ fix. is_number finding.fix_id fix.id) fixes

unfoldable pub resolve_as : FindingResolutionReason → ℕ → WorkflowFinding → WorkflowFinding
resolve_as reason now finding = record finding {
  resolved_at = some now;
  resolution_reason = some reason;
}

unfoldable pub resolve_issues_for_landed_fixes :
    ℕ → List WorkflowFix → List WorkflowFinding → List WorkflowFinding
unfolding is_open is_addressed resolve_as
resolve_issues_for_landed_fixes now fixes findings =
    update (λ finding. is_addressed fixes finding && is_open finding)
      (resolve_as FindingResolutionReason.merged now) findings

abbrev pub fix_event : PullRequestEvent → ℕ → ℕ → ℕ → Event
fix_event merge org_id repo_id fix_id = fix_landed org_id repo_id fix_id
fix_event _ org_id repo_id fix_id = fix_rejected org_id repo_id fix_id

abbrev pub is_merge : PullRequestEvent → Bool
is_merge merge = true
is_merge _ = false

abbrev pub pr_event : PullRequestEvent → Repository → PullRequest → ℕ → Event
pr_event reopen repo pr fix_id = pr_opened repo.org_id repo.id (fix_id ∷ []) pr.pr_url pr.pr_branch
pr_event event repo pr fix_id = pr_closed repo.org_id repo.id fix_id pr.pr_url (is_merge event)

-- The events of a pull request, given its fixes: that of the first one.
unfoldable pub pr_events :
    PullRequestEvent → Repository → PullRequest → List WorkflowFix → List Event
pr_events event repo pr [] = []
pr_events event repo pr (fix ∷ _) = pr_event event repo pr fix.id ∷ []

unfoldable pub lifecycle_events :
    PullRequestEvent
    → Option Repository
    → PullRequest
    → List WorkflowFix
    → List WorkflowFix
    → List Event
unfolding pr_events
lifecycle_events event none pr changed pr_fixes = []
lifecycle_events event (some repo) pr changed pr_fixes =
    map (λ fix. fix_event event repo.org_id repo.id fix.id) changed
    ++ pr_events event repo pr pr_fixes

module _ (machines : Machines) where
  unfoldable pub advance_pr : PullRequestEvent → PullRequest → PullRequest × Bool
  advance_pr event pr =
      try_advance machines.on_pull_request pull_request_machine pr_state_field pr event

  unfoldable pub advance_row : FixEvent → WorkflowFix → WorkflowFix × Bool
  advance_row event fix = try_advance machines.on_fix fix_machine fix_status_field fix event

  unfoldable pub restore_fix : WorkflowFix → WorkflowFix
  unfolding is_withdrawn
  restore_fix fix =
      if is_withdrawn fix.status
      then (advance machines.on_fix fix_machine fix_status_field fix restore).0
      else fix

  -- A fix of the pull request behind the loop, and whether it is in `changed`.
  unfoldable pub settle_fix : PullRequestEvent → WorkflowFix → WorkflowFix × Bool
  unfolding advance_row restore_fix
  settle_fix reopen fix = (restore_fix fix, false)
  settle_fix close fix = advance_row supersede_closed_pr fix
  settle_fix merge fix = advance_row land fix
  settle_fix _ fix = (fix, false)

  unfoldable pub settle_fixes : PullRequestEvent → PullRequest → List WorkflowFix → List WorkflowFix
  unfolding is_of_pr settle_fix
  settle_fixes event pr fixes = update (is_of_pr pr) (λ fix. (settle_fix event fix).0) fixes

  -- `changed`, as the loop leaves its fixes.
  unfoldable pub changed_fixes :
      PullRequestEvent → PullRequest → List WorkflowFix → List WorkflowFix
  unfolding is_of_pr settle_fix
  changed_fixes event pr [] = []
  changed_fixes event pr (fix ∷ fixes) =
      let rest = changed_fixes event pr fixes in
      if is_of_pr pr fix && (settle_fix event fix).1 then (settle_fix event fix).0 ∷ rest else rest

  unfoldable pub settle_findings : ℕ → PullRequestEvent → PullRequest → World → List WorkflowFinding
  unfolding changed_fixes resolve_issues_for_landed_fixes
  settle_findings now merge pr w =
      resolve_issues_for_landed_fixes now (changed_fixes merge pr w.fixes) w.findings
  settle_findings now _ pr w = w.findings

  unfoldable pub handle_pull_request_lifecycle :
      ℕ → PullRequestEvent → PullRequest → World → PullRequest × World
  unfolding advance_pr settle_fixes changed_fixes settle_findings save_pull_request lifecycle_events
      announce get_repository
  handle_pull_request_lifecycle now event pr w =
      let pr_record = (advance_pr event pr).0 in
      let saved = save_pull_request pr_record w in
      let settled = record saved {
        fixes = settle_fixes event pr w.fixes;
        findings = settle_findings now event pr w;
      } in
      (
        pr_record,
        announce
            (lifecycle_events event (get_repository pr.repo_id w) pr_record
              (changed_fixes event pr w.fixes) (filter (is_of_pr pr) w.fixes))
            settled,
      )
