-- ===== src/Events/Redelivery.antt =====
-- Lifecycle events that come again, and a close that a reopen takes back.
use greensecops.Common.{
  ℕ, ◌≡◌, refl, ◌∙◌, Bool, true, false, List, [], ◌∷◌, ◌==◌, update, update-update, update-ext,
  update_id, arith,
}
use greensecops.StateMachines.Base.{Column, value, null, unknown, first_target, try_advance}
use greensecops.StateMachines.Fix.{FixStatus}
use greensecops.StateMachines.PullRequest.{
  PullRequestState, opened, draft, merged, closed, PullRequestEvent, merge, close, reopen,
  convert_to_draft, mark_ready_for_review, external_update, redeliver, pull_request_machine,
  PullRequestState-discrete,
}
use greensecops.Events.Store.{PullRequest, WorkflowFix, World, Machines, save_pull_request}
use greensecops.Events.Lifecycle.{
  advance_pr, settle_fix, settle_fixes, changed_fixes, is_of_pr, handle_pull_request_lifecycle,
  settle_findings, is_addressed,
}
use greensecops.Events.Landing.{settle_fix_lem, outcome}

abbrev pub pr_outcome : PullRequestEvent → PullRequestState → PullRequestState × Bool
pr_outcome redeliver opened = (opened, true)
pr_outcome external_update opened = (opened, true)
pr_outcome external_update draft = (draft, true)
pr_outcome convert_to_draft opened = (draft, true)
pr_outcome mark_ready_for_review draft = (opened, true)
pr_outcome merge opened = (merged, true)
pr_outcome merge draft = (merged, true)
pr_outcome close opened = (closed, true)
pr_outcome close draft = (closed, true)
pr_outcome reopen closed = (opened, true)
pr_outcome _ s = (s, false)

abbrev pub column_outcome :
    PullRequestEvent → Column PullRequestState → Column PullRequestState × Bool
column_outcome event null = (null, false)
column_outcome event (unknown v) = (unknown v, false)
column_outcome event (value s) = (value (pr_outcome event s).0, (pr_outcome event s).1)

pub advance_pr_lem :
    (machines : Machines) (event : PullRequestEvent) (pr : PullRequest)
    → advance_pr machines event pr ≡ (
      record pr { pr_state = (column_outcome event pr.pr_state).0 },
      (column_outcome event pr.pr_state).1,
    )
unfolding advance_pr try_advance first_target pull_request_machine PullRequestState-discrete
advance_pr_lem machines event pr = by_state pr.pr_state refl
  where
    by_state :
        (c : Column PullRequestState)
        → pr.pr_state ≡ c
        → advance_pr machines event pr ≡ (
          record pr { pr_state = (column_outcome event pr.pr_state).0 },
          (column_outcome event pr.pr_state).1,
        )
    by_state null h = ground (arith, h)
    by_state (unknown v) h = ground (arith, h)
    by_state (value s) h =
        ground
          (arith, h, machines.on_pull_request.send_lem (pull_request_machine.transitions event) s)

column_outcome_twice :
    (event : PullRequestEvent) (c : Column PullRequestState)
    → (column_outcome event (column_outcome event c).0).0 ≡ (column_outcome event c).0
column_outcome_twice event null = refl
column_outcome_twice event (unknown v) = refl
column_outcome_twice event (value s) = ground arith

outcome_twice :
    (event : PullRequestEvent) (s : FixStatus)
    → outcome event (outcome event s).0 ≡ ((outcome event s).0, false)
outcome_twice event s = ground arith

module _ (machines : Machines) (event : PullRequestEvent) where
  advance_pr_twice :
      (pr : PullRequest)
      → (advance_pr machines event (advance_pr machines event pr).0).0
        ≡ (advance_pr machines event pr).0
  advance_pr_twice pr = ground (
    arith,
    advance_pr_lem machines event pr,
    advance_pr_lem machines event (record pr { pr_state = (column_outcome event pr.pr_state).0 }),
    column_outcome_twice event pr.pr_state,
  )

  settle_fix_twice :
      (fix : WorkflowFix)
      → settle_fix machines event (settle_fix machines event fix).0
        ≡ ((settle_fix machines event fix).0, false)
  settle_fix_twice fix = ground (
    arith,
    settle_fix_lem machines event fix,
    settle_fix_lem machines event (record fix { status = (outcome event fix.status).0 }),
    outcome_twice event fix.status,
  )

  pub settle_fix-pr :
      (pr : PullRequest) (fix : WorkflowFix)
      → is_of_pr pr (settle_fix machines event fix).0 ≡ is_of_pr pr fix
  unfolding is_of_pr
  settle_fix-pr pr fix = rw (settle_fix_lem machines event fix) refl

  settle_fixes_twice :
      (pr : PullRequest) (fixes : List WorkflowFix)
      → settle_fixes machines event pr (settle_fixes machines event pr fixes)
        ≡ settle_fixes machines event pr fixes
  unfolding settle_fixes
  settle_fixes_twice pr fixes =
      rw
        (update-update (is_of_pr pr) (λ fix. (settle_fix machines event fix).0)
          (λ fix. (settle_fix machines event fix).0) fixes (λ fix h. settle_fix-pr pr fix ∙ h))
        (update-ext _ _ _ fixes (λ fix h. ground (arith, settle_fix_twice fix)))

  changed_fixes_twice :
      (pr : PullRequest) (fixes : List WorkflowFix)
      → changed_fixes machines event pr (settle_fixes machines event pr fixes) ≡ []
  unfolding settle_fixes changed_fixes update
  changed_fixes_twice pr [] = refl
  changed_fixes_twice pr (fix ∷ fixes) =
      ground (arith, settle_fix-pr pr fix, settle_fix_twice fix, changed_fixes_twice pr fixes)

save_twice :
    (pr : PullRequest) (rows : List PullRequest)
    → let saved = update (λ row. row.id == pr.id) (λ _. pr) rows in
      update (λ row. row.id == pr.id) (λ _. pr) saved ≡ saved
save_twice pr rows = update-update _ _ _ rows (λ row h. ground arith)

module _ (machines : Machines) where
  settle_findings_none :
      (now : ℕ) (event : PullRequestEvent) (pr : PullRequest) (w : World)
      → changed_fixes machines event pr w.fixes ≡ []
      → settle_findings machines now event pr w ≡ w.findings
  unfolding settle_findings is_addressed
  settle_findings_none now merge pr w h = rw h (update_id _ _ w.findings (λ finding e. cc))
  settle_findings_none now close pr w h = refl
  settle_findings_none now reopen pr w h = refl
  settle_findings_none now redeliver pr w h = refl
  settle_findings_none now external_update pr w h = refl
  settle_findings_none now convert_to_draft pr w h = refl
  settle_findings_none now mark_ready_for_review pr w h = refl

  -- A lifecycle event that is handled again, at whatever instant, leaves the pull request, the fixes
  -- and the findings as the first handling left them, and moves no fix, so that it announces none.
  pub lifecycle_twice :
      (now later : ℕ) (event : PullRequestEvent) (pr : PullRequest) (w : World)
      → let (pr1, w1) = handle_pull_request_lifecycle machines now event pr w in
        let (pr2, w2) = handle_pull_request_lifecycle machines later event pr1 w1 in
        (pr2 ≡ pr1)
        × (w2.pull_requests ≡ w1.pull_requests)
        × (w2.fixes ≡ w1.fixes)
        × (w2.findings ≡ w1.findings)
        × (changed_fixes machines event pr1 w1.fixes ≡ [])
  unfolding handle_pull_request_lifecycle save_pull_request
  lifecycle_twice now later event pr w =
      let same = advance_pr_twice machines event pr in
      let pr1 = (advance_pr machines event pr).0 in
      let of : (fixes : List WorkflowFix)
          → changed_fixes machines event pr1 (settle_fixes machines event pr fixes) ≡ [] =
        λ fixes.
          rw (advance_pr_lem machines event pr) (changed_fixes_twice machines event pr fixes) in
      (
        same,
        rw same (save_twice pr1 w.pull_requests),
        rw (advance_pr_lem machines event pr) (settle_fixes_twice machines event pr w.fixes),
        settle_findings_none later event pr1 _ (of w.fixes),
        of w.fixes,
      )
