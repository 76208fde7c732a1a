-- ===== src/Events/Reopening.antt =====
-- A pull request that is closed and opened again.
use greensecops.Common.{
  ℕ, ◌≡◌, ◌⊎◌, inl, inr, refl, ◌∙◌, List, map, if◌then◌else◌, update-map, update-update, arith,
}
use greensecops.StateMachines.Base.{value}
use greensecops.StateMachines.Fix.{FixStatus, ready, delivered, superseded_by_closed_pr}
use greensecops.StateMachines.PullRequest.{opened, draft, closed, close, reopen}
use greensecops.Events.Store.{PullRequest, WorkflowFix, World, Machines, is_number}
use greensecops.Events.Lifecycle.{
  advance_pr, settle_fix, settle_fixes, is_of_pr, handle_pull_request_lifecycle, settle_findings,
}
use greensecops.Events.Landing.{settle_fix_lem, restoring, withdrawing}
use greensecops.Events.Redelivery.{advance_pr_lem, settle_fix-pr}

abbrev pub deliverable_again : FixStatus → FixStatus
deliverable_again ready = ready
deliverable_again delivered = ready
deliverable_again superseded_by_closed_pr = ready
deliverable_again s = s

abbrev pub reopened_row : PullRequest → WorkflowFix → WorkflowFix
reopened_row pr fix =
    if is_number fix.pr_id pr.id then record fix { status = deliverable_again fix.status } else fix

restoring-withdrawing : (s : FixStatus) → (restoring (withdrawing s).0).0 ≡ deliverable_again s
restoring-withdrawing s = ground arith

module _ (machines : Machines) (pr : PullRequest) where
  close_reopen_row :
      (fix : WorkflowFix)
      → (if is_of_pr pr fix
          then (settle_fix machines reopen (settle_fix machines close fix).0).0
          else fix)
        ≡ reopened_row pr fix
  unfolding is_of_pr
  close_reopen_row fix = ground (
    arith,
    settle_fix_lem machines close fix,
    settle_fix_lem machines reopen (record fix { status = (withdrawing fix.status).0 }),
    restoring-withdrawing fix.status,
  )

  settle_fixes-close_reopen :
      (fixes : List WorkflowFix)
      → settle_fixes machines reopen pr (settle_fixes machines close pr fixes)
        ≡ map (reopened_row pr) fixes
  unfolding settle_fixes
  settle_fixes-close_reopen fixes =
      update-update _ _ _ fixes (λ fix h. settle_fix-pr machines close pr fix ∙ h)
      ∙ update-map _ _ _ fixes close_reopen_row

  -- An open or draft pull request that is closed and then reopened is open with its other columns as
  -- they were. Those of its fixes that were ready, delivered or withdrawn by a closed pull request are
  -- ready; its other fixes, the fixes of other pull requests and the findings are as they were.
  pub close_reopen :
      (now later : ℕ) (w : World)
      → (pr.pr_state ≡ value opened) ⊎ (pr.pr_state ≡ value draft)
      → let (pr1, w1) = handle_pull_request_lifecycle machines now close pr w in
        let (pr2, w2) = handle_pull_request_lifecycle machines later reopen pr1 w1 in
        (pr2 ≡ record pr { pr_state = value opened })
        × (w2.fixes ≡ map (reopened_row pr) w.fixes)
        × (w2.findings ≡ w.findings)
  unfolding handle_pull_request_lifecycle settle_findings
  close_reopen now later w live = (
    by_state live,
    rw (advance_pr_lem machines close pr) (settle_fixes-close_reopen w.fixes),
    refl,
  )
    where
      by_state :
          (pr.pr_state ≡ value opened) ⊎ (pr.pr_state ≡ value draft)
          → (advance_pr machines reopen (advance_pr machines close pr).0).0
            ≡ record pr { pr_state = value opened }
      by_state (inl h) = ground (
        arith,
        h,
        advance_pr_lem machines close pr,
        advance_pr_lem machines reopen (record pr { pr_state = value closed }),
      )
      by_state (inr h) = ground (
        arith,
        h,
        advance_pr_lem machines close pr,
        advance_pr_lem machines reopen (record pr { pr_state = value closed }),
      )
