-- ===== src/Events/Landing.antt =====
-- What the three lifecycle events do to each fix and to the findings.
use greensecops.Common.{
  ℕ, ◌≡◌, refl, Bool, true, false, List, [], ◌∷◌, Option, none, some, ◌&&◌, any, map, if◌then◌else◌,
  update-map, arith,
}
use greensecops.StateMachines.Base.{ok, value, first_target, advance, try_advance}
use greensecops.StateMachines.Fix.{
  FixStatus, ready, delivered, landed, superseded_by_closed_pr, FixEvent, fix_machine,
  FixStatus-discrete,
}
use greensecops.StateMachines.PullRequest.{PullRequestEvent, merge, close, reopen}
use greensecops.WorkflowSync.{FindingResolutionReason}
use greensecops.Events.Store.{
  PullRequest, WorkflowFix, WorkflowFinding, World, Machines, fix_status_field, is_number,
}
use greensecops.Events.Lifecycle.{
  settle_fix, is_addressed, changed_fixes, is_of_pr, handle_pull_request_lifecycle,
}

abbrev pub landing : FixStatus → FixStatus × Bool
landing delivered = (landed, true)
landing s = (s, false)

abbrev pub withdrawing : FixStatus → FixStatus × Bool
withdrawing ready = (superseded_by_closed_pr, true)
withdrawing delivered = (superseded_by_closed_pr, true)
withdrawing s = (s, false)

abbrev pub restoring : FixStatus → FixStatus × Bool
restoring superseded_by_closed_pr = (ready, false)
restoring s = (s, false)

abbrev pub outcome : PullRequestEvent → FixStatus → FixStatus × Bool
outcome merge s = landing s
outcome close s = withdrawing s
outcome reopen s = restoring s
outcome _ s = (s, false)

computed : Unit {0}
unfolding first_target fix_machine FixStatus-discrete advance try_advance settle_fix
computed = tt

pub settle_fix_lem :
    (machines : Machines) (event : PullRequestEvent) (fix : WorkflowFix)
    → settle_fix machines event fix
      ≡ (record fix { status = (outcome event fix.status).0 }, (outcome event fix.status).1)
unfolding computed
settle_fix_lem machines event fix = ground (
  arith,
  machines.on_fix.send_lem (fix_machine.transitions FixEvent.land) fix.status,
  machines.on_fix.send_lem (fix_machine.transitions FixEvent.restore) fix.status,
  machines.on_fix.send_lem (fix_machine.transitions FixEvent.supersede_closed_pr) fix.status,
)

-- The status that the second event finds is the one that the first left.
pub restore-ok :
    (machines : Machines) (fix : WorkflowFix)
    → fix.status ≡ superseded_by_closed_pr
    → advance machines.on_fix fix_machine fix_status_field fix FixEvent.restore
      ≡ (record fix { status = ready }, ok (value ready))
unfolding computed
restore-ok machines fix h =
    ground (arith, machines.on_fix.send_lem (fix_machine.transitions FixEvent.restore) fix.status)

abbrev pub is_delivered : FixStatus → Bool
is_delivered delivered = true
is_delivered _ = false

-- The fix was delivered by the pull request.
abbrev pub is_delivered_by : PullRequest → WorkflowFix → Bool
is_delivered_by pr fix = is_number fix.pr_id pr.id && is_delivered fix.status

abbrev pub landed_row : PullRequest → WorkflowFix → WorkflowFix
landed_row pr fix = if is_delivered_by pr fix then record fix { status = landed } else fix

abbrev pub is_unresolved : Option ℕ → Bool
is_unresolved none = true
is_unresolved (some _) = false

abbrev pub merged_row : ℕ → PullRequest → List WorkflowFix → WorkflowFinding → WorkflowFinding
merged_row now pr fixes finding =
    if any (λ fix. is_delivered_by pr fix && is_number finding.fix_id fix.id) fixes
      && is_unresolved finding.resolved_at
    then record finding {
      resolved_at = some now;
      resolution_reason = some FindingResolutionReason.merged;
    }
    else finding

module _ (machines : Machines) (now : ℕ) (pr : PullRequest) where
  changed_fixes-merge :
      (fixes : List WorkflowFix) (finding : WorkflowFinding)
      → is_addressed (changed_fixes machines merge pr fixes) finding
        ≡ any (λ fix. is_delivered_by pr fix && is_number finding.fix_id fix.id) fixes
  unfolding is_addressed changed_fixes is_of_pr
  changed_fixes-merge [] finding = refl
  changed_fixes-merge (fix ∷ fixes) finding =
      ground (arith, settle_fix_lem machines merge fix, changed_fixes-merge fixes finding)

  -- A merge lands the fixes that the pull request delivered and resolves, as merged, the open findings
  -- that they address. It leaves every other fix and finding.
  pub merge_lem :
      (w : World)
      → let after = (handle_pull_request_lifecycle machines now merge pr w).1 in
        (after.fixes ≡ map (landed_row pr) w.fixes)
        × (after.findings ≡ map (merged_row now pr w.fixes) w.findings)
  unfolding handle_pull_request_lifecycle
  merge_lem w = (
    update-map _ _ _ w.fixes (λ fix. ground (arith, settle_fix_lem machines merge fix)),
    update-map _ _ _ w.findings (λ finding. ground (arith, changed_fixes-merge w.fixes finding)),
  )
