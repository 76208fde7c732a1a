-- ===== src/StateMachines/EngineTarget/Blocks.antt =====
-- Which actions an activity refuses.
use greensecops.Common.{
  ◌≡◌, refl, ◌↔◌, Bool, true, false, ◌||◌, List, [], ◌∷◌, ◌++◌, Option, none, some, arith,
}
use greensecops.StateMachines.Fix.{FixStatus}
use greensecops.StateMachines.Scan.{ScanStatus}
use greensecops.StateMachines.EngineTarget.{
  TargetActivity, TargetAction, scan, generate, ignore, sync, active_scan_statuses, blocks,
  activity_of, blocked_reason,
}
use greensecops.StateMachines.EngineTarget.Activity.{
  some_status, is_delivering, is_generating, activity_of_lem,
}

some_status-append :
    {S : Type 0} (p : S → Bool) (xs ys : List (Option S))
    → some_status p (xs ++ ys) ≡ (some_status p xs || some_status p ys)
some_status-append p [] ys = refl
some_status-append p (none ∷ xs) ys = some_status-append p xs ys
some_status-append p (some x ∷ xs) ys = ground (arith, some_status-append p xs ys)

-- More work in flight never lifts a refusal: an action that is blocked for some scans and fixes is
-- blocked with any further ones beside them.
pub blocks-append :
    (action : TargetAction) (scans more_scans : List (Option ScanStatus))
    (fixes more_fixes : List (Option FixStatus))
    → blocks action (activity_of scans fixes) ≡ true
    → blocks action (activity_of (scans ++ more_scans) (fixes ++ more_fixes)) ≡ true
unfolding blocks
blocks-append action scans more_scans fixes more_fixes =
    rw
      (
        activity_of_lem (scans ++ more_scans) (fixes ++ more_fixes),
        some_status-append active_scan_statuses scans more_scans,
        some_status-append is_delivering fixes more_fixes,
        some_status-append is_generating fixes more_fixes,
        activity_of_lem scans fixes,
      )
      (ground arith)

-- A refusal always has its reason: no action is blocked at an activity that `REASONS` lacks, so an
-- action is allowed exactly when `blocked_reason` answers `None`.
pub blocked_reason-none :
    (activity : TargetActivity) (action : TargetAction)
    → (blocked_reason activity action ≡ none) ↔ (blocks action activity ≡ false)
unfolding blocked_reason
blocked_reason-none activity action = (ground arith, ground arith)

-- The work that each action collides with, read off the statuses themselves.
abbrev pub collides : TargetAction → List (Option ScanStatus) → List (Option FixStatus) → Bool
collides ignore scans fixes = some_status active_scan_statuses scans
collides sync scans fixes = some_status active_scan_statuses scans
collides generate scans fixes =
    some_status active_scan_statuses scans || some_status is_delivering fixes
collides _ scans fixes =
    some_status active_scan_statuses scans
    || some_status is_delivering fixes
    || some_status is_generating fixes

-- `ignore` and `sync` are allowed exactly while no scan is active, `generate` while moreover no fix
-- is being delivered, and the other actions while moreover no fix is pending or being generated.
pub blocked_reason-collides :
    (action : TargetAction) (scans : List (Option ScanStatus)) (fixes : List (Option FixStatus))
    → (blocked_reason (activity_of scans fixes) action ≡ none)
      ↔ (collides action scans fixes ≡ false)
unfolding blocked_reason
blocked_reason-collides scan scans fixes =
    rw (activity_of_lem scans fixes) (ground arith, ground arith)
blocked_reason-collides _ scans fixes =
    rw (activity_of_lem scans fixes) (ground arith, ground arith)
