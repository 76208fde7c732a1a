-- ===== src/StateMachines/EngineTarget/Activity.antt =====
-- `activity_of` against a description of it by three questions.
use greensecops.Common.{
  ◌≡◌, refl, ◌↔◌, Bool, true, false, ◌||◌, List, [], ◌∷◌, Option, none, some, if◌then◌else◌, arith,
}
use greensecops.StateMachines.Fix.{FixStatus, in_flight_statuses}
use greensecops.StateMachines.Scan.{ScanStatus}
use greensecops.StateMachines.EngineTarget.{
  TargetActivity, idle, scanning, generating, delivering, active_scan_statuses, collect_scans,
  collect_fixes, is_found, activity_of,
}

-- Whether some status that is not NULL passes a test.
abbrev pub some_status : {S : Type 0} → (S → Bool) → List (Option S) → Bool
some_status p [] = false
some_status p (none ∷ ss) = some_status p ss
some_status p (some s ∷ ss) = p s || some_status p ss

abbrev pub is_delivering : FixStatus → Bool
is_delivering FixStatus.delivering = true
is_delivering _ = false

abbrev pub is_generating : FixStatus → Bool
is_generating FixStatus.pending = true
is_generating FixStatus.generating = true
is_generating _ = false

found-collect_scans :
    (ss : List (Option ScanStatus))
    → collect_scans ss [] ≡ (if some_status active_scan_statuses ss then scanning ∷ [] else [])
unfolding collect_scans
found-collect_scans [] = refl
found-collect_scans (none ∷ ss) = found-collect_scans ss
found-collect_scans (some s ∷ ss) = ground (arith, found-collect_scans ss)

found-collect_fixes :
    (fs : List (Option FixStatus)) (found : List TargetActivity)
    → let out = collect_fixes fs found in
      (is_found scanning out ≡ is_found scanning found)
      × (is_found delivering out ≡ (is_found delivering found || some_status is_delivering fs))
      × (is_found generating out ≡ (is_found generating found || some_status is_generating fs))
unfolding collect_fixes is_found
found-collect_fixes [] found = ground arith
found-collect_fixes (none ∷ fs) found = found-collect_fixes fs found
found-collect_fixes (some FixStatus.pending ∷ fs) found =
    ground (arith, found-collect_fixes fs (generating ∷ found))
found-collect_fixes (some FixStatus.generating ∷ fs) found =
    ground (arith, found-collect_fixes fs (generating ∷ found))
found-collect_fixes (some FixStatus.delivering ∷ fs) found =
    ground (arith, found-collect_fixes fs (delivering ∷ found))
found-collect_fixes (some f ∷ fs) found = ground (arith, found-collect_fixes fs found)

-- What a target is busy with, read off its statuses.
abbrev pub activity_spec : Bool → Bool → Bool → TargetActivity
activity_spec scans delivers generates =
    if scans
    then scanning
    else if delivers
    then delivering
    else if generates
    then generating
    else idle

-- An active scan makes a target `scanning`; without one a delivery makes it `delivering`; without
-- either a fix that is pending or being generated makes it `generating`; else it is idle.
pub activity_of_lem :
    (scans : List (Option ScanStatus)) (fixes : List (Option FixStatus))
    → activity_of scans fixes
      ≡ activity_spec
          (some_status active_scan_statuses scans)
          (some_status is_delivering fixes)
          (some_status is_generating fixes)
unfolding activity_of is_found
activity_of_lem scans fixes =
    let (s, d, g) = found-collect_fixes fixes (collect_scans scans []) in
    ground (arith, s, d, g, found-collect_scans scans)

some_in_flight :
    (fs : List (Option FixStatus))
    → some_status in_flight_statuses fs
      ≡ (some_status is_delivering fs || some_status is_generating fs)
unfolding in_flight_statuses
some_in_flight [] = refl
some_in_flight (none ∷ fs) = some_in_flight fs
some_in_flight (some f ∷ fs) = ground (arith, some_in_flight fs)

-- A target is idle exactly when no scan of it is active and no fix of it is in flight.
pub idle-in_flight :
    (scans : List (Option ScanStatus)) (fixes : List (Option FixStatus))
    → activity_of scans fixes ≡ idle
      ↔ (some_status active_scan_statuses scans || some_status in_flight_statuses fixes ≡ false)
idle-in_flight scans fixes =
    rw (activity_of_lem scans fixes, some_in_flight fixes) (ground arith, ground arith)
