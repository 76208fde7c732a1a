-- ===== src/StateMachines/EngineTarget.antt =====
-- backend/app/services/state_machines/engine_target.py, with `TargetActivity` and `TargetAction` of
-- backend/app/models/enums.py.
pub mod Activity
pub mod Blocks
use Prim.Native.String.{String}
use greensecops.Common.{
  Bool, true, false, List, [], ◌∷◌, Option, none, some, ite, if◌then◌else◌, ◌||◌,
}
use greensecops.StateMachines.Fix.{FixStatus}
use greensecops.StateMachines.Scan.{ScanStatus}

pub data TargetActivity : Type 0 where
  idle scanning generating delivering : TargetActivity

pub data TargetAction : Type 0 where
  scan generate deliver remove ignore sync : TargetAction

unfoldable pub TargetActivity-discrete : Discrete TargetActivity
TargetActivity-discrete = hlevel

-- Membership of `ACTIVE_SCAN_STATUSES`.
unfoldable pub active_scan_statuses : ScanStatus → Bool
active_scan_statuses ScanStatus.queued = true
active_scan_statuses ScanStatus.running = true
active_scan_statuses _ = false

-- `_FIX_ACTIVITY.get`.
unfoldable pub fix_activity : FixStatus → Option TargetActivity
fix_activity FixStatus.pending = some generating
fix_activity FixStatus.generating = some generating
fix_activity FixStatus.delivering = some delivering
fix_activity _ = none

abbrev pub precedence : List TargetActivity
precedence = scanning ∷ delivering ∷ generating ∷ []

abbrev pub busy : TargetActivity → Bool
busy idle = false
busy _ = true

abbrev pub is_scanning : TargetActivity → Bool
is_scanning scanning = true
is_scanning _ = false

abbrev pub scanning_or_delivering : TargetActivity → Bool
scanning_or_delivering scanning = true
scanning_or_delivering delivering = true
scanning_or_delivering _ = false

-- Membership of `BLOCKS[action]`.
unfoldable pub blocks : TargetAction → TargetActivity → Bool
blocks scan = busy
blocks generate = scanning_or_delivering
blocks deliver = busy
blocks remove = busy
blocks ignore = is_scanning
blocks sync = is_scanning

-- `REASONS[activity]`, with `none` for the `KeyError` at `idle`.
unfoldable pub reasons : TargetActivity → Option String
reasons idle = none
reasons scanning = some "a scan is already running"
reasons generating = some "fixes are being generated"
reasons delivering = some "a pull request is being opened"

-- The first loop of `activity_of`: it breaks at the first active scan.
unfoldable pub collect_scans : List (Option ScanStatus) → List TargetActivity → List TargetActivity
unfolding active_scan_statuses
collect_scans [] found = found
collect_scans (none ∷ ss) found = collect_scans ss found
collect_scans (some s ∷ ss) found =
    let rest = collect_scans ss found in if active_scan_statuses s then scanning ∷ found else rest

add_activity : Option TargetActivity → List TargetActivity → List TargetActivity
add_activity none found = found
add_activity (some a) found = a ∷ found

-- The second loop; the set is a list, and only its members are asked for.
unfoldable pub collect_fixes : List (Option FixStatus) → List TargetActivity → List TargetActivity
unfolding fix_activity add_activity
collect_fixes [] found = found
collect_fixes (none ∷ fs) found = collect_fixes fs found
collect_fixes (some f ∷ fs) found = collect_fixes fs (add_activity (fix_activity f) found)

unfoldable pub is_found : TargetActivity → List TargetActivity → Bool
unfolding TargetActivity-discrete
is_found a [] = false
is_found a (b ∷ bs) = ite (TargetActivity-discrete b a) true false || is_found a bs

-- The third loop.
unfoldable pub first_found : List TargetActivity → List TargetActivity → TargetActivity
unfolding is_found
first_found [] found = idle
first_found (c ∷ cs) found = if is_found c found then c else first_found cs found

unfoldable pub activity_of : List (Option ScanStatus) → List (Option FixStatus) → TargetActivity
unfolding collect_scans collect_fixes first_found
activity_of scan_statuses fix_statuses =
    first_found precedence (collect_fixes fix_statuses (collect_scans scan_statuses []))

unfoldable pub blocked_reason : TargetActivity → TargetAction → Option String
unfolding blocks reasons
blocked_reason activity action = if blocks action activity then reasons activity else none
