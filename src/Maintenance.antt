-- ===== src/Maintenance.antt =====
-- backend/app/workers/tasks/maintenance.py: the sweep of rows whose worker died. A row has the columns
-- that a sweep reads or writes; a column that its table lacks stays empty. `since` is `created_at`, or
-- `collected_at` of a telemetry run. Where a transition is illegal the sweep raises and commits nothing.
pub mod Sweeps
pub mod Passes
pub mod Retry
pub mod Retrying
pub mod Rerunning
use Prim.Native.String.{String}
use greensecops.Common.{
  Bool, List, Option, [], false, if◌then◌else◌, ltb, none, refl, some, true, ℕ, ◌&&◌, ◌*◌, ◌+◌, ◌-◌,
  ◌∷◌,
}
use greensecops.StateMachines.Base.{
  Column, Engine, Field, Machine, Result, advance, ok, raise, value,
}
use greensecops.StateMachines.Scan.{ScanStatus, ScanEvent, ScanStatus-discrete, scan_machine}
use greensecops.StateMachines.Fix.{
  FixStatus, FixEvent, FixStatus-discrete, fix_machine, in_flight_statuses,
}
use greensecops.StateMachines.Telemetry.{
  DynamicAnalysisStatus, TelemetryEvent, DynamicAnalysisStatus-discrete, telemetry_machine,
}

pub data ScanFailureKind : Type 0 where
  transient permanent : ScanFailureKind

pub record StuckRow (S : Type 0) : Type 0 where
  pub id : ℕ
  pub status : S
  pub since : Option ℕ
  pub error_message : Option String
  pub failure_kind : Option ScanFailureKind
  pub completed_at : Option ℕ

abbrev pub status_column : {S : Type 0} → Field (StuckRow S) S
status_column = record {
  get = λ row. value row.status;
  set = λ s row. record row { status = s };
  get-set = λ s row. refl;
}

-- `STUCK_AFTER_MINUTES` before `now`.
unfoldable pub cutoff_at : ℕ → ℕ
cutoff_at now = now - 30 * 60 * 1000000

-- A comparison with NULL is not true.
abbrev pub is_before : ℕ → Option ℕ → Bool
is_before cutoff none = false
is_before cutoff (some t) = ltb t cutoff

-- The query's `where` clauses.
unfoldable pub is_stuck : {S : Type 0} → (S → Bool) → ℕ → StuckRow S → Bool
is_stuck in_transit cutoff row = in_transit row.status && is_before cutoff row.since

abbrev pub Swept : Type 0 → Type 0
Swept S = Result (List (StuckRow S) × ℕ)

-- The rows of the table behind the loop, and how many it swept.
abbrev prepend : {S : Type 0} → StuckRow S → ℕ → Swept S → Swept S
prepend row n (ok (rows, count)) = ok (row ∷ rows, count + n)
prepend row n (raise e) = raise e

abbrev prepend_swept :
    {S : Type 0} → (StuckRow S → StuckRow S) → StuckRow S × Result (Column S) → Swept S → Swept S
prepend_swept change (row, ok _) rest = prepend (change row) 1 rest
prepend_swept change (row, raise e) rest = raise e

module _ {S E : Type 0} {d : Discrete S} (engine : Engine d) (machine : Machine S E) (swept : E)
    (in_transit : S → Bool) (cutoff : ℕ) (change : StuckRow S → StuckRow S) where
  unfoldable pub sweep_rows : List (StuckRow S) → Swept S
  unfolding is_stuck
  sweep_rows [] = ok ([], 0)
  sweep_rows (row ∷ rows) =
      let rest = sweep_rows rows in
      if is_stuck in_transit cutoff row
      then prepend_swept change (advance engine machine status_column row swept) rest
      else prepend row 0 rest

abbrev pub analysis_message : String
analysis_message = "Timed out: the analysis worker was interrupted before completion"

abbrev pub fix_message : String
fix_message = "Timed out: the fix worker was interrupted before completion"

abbrev pub scan_message : String
scan_message = "Timed out: the scan worker was interrupted before completion"

abbrev pub time_out_analysis : ℕ → StuckRow ScanStatus → StuckRow ScanStatus
time_out_analysis now row = record row {
  error_message = some analysis_message;
  failure_kind = some ScanFailureKind.transient;
  completed_at = some now;
}

abbrev pub time_out_fix : StuckRow FixStatus → StuckRow FixStatus
time_out_fix row = record row { error_message = some fix_message }

abbrev pub time_out_telemetry : StuckRow DynamicAnalysisStatus → StuckRow DynamicAnalysisStatus
time_out_telemetry row = row

abbrev pub time_out_scan : StuckRow ScanStatus → StuckRow ScanStatus
time_out_scan row = record row {
  error_message = some scan_message;
  failure_kind = some ScanFailureKind.transient;
}

abbrev pub scan_in_transit : ScanStatus → Bool
scan_in_transit ScanStatus.queued = true
scan_in_transit ScanStatus.running = true
scan_in_transit _ = false

abbrev pub telemetry_in_transit : DynamicAnalysisStatus → Bool
telemetry_in_transit DynamicAnalysisStatus.queued = true
telemetry_in_transit DynamicAnalysisStatus.running = true
telemetry_in_transit _ = false

abbrev pub fix_in_transit : FixStatus → Bool
fix_in_transit FixStatus.pending = true
fix_in_transit FixStatus.generating = true
fix_in_transit FixStatus.delivering = true
fix_in_transit _ = false

pub record Tables : Type 0 where
  pub workflow_scans : List (StuckRow ScanStatus)
  pub workflow_fixes : List (StuckRow FixStatus)
  pub telemetry_runs : List (StuckRow DynamicAnalysisStatus)
  pub docker_scans : List (StuckRow ScanStatus)
  pub terraform_scans : List (StuckRow ScanStatus)
  pub ansible_scans : List (StuckRow ScanStatus)
  pub cloud_scans : List (StuckRow ScanStatus)

pub record Counts : Type 0 where
  pub swept_analyses : ℕ
  pub swept_fixes : ℕ
  pub swept_telemetry : ℕ
  pub swept_scans : ℕ

pub record Engines : Type 0 where
  pub scans : Engine ScanStatus-discrete
  pub fixes : Engine FixStatus-discrete
  pub telemetry : Engine DynamicAnalysisStatus-discrete

abbrev and_then : {A B : Type 0} → Result A → (A → Result B) → Result B
and_then (ok a) k = k a
and_then (raise e) k = raise e

unfoldable pub sweep_scans : Engines → ℕ → List (StuckRow ScanStatus) → Swept ScanStatus
unfolding sweep_rows
sweep_scans engines cutoff rows =
    sweep_rows engines.scans scan_machine ScanEvent.swept scan_in_transit cutoff time_out_scan rows

unfoldable pub sweep_analyses : Engines → ℕ → ℕ → List (StuckRow ScanStatus) → Swept ScanStatus
unfolding sweep_rows
sweep_analyses engines now cutoff rows =
    sweep_rows engines.scans scan_machine ScanEvent.swept scan_in_transit cutoff
      (time_out_analysis now) rows

unfoldable pub sweep_fixes : Engines → ℕ → List (StuckRow FixStatus) → Swept FixStatus
unfolding sweep_rows
sweep_fixes engines cutoff rows =
    sweep_rows engines.fixes fix_machine FixEvent.swept fix_in_transit cutoff time_out_fix rows

unfoldable pub sweep_telemetry :
    Engines → ℕ → List (StuckRow DynamicAnalysisStatus) → Swept DynamicAnalysisStatus
unfolding sweep_rows
sweep_telemetry engines cutoff rows =
    sweep_rows engines.telemetry telemetry_machine TelemetryEvent.swept telemetry_in_transit cutoff
      time_out_telemetry rows

unfoldable pub sweep_stuck_states : Engines → ℕ → Tables → Result (Tables × Counts)
unfolding sweep_scans sweep_analyses sweep_fixes sweep_telemetry cutoff_at
sweep_stuck_states engines now tables =
    let cutoff = cutoff_at now in
    and_then (sweep_analyses engines now cutoff tables.workflow_scans) (λ (analyses, a).
      and_then (sweep_fixes engines cutoff tables.workflow_fixes) (λ (fixes, f).
        and_then (sweep_telemetry engines cutoff tables.telemetry_runs) (λ (runs, t).
          and_then (sweep_scans engines cutoff tables.docker_scans) (λ (docker, s).
            and_then (sweep_scans engines cutoff tables.terraform_scans) (λ (terraform, s').
              and_then (sweep_scans engines cutoff tables.ansible_scans) (λ (ansible, s'').
                and_then (sweep_scans engines cutoff tables.cloud_scans) (λ (cloud, s'''). ok (
                  record {
                    workflow_scans = analyses;
                    workflow_fixes = fixes;
                    telemetry_runs = runs;
                    docker_scans = docker;
                    terraform_scans = terraform;
                    ansible_scans = ansible;
                    cloud_scans = cloud;
                  },
                  record {
                    swept_analyses = a;
                    swept_fixes = f;
                    swept_telemetry = t;
                    swept_scans = s + s' + s'' + s''';
                  },
                ))))))))
