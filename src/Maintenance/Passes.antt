-- ===== src/Maintenance/Passes.antt =====
-- The sweep of all tables.
use greensecops.Maintenance.Sweeps.{settle_all, stuck_count, sweep_rows_lem}
use greensecops.Maintenance.{
  is_stuck, ScanFailureKind, Counts, Engines, StuckRow, Tables, cutoff_at, fix_in_transit,
  scan_in_transit, sweep_analyses, sweep_fixes, sweep_scans, sweep_stuck_states, sweep_telemetry,
  telemetry_in_transit, time_out_analysis, time_out_fix, time_out_scan, time_out_telemetry,
}
use greensecops.Common.{
  Bool, false, Option, none, Option-cases, inl, inr, ltb, ◌&&◌, List, arith, refl, some, true, ℕ,
  ◌+◌, ◌≡◌,
}
use greensecops.StateMachines.Base.{next_state, ok}
use greensecops.StateMachines.Scan.{ScanStatus, ScanEvent, ScanStatus-discrete, scan_machine}
use greensecops.StateMachines.Fix.{FixStatus, FixEvent, FixStatus-discrete, fix_machine}
use greensecops.StateMachines.Telemetry.{
  DynamicAnalysisStatus, TelemetryEvent, DynamicAnalysisStatus-discrete, telemetry_machine,
}

scan_legal :
    (s : ScanStatus)
    → scan_in_transit s ≡ true
    → next_state ScanStatus-discrete scan_machine ScanEvent.swept s ≡ some ScanStatus.failed
unfolding next_state scan_machine ScanStatus-discrete
scan_legal s h = ground arith

fix_legal :
    (s : FixStatus)
    → fix_in_transit s ≡ true
    → next_state FixStatus-discrete fix_machine FixEvent.swept s ≡ some FixStatus.failed
unfolding next_state fix_machine FixStatus-discrete
fix_legal s h = ground arith

telemetry_legal :
    (s : DynamicAnalysisStatus)
    → telemetry_in_transit s ≡ true
    → next_state DynamicAnalysisStatus-discrete telemetry_machine TelemetryEvent.swept s
      ≡ some DynamicAnalysisStatus.failed
unfolding next_state telemetry_machine DynamicAnalysisStatus-discrete
telemetry_legal s h = ground arith

-- Thirty minutes and more have gone by since the instant.
abbrev pub is_overdue : ℕ → Option ℕ → Bool
is_overdue now none = false
is_overdue now (some since) = ltb (since + 1800000000) now

-- A worker holds a scan, or is to take it.
abbrev pub scan_waits : ScanStatus → Bool
scan_waits ScanStatus.queued = true
scan_waits ScanStatus.running = true
scan_waits ScanStatus.completed = false
scan_waits ScanStatus.failed = false
scan_waits ScanStatus.no_targets = false

abbrev pub telemetry_waits : DynamicAnalysisStatus → Bool
telemetry_waits DynamicAnalysisStatus.queued = true
telemetry_waits DynamicAnalysisStatus.running = true
telemetry_waits DynamicAnalysisStatus.enriched = false
telemetry_waits DynamicAnalysisStatus.failed = false

abbrev pub fix_waits : FixStatus → Bool
fix_waits FixStatus.pending = true
fix_waits FixStatus.generating = true
fix_waits FixStatus.ready = false
fix_waits FixStatus.delivering = true
fix_waits FixStatus.delivered = false
fix_waits FixStatus.failed = false
fix_waits FixStatus.rejected_by_user = false
fix_waits FixStatus.superseded_by_closed_pr = false
fix_waits FixStatus.superseded_by_deleted_file = false
fix_waits FixStatus.landed = false
fix_waits FixStatus.no_op = false

abbrev pub timed_out : {S : Type 0} → (S → Bool) → ℕ → StuckRow S → Bool
timed_out waits now row = waits row.status && is_overdue now row.since

abbrev pub failed_analysis : ℕ → StuckRow ScanStatus → StuckRow ScanStatus
failed_analysis now row = record row {
  status = ScanStatus.failed;
  error_message = some "Timed out: the analysis worker was interrupted before completion";
  failure_kind = some ScanFailureKind.transient;
  completed_at = some now;
}

abbrev pub failed_fix : StuckRow FixStatus → StuckRow FixStatus
failed_fix row = record row {
  status = FixStatus.failed;
  error_message = some "Timed out: the fix worker was interrupted before completion";
}

abbrev pub failed_telemetry : StuckRow DynamicAnalysisStatus → StuckRow DynamicAnalysisStatus
failed_telemetry row = record row { status = DynamicAnalysisStatus.failed }

abbrev pub failed_scan : StuckRow ScanStatus → StuckRow ScanStatus
failed_scan row = record row {
  status = ScanStatus.failed;
  error_message = some "Timed out: the scan worker was interrupted before completion";
  failure_kind = some ScanFailureKind.transient;
}

stuck_lem :
    {S : Type 0} (in_transit waits : S → Bool) (now : ℕ)
    → ((s : S) → in_transit s ≡ waits s)
    → (row : StuckRow S) → is_stuck in_transit (cutoff_at now) row ≡ timed_out waits now row
unfolding is_stuck cutoff_at
stuck_lem in_transit waits now same row = elim (Option-cases row.since) [
  | inl e ↦ ground (arith, e, same row.status)
  | inr (t, e) ↦ ground (arith, e, same row.status)
]

scan_same : (s : ScanStatus) → scan_in_transit s ≡ scan_waits s
scan_same s = ground arith

telemetry_same : (s : DynamicAnalysisStatus) → telemetry_in_transit s ≡ telemetry_waits s
telemetry_same s = ground arith

fix_same : (s : FixStatus) → fix_in_transit s ≡ fix_waits s
fix_same s = ground arith

abbrev settled_scans : ℕ → List (StuckRow ScanStatus) → List (StuckRow ScanStatus)
unfolding settle_all
settled_scans now = settle_all (timed_out scan_waits now) failed_scan

-- The tables with every timed-out row failed.
unfoldable pub settled : ℕ → Tables → Tables
unfolding settle_all settled_scans
settled now tables = record {
  workflow_scans =
      settle_all (timed_out scan_waits now) (failed_analysis now) tables.workflow_scans;
  workflow_fixes = settle_all (timed_out fix_waits now) failed_fix tables.workflow_fixes;
  telemetry_runs =
      settle_all (timed_out telemetry_waits now) failed_telemetry tables.telemetry_runs;
  docker_scans = settled_scans now tables.docker_scans;
  terraform_scans = settled_scans now tables.terraform_scans;
  ansible_scans = settled_scans now tables.ansible_scans;
  cloud_scans = settled_scans now tables.cloud_scans;
}

abbrev scans_stuck : ℕ → List (StuckRow ScanStatus) → ℕ
unfolding stuck_count
scans_stuck now = stuck_count (timed_out scan_waits now) failed_scan

-- How many rows of each kind have timed out.
unfoldable pub stuck_counts : ℕ → Tables → Counts
unfolding stuck_count scans_stuck
stuck_counts now tables = record {
  swept_analyses =
      stuck_count (timed_out scan_waits now) (failed_analysis now) tables.workflow_scans;
  swept_fixes = stuck_count (timed_out fix_waits now) failed_fix tables.workflow_fixes;
  swept_telemetry =
      stuck_count (timed_out telemetry_waits now) failed_telemetry tables.telemetry_runs;
  swept_scans =
      scans_stuck now tables.docker_scans
      + scans_stuck now tables.terraform_scans
      + scans_stuck now tables.ansible_scans
      + scans_stuck now tables.cloud_scans;
}

module _ (engines : Engines) (now : ℕ) where
  scans_lem :
      (rows : List (StuckRow ScanStatus))
      → sweep_scans engines (cutoff_at now) rows ≡ ok (settled_scans now rows, scans_stuck now rows)
  unfolding sweep_scans settled_scans scans_stuck
  scans_lem rows =
      sweep_rows_lem engines.scans scan_machine ScanEvent.swept scan_in_transit ScanStatus.failed
        (cutoff_at now) time_out_scan scan_legal (timed_out scan_waits now)
        (stuck_lem scan_in_transit scan_waits now scan_same) rows

  -- The sweep never raises. It fails exactly the rows that stand as queued, pending, running,
  -- generating or delivering and were created, or collected, more than thirty minutes before `now`: a
  -- scan or a fix with its message, a scan as a transient failure, a workflow analysis as completed now.
  -- It leaves every other row, and reports how many rows of each kind it failed.
  pub sweep_stuck_states_lem :
      (tables : Tables)
      → sweep_stuck_states engines now tables ≡ ok (settled now tables, stuck_counts now tables)
  unfolding sweep_stuck_states settled stuck_counts sweep_analyses sweep_fixes sweep_telemetry
  sweep_stuck_states_lem tables =
      rw
        (
          sweep_rows_lem engines.scans scan_machine ScanEvent.swept scan_in_transit
              ScanStatus.failed (cutoff_at now) (time_out_analysis now) scan_legal
              (timed_out scan_waits now) (stuck_lem scan_in_transit scan_waits now scan_same)
              tables.workflow_scans,
          sweep_rows_lem engines.fixes fix_machine FixEvent.swept fix_in_transit FixStatus.failed
              (cutoff_at now) time_out_fix fix_legal (timed_out fix_waits now)
              (stuck_lem fix_in_transit fix_waits now fix_same) tables.workflow_fixes,
          sweep_rows_lem engines.telemetry telemetry_machine TelemetryEvent.swept
              telemetry_in_transit DynamicAnalysisStatus.failed (cutoff_at now) time_out_telemetry
              telemetry_legal (timed_out telemetry_waits now)
              (stuck_lem telemetry_in_transit telemetry_waits now telemetry_same)
              tables.telemetry_runs,
          scans_lem tables.docker_scans,
          scans_lem tables.terraform_scans,
          scans_lem tables.ansible_scans,
          scans_lem tables.cloud_scans,
        )
        refl
