-- ===== src/Tests/Maintenance.antt =====
-- The sweep at a concrete input.
use greensecops.Maintenance.{is_stuck, Tables, Engines, sweep_stuck_states, StuckRow}
use greensecops.Maintenance.Passes.{stuck_counts, settled, sweep_stuck_states_lem}
use greensecops.Common.{Option, [], none, some, ℕ, ◌∷◌, ◌≡◌}
use greensecops.Tests.Samples.{first_engine}
use greensecops.StateMachines.Base.{ok}
use greensecops.StateMachines.Scan.{ScanStatus, ScanStatus-discrete}
use greensecops.StateMachines.Fix.{FixStatus, FixStatus-discrete}
use greensecops.StateMachines.Telemetry.{DynamicAnalysisStatus, DynamicAnalysisStatus-discrete}

abbrev engines : Engines
engines = record {
  scans = first_engine ScanStatus-discrete;
  fixes = first_engine FixStatus-discrete;
  telemetry = first_engine DynamicAnalysisStatus-discrete;
}

abbrev row : {S : Type 0} → ℕ → S → Option ℕ → StuckRow S
row id status since = record {
  id = id;
  status = status;
  since = since;
  error_message = none;
  failure_kind = none;
  completed_at = none;
}

-- One hour since 1970.
abbrev hour : ℕ
hour = 3600000000

abbrev tables : Tables
tables = record {
  workflow_scans = row 1 ScanStatus.running (some 5) ∷ row 2 ScanStatus.queued (some hour) ∷ [];
  workflow_fixes = row 3 FixStatus.delivering (some 5) ∷ row 4 FixStatus.delivered (some 5) ∷ [];
  telemetry_runs = row 5 DynamicAnalysisStatus.queued none ∷ [];
  docker_scans = row 6 ScanStatus.queued (some 5) ∷ [];
  terraform_scans = [];
  ansible_scans = [];
  cloud_scans = row 7 ScanStatus.running (some 6) ∷ [];
}

sweep_stuck_states_example :
    sweep_stuck_states engines hour tables
    ≡ ok (
      settled hour tables,
      record { swept_analyses = 1; swept_fixes = 1; swept_telemetry = 0; swept_scans = 2 },
    )
unfolding stuck_counts is_stuck
sweep_stuck_states_example = sweep_stuck_states_lem engines hour tables
