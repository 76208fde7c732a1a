-- ===== src/StateMachines/Scan.antt =====
-- backend/app/services/state_machines/scan.py and `ScanStatus` of backend/app/models/enums.py.
pub mod Graph
use greensecops.Common.{Bool, true, false, List, [], ◌∷◌, Option, none, some}
use greensecops.StateMachines.Base.{Machine}
use greensecops.StateMachines.Signals.{
  SseSignal, analysis_completed, analysis_failed, analysis_no_workflows, analysis_queued,
  analysis_started,
}

pub data ScanStatus : Type 0 where
  queued running completed failed no_targets : ScanStatus

pub data ScanEvent : Type 0 where
  started succeeded scan_failed no_targets_found swept retry : ScanEvent

unfoldable pub ScanStatus-discrete : Discrete ScanStatus
ScanStatus-discrete = hlevel

abbrev pub scan_final : ScanStatus → Bool
scan_final completed = true
scan_final no_targets = true
scan_final _ = false

abbrev pub scan_transitions : ScanEvent → List (ScanStatus × ScanStatus)
scan_transitions started = (queued, running) ∷ []
scan_transitions succeeded = (running, completed) ∷ []
scan_transitions scan_failed = (running, failed) ∷ []
scan_transitions no_targets_found = (running, no_targets) ∷ []
scan_transitions swept = (queued, failed) ∷ (running, failed) ∷ []
scan_transitions retry = (failed, queued) ∷ []

abbrev pub scan_outputs : ScanEvent → Option SseSignal
scan_outputs started = some analysis_started
scan_outputs succeeded = some analysis_completed
scan_outputs scan_failed = some analysis_failed
scan_outputs no_targets_found = some analysis_no_workflows
scan_outputs swept = some analysis_failed
scan_outputs retry = some analysis_queued

unfoldable pub scan_machine : Machine ScanStatus ScanEvent
scan_machine = record {
  initial = queued;
  final = scan_final;
  transitions = scan_transitions;
  outputs = scan_outputs;
}
