-- ===== src/StateMachines/Telemetry.antt =====
-- backend/app/services/state_machines/telemetry.py and `DynamicAnalysisStatus` of backend/app/models/enums.py.
pub mod Graph
use greensecops.Common.{Bool, true, false, List, [], ◌∷◌, Option, none, some}
use greensecops.StateMachines.Base.{Machine}
use greensecops.StateMachines.Signals.{
  SseSignal, dynamic_enriched, dynamic_failed, dynamic_queued, dynamic_running,
}

pub data DynamicAnalysisStatus : Type 0 where
  queued running enriched failed : DynamicAnalysisStatus

pub data TelemetryEvent : Type 0 where
  started enrich fail retry swept : TelemetryEvent

unfoldable pub DynamicAnalysisStatus-discrete : Discrete DynamicAnalysisStatus
DynamicAnalysisStatus-discrete = hlevel

abbrev pub telemetry_final : DynamicAnalysisStatus → Bool
telemetry_final enriched = true
telemetry_final _ = false

abbrev pub telemetry_transitions :
    TelemetryEvent → List (DynamicAnalysisStatus × DynamicAnalysisStatus)
telemetry_transitions started = (queued, running) ∷ []
telemetry_transitions enrich = (running, enriched) ∷ []
telemetry_transitions fail = (running, failed) ∷ []
telemetry_transitions retry = (failed, queued) ∷ []
telemetry_transitions swept = (queued, failed) ∷ (running, failed) ∷ []

abbrev pub telemetry_outputs : TelemetryEvent → Option SseSignal
telemetry_outputs started = some dynamic_running
telemetry_outputs enrich = some dynamic_enriched
telemetry_outputs fail = some dynamic_failed
telemetry_outputs retry = some dynamic_queued
telemetry_outputs swept = some dynamic_failed

unfoldable pub telemetry_machine : Machine DynamicAnalysisStatus TelemetryEvent
telemetry_machine = record {
  initial = queued;
  final = telemetry_final;
  transitions = telemetry_transitions;
  outputs = telemetry_outputs;
}
