-- ===== src/StateMachines/Telemetry/Graph.antt =====
-- The graph that backend/app/services/state_machines/telemetry.py declares.
use greensecops.Common.{◌≡◌, refl, true, false, none, some, arith}
use greensecops.StateMachines.Base.{next_state, Reach, here, after, IsWellFormed}
use greensecops.StateMachines.Telemetry.{
  DynamicAnalysisStatus, queued, running, enriched, failed, TelemetryEvent, started, enrich, retry,
  swept, DynamicAnalysisStatus-discrete, telemetry_machine,
}

-- Opens what the graph computes with.
computed : Unit {0}
unfolding next_state telemetry_machine DynamicAnalysisStatus-discrete
computed = tt

telemetry_connected :
    (s : DynamicAnalysisStatus) → Reach DynamicAnalysisStatus-discrete telemetry_machine queued s
unfolding computed
telemetry_connected queued = here
telemetry_connected running = after here started refl
telemetry_connected enriched = after (after here started refl) enrich refl
telemetry_connected failed = after here swept refl

telemetry_final_stuck :
    (s : DynamicAnalysisStatus) (e : TelemetryEvent)
    → telemetry_machine.final s ≡ true
    → next_state DynamicAnalysisStatus-discrete telemetry_machine e s ≡ none
unfolding computed
telemetry_final_stuck s e h = ground arith

telemetry_live :
    (s : DynamicAnalysisStatus)
    → telemetry_machine.final s ≡ false
    → (e : TelemetryEvent) × (t : DynamicAnalysisStatus) × (next_state
          DynamicAnalysisStatus-discrete telemetry_machine e s
        ≡ some t)
unfolding computed
telemetry_live queued h = (started, running, refl)
telemetry_live running h = (enrich, enriched, refl)
telemetry_live enriched h = cc
telemetry_live failed h = (retry, queued, refl)

-- Every state is reachable from the initial one, a final state refuses every event, and every
-- other state has an event that is legal in it.
pub telemetry_machine-IsWellFormed : IsWellFormed DynamicAnalysisStatus-discrete telemetry_machine
unfolding computed
telemetry_machine-IsWellFormed = record {
  connected = telemetry_connected;
  final_stuck = telemetry_final_stuck;
  live = telemetry_live;
}
