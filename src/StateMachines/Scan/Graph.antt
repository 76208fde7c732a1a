-- ===== src/StateMachines/Scan/Graph.antt =====
-- The graph that backend/app/services/state_machines/scan.py declares.
use greensecops.Common.{◌≡◌, refl, true, false, none, some, arith}
use greensecops.StateMachines.Base.{next_state, Reach, here, after, IsWellFormed}
use greensecops.StateMachines.Scan.{
  ScanStatus, queued, running, completed, failed, no_targets, ScanEvent, started, succeeded,
  no_targets_found, swept, retry, ScanStatus-discrete, scan_machine,
}

-- Opens what the graph computes with.
computed : Unit {0}
unfolding next_state scan_machine ScanStatus-discrete
computed = tt

scan_connected : (s : ScanStatus) → Reach ScanStatus-discrete scan_machine queued s
unfolding computed
scan_connected queued = here
scan_connected running = after here started refl
scan_connected completed = after (after here started refl) succeeded refl
scan_connected failed = after here swept refl
scan_connected no_targets = after (after here started refl) no_targets_found refl

scan_final_stuck :
    (s : ScanStatus) (e : ScanEvent)
    → scan_machine.final s ≡ true
    → next_state ScanStatus-discrete scan_machine e s ≡ none
unfolding computed
scan_final_stuck s e h = ground arith

scan_live :
    (s : ScanStatus)
    → scan_machine.final s ≡ false
    → (e : ScanEvent) × (t : ScanStatus) × (next_state ScanStatus-discrete scan_machine e s
        ≡ some t)
unfolding computed
scan_live queued h = (started, running, refl)
scan_live running h = (succeeded, completed, refl)
scan_live completed h = cc
scan_live failed h = (retry, queued, refl)
scan_live no_targets h = cc

-- Every state is reachable from the initial one, a final state refuses every event, and every
-- other state has an event that is legal in it.
pub scan_machine-IsWellFormed : IsWellFormed ScanStatus-discrete scan_machine
unfolding computed
scan_machine-IsWellFormed = record {
  connected = scan_connected;
  final_stuck = scan_final_stuck;
  live = scan_live;
}
