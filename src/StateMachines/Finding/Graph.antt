-- ===== src/StateMachines/Finding/Graph.antt =====
-- The graph that backend/app/services/state_machines/finding.py declares.
use greensecops.Common.{◌≡◌, refl, true, false, none, some, arith}
use greensecops.StateMachines.Base.{next_state, Reach, here, after, IsWellFormed}
use greensecops.StateMachines.Finding.{
  FindingStatus, opened, fix_in_progress, resolved, ignored, FindingEvent, link_fix, unlink_fix,
  resolve, recur, ignore, unignore, FindingStatus-discrete, finding_machine,
}

-- Opens what the graph computes with.
computed : Unit {0}
unfolding next_state finding_machine FindingStatus-discrete
computed = tt

finding_connected : (s : FindingStatus) → Reach FindingStatus-discrete finding_machine opened s
unfolding computed
finding_connected opened = here
finding_connected fix_in_progress = after here link_fix refl
finding_connected resolved = after here resolve refl
finding_connected ignored = after here ignore refl

finding_final_stuck :
    (s : FindingStatus) (e : FindingEvent)
    → finding_machine.final s ≡ true
    → next_state FindingStatus-discrete finding_machine e s ≡ none
unfolding computed
finding_final_stuck s e h = ground arith

finding_live :
    (s : FindingStatus)
    → finding_machine.final s ≡ false
    → (e : FindingEvent) × (t : FindingStatus) × (next_state FindingStatus-discrete finding_machine
          e s
        ≡ some t)
unfolding computed
finding_live opened h = (link_fix, fix_in_progress, refl)
finding_live fix_in_progress h = (unlink_fix, opened, refl)
finding_live resolved h = (recur, opened, refl)
finding_live ignored h = (unignore, opened, refl)

-- Every state is reachable from the initial one, a final state refuses every event, and every
-- other state has an event that is legal in it.
pub finding_machine-IsWellFormed : IsWellFormed FindingStatus-discrete finding_machine
unfolding computed
finding_machine-IsWellFormed = record {
  connected = finding_connected;
  final_stuck = finding_final_stuck;
  live = finding_live;
}
