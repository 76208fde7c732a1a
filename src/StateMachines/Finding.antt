-- ===== src/StateMachines/Finding.antt =====
-- backend/app/services/state_machines/finding.py and `FindingStatus` of backend/app/models/enums.py. `opened` is the source's `open`.
pub mod Graph
use greensecops.Common.{Bool, true, false, List, [], ◌∷◌, Option, none, some}
use greensecops.StateMachines.Base.{Machine}
use greensecops.StateMachines.Signals.{SseSignal}

pub data FindingStatus : Type 0 where
  opened fix_in_progress resolved ignored : FindingStatus

pub data FindingEvent : Type 0 where
  link_fix unlink_fix resolve recur ignore unignore : FindingEvent

unfoldable pub FindingStatus-discrete : Discrete FindingStatus
FindingStatus-discrete = hlevel

abbrev pub finding_final : FindingStatus → Bool
finding_final _ = false

abbrev pub finding_transitions : FindingEvent → List (FindingStatus × FindingStatus)
finding_transitions link_fix = (opened, fix_in_progress) ∷ []
finding_transitions unlink_fix = (fix_in_progress, opened) ∷ []
finding_transitions resolve = (opened, resolved) ∷ (fix_in_progress, resolved) ∷ []
finding_transitions recur = (resolved, opened) ∷ []
finding_transitions ignore = (opened, ignored) ∷ (fix_in_progress, ignored) ∷ []
finding_transitions unignore = (ignored, opened) ∷ []

abbrev pub finding_outputs : FindingEvent → Option SseSignal
finding_outputs _ = none

unfoldable pub finding_machine : Machine FindingStatus FindingEvent
finding_machine = record {
  initial = opened;
  final = finding_final;
  transitions = finding_transitions;
  outputs = finding_outputs;
}
