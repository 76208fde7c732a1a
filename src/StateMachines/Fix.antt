-- ===== src/StateMachines/Fix.antt =====
-- backend/app/services/state_machines/fix.py and `FixStatus` of backend/app/models/enums.py.
pub mod Graph
pub mod Delivery
use greensecops.Common.{Bool, true, false, List, [], ◌∷◌, Option, none, some}
use greensecops.StateMachines.Base.{Machine}
use greensecops.StateMachines.Signals.{
  SseSignal, fix_generating, fix_ready, fix_failed, fix_delivering, fix_delivered, fix_rejected,
  fix_pending, fix_landed,
}

pub data FixStatus : Type 0 where
  pending generating ready delivering delivered failed rejected_by_user : FixStatus
  superseded_by_closed_pr superseded_by_deleted_file landed no_op : FixStatus

pub data FixEvent : Type 0 where
  start_generation generation_succeeded generation_failed mark_ready start_delivery : FixEvent
  precheck_failed precheck_no_op delivery_succeeded delivery_failed : FixEvent
  supersede_closed_pr supersede_deleted_file reject restore regenerate land swept : FixEvent

unfoldable pub FixStatus-discrete : Discrete FixStatus
FixStatus-discrete = hlevel

-- Membership of the frozensets.
unfoldable pub in_flight_statuses : FixStatus → Bool
in_flight_statuses pending = true
in_flight_statuses generating = true
in_flight_statuses delivering = true
in_flight_statuses _ = false

unfoldable pub rejected_statuses : FixStatus → Bool
rejected_statuses rejected_by_user = true
rejected_statuses superseded_by_closed_pr = true
rejected_statuses superseded_by_deleted_file = true
rejected_statuses no_op = true
rejected_statuses _ = false

unfoldable pub delivered_fix_statuses : FixStatus → Bool
delivered_fix_statuses delivered = true
delivered_fix_statuses landed = true
delivered_fix_statuses superseded_by_closed_pr = true
delivered_fix_statuses _ = false

abbrev pub fix_final : FixStatus → Bool
fix_final rejected_by_user = true
fix_final landed = true
fix_final no_op = true
fix_final _ = false

abbrev pub fix_transitions : FixEvent → List (FixStatus × FixStatus)
fix_transitions start_generation = (pending, generating) ∷ []
fix_transitions generation_succeeded = (generating, ready) ∷ []
fix_transitions generation_failed = (generating, failed) ∷ []
fix_transitions mark_ready = (ready, ready) ∷ (delivered, ready) ∷ []
fix_transitions start_delivery = (ready, delivering) ∷ []
fix_transitions precheck_failed = (ready, failed) ∷ []
fix_transitions precheck_no_op = (ready, no_op) ∷ []
fix_transitions delivery_succeeded = (delivering, delivered) ∷ []
fix_transitions delivery_failed = (delivering, failed) ∷ []
fix_transitions supersede_closed_pr =
    (ready, superseded_by_closed_pr) ∷ (delivered, superseded_by_closed_pr) ∷ []
fix_transitions supersede_deleted_file =
    (pending, superseded_by_deleted_file)
    ∷ (generating, superseded_by_deleted_file)
    ∷ (ready, superseded_by_deleted_file)
    ∷ (delivering, superseded_by_deleted_file)
    ∷ (delivered, superseded_by_deleted_file)
    ∷ []
fix_transitions reject =
    (pending, rejected_by_user)
    ∷ (generating, rejected_by_user)
    ∷ (ready, rejected_by_user)
    ∷ (delivering, rejected_by_user)
    ∷ (delivered, rejected_by_user)
    ∷ (superseded_by_closed_pr, rejected_by_user)
    ∷ (superseded_by_deleted_file, rejected_by_user)
    ∷ []
fix_transitions restore =
    (superseded_by_closed_pr, ready) ∷ (superseded_by_deleted_file, ready) ∷ []
fix_transitions regenerate = (failed, pending) ∷ []
fix_transitions land = (delivered, landed) ∷ []
fix_transitions swept = (pending, failed) ∷ (generating, failed) ∷ (delivering, failed) ∷ []

-- `precheck_no_op` has no entry, and `dict.get` answers `None`.
abbrev pub fix_outputs : FixEvent → Option SseSignal
fix_outputs start_generation = some fix_generating
fix_outputs generation_succeeded = some fix_ready
fix_outputs generation_failed = some fix_failed
fix_outputs mark_ready = none
fix_outputs start_delivery = some fix_delivering
fix_outputs precheck_failed = some fix_failed
fix_outputs precheck_no_op = none
fix_outputs delivery_succeeded = some fix_delivered
fix_outputs delivery_failed = some fix_failed
fix_outputs supersede_closed_pr = some fix_rejected
fix_outputs supersede_deleted_file = some fix_rejected
fix_outputs reject = some fix_rejected
fix_outputs restore = none
fix_outputs regenerate = some fix_pending
fix_outputs land = some fix_landed
fix_outputs swept = some fix_failed

unfoldable pub fix_machine : Machine FixStatus FixEvent
fix_machine = record {
  initial = pending;
  final = fix_final;
  transitions = fix_transitions;
  outputs = fix_outputs;
}
