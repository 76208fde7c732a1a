-- ===== src/StateMachines/CloudAccount.antt =====
-- backend/app/services/state_machines/cloud_account.py and `CloudAccountStatus` of backend/app/models/enums.py.
pub mod Graph
use greensecops.Common.{Bool, true, false, List, [], ◌∷◌, Option, none, some}
use greensecops.StateMachines.Base.{Machine}
use greensecops.StateMachines.Signals.{SseSignal}

pub data CloudAccountStatus : Type 0 where
  pending_verification connected error disabled : CloudAccountStatus

pub data CloudAccountEvent : Type 0 where
  verify verification_failed disable enable : CloudAccountEvent

unfoldable pub CloudAccountStatus-discrete : Discrete CloudAccountStatus
CloudAccountStatus-discrete = hlevel

abbrev pub cloud_account_final : CloudAccountStatus → Bool
cloud_account_final _ = false

abbrev pub cloud_account_transitions :
    CloudAccountEvent → List (CloudAccountStatus × CloudAccountStatus)
cloud_account_transitions verify = (pending_verification, connected) ∷ (error, connected) ∷ []
cloud_account_transitions verification_failed =
    (pending_verification, error) ∷ (connected, error) ∷ []
cloud_account_transitions disable =
    (pending_verification, disabled) ∷ (connected, disabled) ∷ (error, disabled) ∷ []
cloud_account_transitions enable = (disabled, pending_verification) ∷ []

abbrev pub cloud_account_outputs : CloudAccountEvent → Option SseSignal
cloud_account_outputs _ = none

unfoldable pub cloud_account_machine : Machine CloudAccountStatus CloudAccountEvent
cloud_account_machine = record {
  initial = pending_verification;
  final = cloud_account_final;
  transitions = cloud_account_transitions;
  outputs = cloud_account_outputs;
}
