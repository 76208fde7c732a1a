-- ===== src/StateMachines/Repository.antt =====
-- backend/app/services/state_machines/repository.py and `RepositoryStatus` of backend/app/models/enums.py.
pub mod Graph
pub mod Access
use greensecops.Common.{refl, Bool, true, false, List, [], ◌∷◌, Option, none, some}
use greensecops.StateMachines.Base.{Machine, Column, value, Field}
use greensecops.StateMachines.Signals.{
  SseSignal, repository_archived, repository_inaccessible, repository_restored,
  repository_suspended,
}

pub data RepositoryStatus : Type 0 where
  active suspended archived inaccessible : RepositoryStatus

pub data RepositoryEvent : Type 0 where
  suspend unsuspend archive unarchive lose_access regain_access : RepositoryEvent

unfoldable pub RepositoryStatus-discrete : Discrete RepositoryStatus
RepositoryStatus-discrete = hlevel

abbrev pub repository_final : RepositoryStatus → Bool
repository_final _ = false

abbrev pub repository_transitions : RepositoryEvent → List (RepositoryStatus × RepositoryStatus)
repository_transitions suspend = (active, suspended) ∷ []
repository_transitions unsuspend = (suspended, active) ∷ []
repository_transitions archive = (active, archived) ∷ []
repository_transitions unarchive = (archived, active) ∷ []
repository_transitions lose_access =
    (active, inaccessible) ∷ (suspended, inaccessible) ∷ (archived, inaccessible) ∷ []
repository_transitions regain_access = (inaccessible, active) ∷ []

abbrev pub repository_outputs : RepositoryEvent → Option SseSignal
repository_outputs suspend = some repository_suspended
repository_outputs unsuspend = some repository_restored
repository_outputs archive = some repository_archived
repository_outputs unarchive = some repository_restored
repository_outputs lose_access = some repository_inaccessible
repository_outputs regain_access = some repository_restored

unfoldable pub repository_machine : Machine RepositoryStatus RepositoryEvent
repository_machine = record {
  initial = active;
  final = repository_final;
  transitions = repository_transitions;
  outputs = repository_outputs;
}

-- The columns of a repository that the machine and its flag touch.
pub record AccessRow : Type 0 where
  pub status : Column RepositoryStatus
  pub is_accessible : Bool

abbrev pub status_field : Field AccessRow RepositoryStatus
status_field = record {
  get = λ repo. repo.status;
  set = λ s repo. record repo { status = value s };
  get-set = λ s repo. refl;
}

abbrev pub is_active : Column RepositoryStatus → Bool
is_active (value active) = true
is_active _ = false

unfoldable pub sync_access_flag : AccessRow → AccessRow
sync_access_flag repo = record repo { is_accessible = is_active repo.status }
