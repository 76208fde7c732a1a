-- ===== src/StateMachines/Repository/Graph.antt =====
-- The graph that backend/app/services/state_machines/repository.py declares.
use greensecops.Common.{◌≡◌, refl, true, false, none, some, arith}
use greensecops.StateMachines.Base.{next_state, Reach, here, after, IsWellFormed}
use greensecops.StateMachines.Repository.{
  RepositoryStatus, active, suspended, archived, inaccessible, RepositoryEvent, suspend, unsuspend,
  archive, unarchive, lose_access, regain_access, RepositoryStatus-discrete, repository_machine,
}

-- Opens what the graph computes with.
computed : Unit {0}
unfolding next_state repository_machine RepositoryStatus-discrete
computed = tt

repository_connected :
    (s : RepositoryStatus) → Reach RepositoryStatus-discrete repository_machine active s
unfolding computed
repository_connected active = here
repository_connected suspended = after here suspend refl
repository_connected archived = after here archive refl
repository_connected inaccessible = after here lose_access refl

repository_final_stuck :
    (s : RepositoryStatus) (e : RepositoryEvent)
    → repository_machine.final s ≡ true
    → next_state RepositoryStatus-discrete repository_machine e s ≡ none
unfolding computed
repository_final_stuck s e h = ground arith

repository_live :
    (s : RepositoryStatus)
    → repository_machine.final s ≡ false
    → (e : RepositoryEvent) × (t : RepositoryStatus) × (next_state RepositoryStatus-discrete
          repository_machine e s
        ≡ some t)
unfolding computed
repository_live active h = (suspend, suspended, refl)
repository_live suspended h = (unsuspend, active, refl)
repository_live archived h = (unarchive, active, refl)
repository_live inaccessible h = (regain_access, active, refl)

-- Every state is reachable from the initial one, a final state refuses every event, and every
-- other state has an event that is legal in it.
pub repository_machine-IsWellFormed : IsWellFormed RepositoryStatus-discrete repository_machine
unfolding computed
repository_machine-IsWellFormed = record {
  connected = repository_connected;
  final_stuck = repository_final_stuck;
  live = repository_live;
}
