-- ===== src/Tests/Machines.antt =====
-- The state machines at concrete inputs.
use greensecops.Common.{◌≡◌, ◌↔◌, ◌⊎◌, refl, false, List, [], ◌∷◌, Option, none, some, Memᴰ}
use greensecops.StateMachines.Base.{Column, value, Engine, try_advance, try_all, first_target}
use greensecops.StateMachines.Fix.{FixStatus, FixEvent, FixStatus-discrete, fix_machine}
use greensecops.StateMachines.Fix.Delivery.{landed_was_delivered}
use greensecops.StateMachines.Scan.{ScanStatus}
use greensecops.StateMachines.Repository.{
  RepositoryStatus, RepositoryEvent, RepositoryStatus-discrete, repository_machine, AccessRow,
}
use greensecops.StateMachines.Repository.Access.{on_event, on_event-regains}
use greensecops.StateMachines.EngineTarget.{
  TargetActivity, TargetAction, activity_of, blocked_reason,
}
use greensecops.StateMachines.EngineTarget.Blocks.{collides, blocked_reason-collides}
use greensecops.Tests.Samples.{first_engine, whole}

abbrev fix_engine : Engine FixStatus-discrete
fix_engine = first_engine FixStatus-discrete

abbrev ready_fix : Column FixStatus
ready_fix = value FixStatus.ready

abbrev life : List FixEvent
life =
    FixEvent.land ∷ FixEvent.start_generation ∷ FixEvent.generation_succeeded
    ∷ FixEvent.start_delivery ∷ FixEvent.start_delivery ∷ FixEvent.delivery_succeeded
    ∷ FixEvent.land ∷ []

life_lands :
    try_all fix_engine fix_machine whole (value FixStatus.pending) life ≡ value FixStatus.landed
unfolding try_all try_advance fix_machine FixStatus-discrete first_target
life_lands = refl

landed_was_delivered_example :
    Memᴰ FixEvent.start_delivery life
    × Memᴰ FixEvent.delivery_succeeded life
    × Memᴰ FixEvent.land life
landed_was_delivered_example =
    landed_was_delivered fix_engine whole (value FixStatus.pending) life refl life_lands

abbrev archived_repo : AccessRow
archived_repo = record { status = value RepositoryStatus.archived; is_accessible = false }

on_event-regains_example :
    ((RepositoryStatus.archived ≡ RepositoryStatus.suspended)
      × (RepositoryEvent.unarchive ≡ RepositoryEvent.unsuspend))
    ⊎ ((RepositoryStatus.archived ≡ RepositoryStatus.archived)
        × (RepositoryEvent.unarchive ≡ RepositoryEvent.unarchive))
    ⊎ ((RepositoryStatus.archived ≡ RepositoryStatus.inaccessible)
        × (RepositoryEvent.unarchive ≡ RepositoryEvent.regain_access))
unfolding on_event try_advance repository_machine RepositoryStatus-discrete first_target
on_event-regains_example =
    on_event-regains (first_engine RepositoryStatus-discrete) archived_repo
      RepositoryEvent.unarchive RepositoryStatus.archived refl (λ e. cc) refl

abbrev scans : List (Option ScanStatus)
scans = none ∷ some ScanStatus.completed ∷ []

abbrev fixes : List (Option FixStatus)
fixes = some FixStatus.ready ∷ none ∷ some FixStatus.delivering ∷ some FixStatus.pending ∷ []

activity_of-delivering : activity_of scans fixes ≡ TargetActivity.delivering
unfolding activity_of
activity_of-delivering = refl

blocked_reason-collides_example :
    (blocked_reason (activity_of scans fixes) TargetAction.ignore ≡ none)
    ↔ (collides TargetAction.ignore scans fixes ≡ false)
blocked_reason-collides_example = blocked_reason-collides TargetAction.ignore scans fixes
