-- ===== src/StateMachines/Repository/Access.antt =====
-- The access flag of a repository after webhooks.
use greensecops.Common.{◌≡◌, ◌⊎◌, ◌≢◌, true, arith}
use greensecops.StateMachines.Base.{value, Engine, try_advance, next_state, try_advance-next_state}
use greensecops.StateMachines.Repository.{
  RepositoryStatus, active, suspended, archived, inaccessible, RepositoryEvent, unsuspend,
  unarchive, regain_access, RepositoryStatus-discrete, repository_machine, AccessRow, status_field,
  sync_access_flag,
}

-- What a webhook handler does: fire the event if it is legal, then mirror the flag.
unfoldable pub on_event : Engine RepositoryStatus-discrete → AccessRow → RepositoryEvent → AccessRow
unfolding sync_access_flag
on_event engine repo e =
    sync_access_flag (try_advance engine repository_machine status_field repo e).0

-- Each loss of access is undone by its own event: a repository whose state is not active is
-- accessible after an event only if that event is `unsuspend` on a suspended, `unarchive` on an
-- archived or `regain_access` on an inaccessible one.
pub on_event-regains :
    (engine : Engine RepositoryStatus-discrete) (repo : AccessRow) (e : RepositoryEvent)
    (s : RepositoryStatus)
    → repo.status ≡ value s
    → s ≢ active
    → (on_event engine repo e).is_accessible ≡ true
    → ((s ≡ suspended) × (e ≡ unsuspend))
      ⊎ ((s ≡ archived) × (e ≡ unarchive))
      ⊎ ((s ≡ inaccessible) × (e ≡ regain_access))
unfolding on_event next_state repository_machine RepositoryStatus-discrete
on_event-regains engine repo e s h off on =
    ground (arith, try_advance-next_state engine repository_machine status_field repo e s h)
