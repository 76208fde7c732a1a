-- ===== src/Webhooks/Repositories.antt =====
-- backend/app/api/routes/webhooks.py: `repository` events.
use greensecops.Common.{
  Bool, true, false, List, [], ◌∷◌, Option, none, some, ◌||◌, ◌&&◌, not, if◌then◌else◌, Text, codes,
  text_eq,
}
use greensecops.StateMachines.Base.{try_advance, output_for}
use greensecops.StateMachines.Signals.{SseSignal}
use greensecops.StateMachines.Repository.{
  RepositoryEvent, archive, lose_access, unarchive, repository_machine, status_field,
  sync_access_flag,
}
use greensecops.Events.Enums.{manual}
use greensecops.Events.Store.{
  Repository, Event, repository_status_changed, World, Machines, announce, save_repository,
}
use greensecops.Events.Scans.{enqueue_workflow_analysis}
use greensecops.Webhooks.Payload.{Payload, find_repository}

module _ (machines : Machines) where
  -- `try_advance` and `sync_access_flag`, with what the first answers.
  unfoldable pub advance_repository : RepositoryEvent → Repository → Repository × Bool
  unfolding sync_access_flag
  advance_repository event repo =
      let (access, moved) =
        try_advance machines.on_repository repository_machine status_field repo.access event in
      (record repo { access = sync_access_flag access }, moved)

  unfoldable pub status_events : Repository → Bool → Option SseSignal → List Event
  status_events repo false signal = []
  status_events repo true none = []
  status_events repo true (some signal) =
      repository_status_changed repo.org_id (repo.id ∷ []) signal ∷ []

  unfoldable pub move_repository : RepositoryEvent → Bool → Repository → World → World
  unfolding advance_repository status_events announce save_repository output_for
  move_repository event enabled repo w =
      let (moved_repo, moved) = advance_repository event (record repo { enabled = enabled }) in
      announce (status_events repo moved (output_for repository_machine event))
        (save_repository moved_repo w)

-- A value that the payload gives, if it is not the one that the row has.
unfoldable pub is_changed : Option Text → Text → Bool
is_changed none old = false
is_changed (some new) old = not (text_eq new old)

unfoldable pub or_old : Option Text → Text → Text
or_old none old = old
or_old (some new) old = new

unfoldable pub rename_repository : Payload → Repository → World → World
unfolding is_changed or_old save_repository enqueue_workflow_analysis
rename_repository payload repo w =
    let renamed = record repo {
      full_name = or_old payload.repository_full_name repo.full_name;
      default_branch = or_old payload.repository_default_branch repo.default_branch;
    } in
    let saved =
      if is_changed payload.repository_full_name repo.full_name
        || is_changed payload.repository_default_branch repo.default_branch
      then save_repository renamed w
      else w in
    if is_changed payload.repository_default_branch repo.default_branch && repo.enabled
    then enqueue_workflow_analysis renamed renamed.default_branch none manual false saved
    else saved

module _ (machines : Machines) where
  unfoldable pub act_on_repository : Option Repository → Payload → World → World
  act_on_repository none payload w = w
  act_on_repository (some repo) payload w =
      if text_eq payload.action (codes "deleted")
      then move_repository machines lose_access false repo w
      else if text_eq payload.action (codes "archived")
      then move_repository machines archive false repo w
      else if text_eq payload.action (codes "unarchived")
      then move_repository machines unarchive true repo w
      else if text_eq payload.action (codes "renamed")
          || text_eq payload.action (codes "transferred")
          || text_eq payload.action (codes "edited")
      then rename_repository payload repo w
      else w

  unfoldable pub handle_repository_event : Payload → World → World
  unfolding find_repository
  handle_repository_event payload w =
      act_on_repository (find_repository payload.repository_id w) payload w
