-- ===== src/Webhooks/Installations.antt =====
-- backend/app/api/routes/webhooks.py: `installation` and `installation_repositories` events, and the functions of
-- backend/app/crud.py that they call.
use greensecops.Common.{
  ℕ, Bool, true, false, List, [], ◌∷◌, ◌++◌, Option, none, some, ◌==◌, ◌||◌, any, map, filter,
  first, update, length, if◌then◌else◌, Text, codes, text_eq,
}
use greensecops.StateMachines.Base.{try_advance}
use greensecops.StateMachines.Repository.{
  RepositoryEvent, suspend, unsuspend, lose_access, regain_access, repository_machine, status_field,
  sync_access_flag,
}
use greensecops.Events.Store.{
  Organization, Repository, Event, sync_installation_repositories, repository_disabled,
  installation_deleted, installation_suspended, installation_created, installation_unsuspended,
  installation_updated, World, Machines, is_number, enqueue, announce,
}
use greensecops.Webhooks.Payload.{Payload, SlotReply, may_go_on}
use greensecops.Webhooks.Repositories.{advance_repository}

unfoldable pub is_of_installation : ℕ → Repository → Bool
unfolding is_number
is_of_installation installation_id repo = is_number repo.installation_id installation_id

-- `github_repo_id IN ids`.
unfoldable pub is_listed_id : List ℕ → Repository → Bool
is_listed_id ids repo = any (λ id. repo.github_repo_id == id) ids

module _ (machines : Machines) where
  unfoldable pub disable_repository : RepositoryEvent → Repository → Repository
  unfolding advance_repository
  disable_repository event repo =
      (advance_repository machines event (record repo { enabled = false })).0

  unfoldable pub restore_repository : Repository → Repository
  unfolding sync_access_flag
  restore_repository repo =
      let (unsuspended, moved) =
        try_advance machines.on_repository repository_machine status_field repo.access unsuspend in
      let access =
        if moved
        then unsuspended
        else (try_advance machines.on_repository repository_machine status_field unsuspended
            regain_access).0 in
      record repo { access = sync_access_flag access }

  unfoldable pub disable_repositories_by_github_ids : List ℕ → World → World × ℕ
  unfolding disable_repository is_listed_id
  disable_repositories_by_github_ids ids w = (
    record w {
      repositories = update (is_listed_id ids) (disable_repository lose_access) w.repositories;
    },
    length (filter (is_listed_id ids) w.repositories),
  )

  -- The repositories of the installation are returned as they are then.
  unfoldable pub mark_repositories_inaccessible_by_installation_id :
      ℕ → RepositoryEvent → World → World × List Repository
  unfolding disable_repository is_of_installation
  mark_repositories_inaccessible_by_installation_id installation_id event w = (
    record w {
      repositories =
          update (is_of_installation installation_id) (disable_repository event) w.repositories;
    },
    map (disable_repository event) (filter (is_of_installation installation_id) w.repositories),
  )

  unfoldable pub restore_repositories_accessibility_by_installation_id : ℕ → World → World
  unfolding restore_repository is_of_installation
  restore_repositories_accessibility_by_installation_id installation_id w = record w {
    repositories = update (is_of_installation installation_id) restore_repository w.repositories;
  }

  unfoldable pub regain_repositories : List ℕ → World → World
  unfolding advance_repository is_listed_id
  regain_repositories ids w = record w {
    repositories =
        update (is_listed_id ids) (λ repo. (advance_repository machines regain_access repo).0)
          w.repositories;
  }

unfoldable pub find_organization : ℕ → ℕ → World → Option Organization
unfolding is_number
find_organization github_org_id installation_id w =
    elim (first (λ org. is_number org.github_org_id github_org_id) w.organizations) [
      | some org ↦ some org
      | none ↦ first (λ org. is_number org.installation_id installation_id) w.organizations
    ]

unfoldable pub write_organization :
    ℕ → Organization → Option Organization → World → Organization × World
write_organization new_id fresh none w =
    (fresh, record w { organizations = w.organizations ++ fresh ∷ [] })
write_organization new_id fresh (some org) w =
    let written = record fresh { id = org.id } in
    (
      written,
      record w { organizations = update (λ row. row.id == org.id) (λ _. written) w.organizations },
    )

-- `crud.upsert_organization`, with both ids given.
unfoldable pub upsert_organization : ℕ → ℕ → Text → ℕ → World → Organization × World
unfolding find_organization write_organization
upsert_organization new_id github_org_id name installation_id w =
    write_organization new_id
      (record {
        id = new_id;
        github_org_id = some github_org_id;
        name = name;
        installation_id = some installation_id;
      })
      (find_organization github_org_id installation_id w) w

unfoldable pub upsert_org_with :
    ℕ → Option ℕ → Option Text → ℕ → World → Option Organization × World
unfolding upsert_organization
upsert_org_with new_id none login installation_id w = (none, w)
upsert_org_with new_id (some account) none installation_id w = (none, w)
upsert_org_with new_id (some account) (some login) installation_id w =
    let (org, saved) = upsert_organization new_id account login installation_id w in
    (some org, saved)

unfoldable pub upsert_org_from_installation : ℕ → Payload → ℕ → World → Option Organization × World
unfolding upsert_org_with
upsert_org_from_installation new_id payload installation_id w =
    upsert_org_with new_id payload.account_id payload.account_login installation_id w

unfoldable pub enqueue_installation_sync : SlotReply → ℕ → ℕ → World → World
unfolding may_go_on enqueue
enqueue_installation_sync slot installation_id org_id w =
    if may_go_on slot
    then enqueue (sync_installation_repositories installation_id org_id ∷ []) w
    else w

unfoldable pub lost_events : Bool → ℕ → List Repository → List Event
lost_events deleted installation_id [] = []
lost_events deleted installation_id (repo ∷ repos) =
    let count = length (repo ∷ repos) in
    (if deleted
      then installation_deleted repo.org_id installation_id count
      else installation_suspended repo.org_id installation_id count)
    ∷ repository_disabled repo.org_id (map (λ r. r.id) (repo ∷ repos))
    ∷ []

module _ (machines : Machines) (new_id : ℕ) (slot : SlotReply) where
  unfoldable pub lose_installation : Bool → ℕ → World → World
  unfolding mark_repositories_inaccessible_by_installation_id lost_events announce
  lose_installation deleted installation_id w =
      let (marked, repos) =
        mark_repositories_inaccessible_by_installation_id machines installation_id
          (if deleted then lose_access else suspend) w in
      announce (lost_events deleted installation_id repos) marked

  unfoldable pub gain_installation : Text → ℕ → Option Organization × World → World
  unfolding restore_repositories_accessibility_by_installation_id announce enqueue_installation_sync
  gain_installation action installation_id (none, w) = w
  gain_installation action installation_id (some org, w) =
      enqueue_installation_sync slot installation_id org.id (
        if text_eq action (codes "unsuspend")
        then announce (installation_unsuspended org.id installation_id org.name ∷ [])
            (restore_repositories_accessibility_by_installation_id machines installation_id w)
        else if text_eq action (codes "created")
        then announce (installation_created org.id installation_id org.name ∷ []) w
        else announce (installation_updated org.id installation_id org.name ∷ []) w)

  unfoldable pub installation_at : Option ℕ → Payload → World → World
  unfolding lose_installation gain_installation upsert_org_from_installation
  installation_at none payload w = w
  installation_at (some id) payload w =
      if text_eq payload.action (codes "deleted")
      then lose_installation true id w
      else if text_eq payload.action (codes "suspend")
      then lose_installation false id w
      else if text_eq payload.action (codes "created")
          || text_eq payload.action (codes "unsuspend")
          || text_eq payload.action (codes "new_permissions_accepted")
      then gain_installation payload.action id (upsert_org_from_installation new_id payload id w)
      else w

  unfoldable pub handle_installation_event : Payload → World → World
  unfolding installation_at
  handle_installation_event payload w = installation_at payload.installation_id payload w

  unfoldable pub add_repositories : List ℕ → ℕ → Option Organization × World → World
  unfolding regain_repositories enqueue_installation_sync
  add_repositories ids installation_id (none, w) = w
  add_repositories ids installation_id (some org, w) =
      enqueue_installation_sync slot installation_id org.id (regain_repositories machines ids w)

  unfoldable pub removed_events : List ℕ → ℕ → Option Organization × World → World
  unfolding announce
  removed_events ids count (none, w) = w
  removed_events ids count (some org, w) =
      if count == 0 then w else announce (repository_disabled org.id ids ∷ []) w

  unfoldable pub installation_repositories_at : Option ℕ → Payload → World → World
  unfolding add_repositories removed_events disable_repositories_by_github_ids
      upsert_org_from_installation
  installation_repositories_at none payload w = w
  installation_repositories_at (some id) payload w =
      if text_eq payload.action (codes "added")
      then add_repositories payload.added_ids id (upsert_org_from_installation new_id payload id w)
      else if text_eq payload.action (codes "removed")
      then (let (disabled, count) =
            disable_repositories_by_github_ids machines payload.removed_ids w in
          removed_events payload.removed_ids count
            (upsert_org_from_installation new_id payload id disabled))
      else w

  unfoldable pub handle_installation_repositories_event : Payload → World → World
  unfolding installation_repositories_at
  handle_installation_repositories_event payload w =
      installation_repositories_at payload.installation_id payload w
