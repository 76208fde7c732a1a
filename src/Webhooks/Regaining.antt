-- ===== src/Webhooks/Regaining.antt =====
-- Access that an installation loses and gets back.
use greensecops.Common.{
  ◌≢◌, List, [], ◌∷◌, true, All, Bool-cases, inl, inr, ap, ℕ, ◌≡◌, refl, ◌∙◌, false, map,
  if◌then◌else◌, update-map, update-update, arith,
}
use greensecops.StateMachines.Base.{Column, null, unknown, value, try_advance, first_target}
use greensecops.StateMachines.Repository.{
  AccessRow, RepositoryStatus, active, suspended, archived, inaccessible, RepositoryEvent, suspend,
  unsuspend, regain_access, RepositoryStatus-discrete, repository_machine, is_active,
}
use greensecops.Events.Store.{Repository, World, Machines, is_number}
use greensecops.Webhooks.Installations.{
  is_of_installation, disable_repository, restore_repository,
  mark_repositories_inaccessible_by_installation_id,
  restore_repositories_accessibility_by_installation_id,
}

-- The status behind a suspension of the installation and its end.
abbrev pub resumed : RepositoryStatus → RepositoryStatus
resumed archived = archived
resumed s = active

abbrev pub resumed_column : Column RepositoryStatus → Column RepositoryStatus
resumed_column null = null
resumed_column (unknown v) = unknown v
resumed_column (value s) = value (resumed s)

abbrev resumed_row : ℕ → Repository → Repository
resumed_row installation_id repo =
    if is_number repo.installation_id installation_id
    then record repo {
      enabled = false;
      access = record {
        status = resumed_column repo.access.status;
        is_accessible = is_active (resumed_column repo.access.status);
      };
    }
    else repo

-- No repository of the installation was taken from it.
abbrev pub IsReachable : ℕ → Repository → Type 0
IsReachable installation_id repo =
    is_number repo.installation_id installation_id ≡ true → repo.access.status ≢ value inaccessible

-- The access behind a suspension of the installation and its end, where no repository was taken.
abbrev pub access_at : Column RepositoryStatus → AccessRow
access_at null = record { status = null; is_accessible = false }
access_at (unknown v) = record { status = unknown v; is_accessible = false }
access_at (value active) = record { status = value active; is_accessible = true }
access_at (value suspended) = record { status = value active; is_accessible = true }
access_at (value archived) = record { status = value archived; is_accessible = false }
access_at (value inaccessible) = record { status = value inaccessible; is_accessible = false }

abbrev pub resumed_access : ℕ → Repository → AccessRow
resumed_access installation_id repo =
    if is_number repo.installation_id installation_id
    then access_at repo.access.status
    else repo.access

access_at_lem :
    (c : Column RepositoryStatus)
    → c ≢ value inaccessible
    → record { status = resumed_column c; is_accessible = is_active (resumed_column c) }
      ≡ access_at c
access_at_lem null h = refl
access_at_lem (unknown v) h = refl
access_at_lem (value active) h = refl
access_at_lem (value suspended) h = refl
access_at_lem (value archived) h = refl
access_at_lem (value inaccessible) h = absurd (h refl)

map_resumed :
    (installation_id : ℕ) (repos : List Repository)
    → All (IsReachable installation_id) repos
    → map (λ repo. repo.access) (map (resumed_row installation_id) repos)
      ≡ map (resumed_access installation_id) repos
map_resumed installation_id [] h = refl
map_resumed installation_id (repo ∷ repos) h =
    let ih = map_resumed installation_id repos h.1 in
    elim (Bool-cases (is_number repo.installation_id installation_id)) [
      | inl e ↦ rw e (
          rw ih (
            ap (λ a. a ∷ map (resumed_access installation_id) repos)
              (access_at_lem repo.access.status (h.0 e))))
      | inr n ↦ rw n (rw ih refl)
    ]

module _ (machines : Machines) where
  sends :
      (event : RepositoryEvent) (s : RepositoryStatus)
      → machines.on_repository.send (repository_machine.transitions event) s
        ≡ first_target RepositoryStatus-discrete (repository_machine.transitions event) s
  sends event s = machines.on_repository.send_lem (repository_machine.transitions event) s

  suspend_resume_row :
      (repo : Repository) (c : Column RepositoryStatus)
      → repo.access.status ≡ c
      → restore_repository machines (disable_repository machines suspend repo) ≡ record repo {
        enabled = false;
        access = record { status = resumed_column c; is_accessible = is_active (resumed_column c) };
      }
  unfolding restore_repository disable_repository try_advance first_target repository_machine
      RepositoryStatus-discrete
  suspend_resume_row repo null e = ground (arith, e)
  suspend_resume_row repo (unknown v) e = ground (arith, e)
  suspend_resume_row repo (value active) e = ground (
    arith,
    e,
    sends suspend active,
    sends unsuspend active,
    sends unsuspend suspended,
    sends regain_access active,
  )
  suspend_resume_row repo (value suspended) e = ground (
    arith,
    e,
    sends suspend suspended,
    sends unsuspend suspended,
    sends unsuspend suspended,
    sends regain_access suspended,
  )
  suspend_resume_row repo (value archived) e = ground (
    arith,
    e,
    sends suspend archived,
    sends unsuspend archived,
    sends unsuspend suspended,
    sends regain_access archived,
  )
  suspend_resume_row repo (value inaccessible) e = ground (
    arith,
    e,
    sends suspend inaccessible,
    sends unsuspend inaccessible,
    sends unsuspend suspended,
    sends regain_access inaccessible,
  )

  suspended_resumed :
      (installation_id : ℕ) (w : World)
      → let suspended_world =
          (mark_repositories_inaccessible_by_installation_id machines installation_id suspend
            w).0 in
        (restore_repositories_accessibility_by_installation_id machines installation_id
          suspended_world).repositories
        ≡ map (resumed_row installation_id) w.repositories
  unfolding mark_repositories_inaccessible_by_installation_id
      restore_repositories_accessibility_by_installation_id
  suspended_resumed installation_id w =
      update-update (is_of_installation installation_id) (disable_repository machines suspend)
        (restore_repository machines) w.repositories (λ repo h. h)
      ∙ update-map _ _ _ w.repositories
          (λ repo. ground (arith, suspend_resume_row repo repo.access.status refl))

  -- After an installation is suspended and then unsuspended, none of whose repositories was
  -- inaccessible, an active or suspended repository of it is active and accessible, an archived one
  -- still archived and not accessible, and one whose status is NULL or no status keeps it and is not
  -- accessible. The status and the access flag of every other repository are as they were.
  pub suspend_resume :
      (installation_id : ℕ) (w : World)
      → All (IsReachable installation_id) w.repositories
      → let suspended_world =
          (mark_repositories_inaccessible_by_installation_id machines installation_id suspend
            w).0 in
        map
          (λ repo. repo.access)
          (restore_repositories_accessibility_by_installation_id machines installation_id
            suspended_world).repositories
        ≡ map (resumed_access installation_id) w.repositories
  suspend_resume installation_id w h =
      rw (suspended_resumed installation_id w) (map_resumed installation_id w.repositories h)
