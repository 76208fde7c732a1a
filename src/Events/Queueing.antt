-- ===== src/Events/Queueing.antt =====
-- Exactly which scans the three scan handlers queue.
use greensecops.Common.{
  ℕ, ◌≡◌, ◌⊎◌, ◌↔◌, inl, inr, false, List, [], Memᴰ, Option, if◌then◌else◌, Bool-cases, mem-append,
  arith, Text, text_eq_refl, text_eq→eq,
}
use greensecops.Events.Enums.{ScanTrigger}
use greensecops.Events.Store.{
  Repository, Task, run_terraform_scan, run_ansible_scan, run_docker_scan, World, enqueue,
}
use greensecops.Events.Scans.{
  skips_root, skips_target, is_off_branch, is_own_branch, enqueue_terraform_scans,
  enqueue_ansible_scans, enqueue_docker_scans,
}
use greensecops.Events.Touched.{
  Touches, IsTaskOf, skips_root-Touches, skips_target-Touches, mem-scan_tasks_enabled,
}

abbrev pub IsScanned : Repository → Text → Type 0
IsScanned repo branch = (branch ≡ repo.default_branch) × (is_own_branch branch ≡ false)

is_off_branch-IsScanned :
    (repo : Repository) (branch : Text)
    → (is_off_branch repo branch ≡ false) ↔ IsScanned repo branch
unfolding is_off_branch
is_off_branch-IsScanned repo branch = (
  λ h. (text_eq→eq branch repo.default_branch (ground arith), ground arith),
  λ h. rw h.0 (ground (arith, h.0, h.1, text_eq_refl repo.default_branch)),
)

-- The shape of the three handlers: nothing off the branch, and the tasks of a loop on it.
mem-gated :
    (repo : Repository) (branch : Text) (tasks : List Task) (task : Task) (w : World) (P : Type 0)
    → (Memᴰ task tasks ↔ P)
    → Memᴰ task (if is_off_branch repo branch then w else enqueue tasks w).queued
      ↔ (Memᴰ task w.queued ⊎ (IsScanned repo branch × P))
unfolding enqueue
mem-gated repo branch tasks task w P (there, back) = elim (Bool-cases (is_off_branch repo branch)) [
  | inl off ↦ rw off (
    inl,
    λ h. elim h [
      | inl m ↦ m
      | inr s ↦ absurd (cc (off, (is_off_branch-IsScanned repo branch).1 s.0))
    ],
  )
  | inr on ↦ rw on (
    λ m. elim ((mem-append w.queued tasks).0 m) [
      | inl old ↦ inl old
      | inr new ↦ inr ((is_off_branch-IsScanned repo branch).0 on, there new)
    ],
    λ h. elim h [
      | inl old ↦ (mem-append w.queued tasks).1 (inl old)
      | inr s ↦ (mem-append w.queued tasks).1 (inr (back s.1))
    ],
  )
]

-- A push queues, beside what was queued, exactly these scans, and only for the default branch where
-- it is no branch of the app: for each enabled Terraform root, Ansible project and Docker target of
-- the repository, one that runs for it, where the push touches the directory of the target or what
-- it touches is not known; an Ansible project or a Docker target at the empty path is always touched.
pub queued_scans :
    (repo : Repository) (branch : Text) (sha : Option ℕ) (trigger : ScanTrigger)
    (changed : Option (List Text)) (w : World) (task : Task)
    → (Memᴰ task (enqueue_terraform_scans repo branch sha trigger changed w).queued ↔ (
        Memᴰ task w.queued
        ⊎ (IsScanned repo branch
            × IsTaskOf
                (Touches changed)
                (λ id. run_terraform_scan id branch sha trigger)
                repo
                w.terraform_roots
                task)))
      × (Memᴰ task (enqueue_ansible_scans repo branch sha trigger changed w).queued ↔ (
          Memᴰ task w.queued
          ⊎ (IsScanned repo branch
              × IsTaskOf
                  (λ target. (target.root_path ≡ []) ⊎ Touches changed target)
                  (λ id. run_ansible_scan id branch sha trigger)
                  repo
                  w.ansible_projects
                  task)))
      × (Memᴰ task (enqueue_docker_scans repo branch sha trigger changed w).queued ↔ (
          Memᴰ task w.queued
          ⊎ (IsScanned repo branch
              × IsTaskOf
                  (λ target. (target.root_path ≡ []) ⊎ Touches changed target)
                  (λ id. run_docker_scan id branch sha trigger)
                  repo
                  w.docker_targets
                  task)))
unfolding enqueue_terraform_scans enqueue_ansible_scans enqueue_docker_scans
queued_scans repo branch sha trigger changed w task = (
  mem-gated repo branch _ task w _ (
      mem-scan_tasks_enabled (skips_root changed) _ (skips_root-Touches changed) _ repo
        w.terraform_roots task),
  mem-gated repo branch _ task w _ (
      mem-scan_tasks_enabled (skips_target changed) _ (skips_target-Touches changed) _ repo
        w.ansible_projects task),
  mem-gated repo branch _ task w _ (
      mem-scan_tasks_enabled (skips_target changed) _ (skips_target-Touches changed) _ repo
        w.docker_targets task),
)
