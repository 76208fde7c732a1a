-- ===== src/Events/Scans.antt =====
-- backend/app/services/github/event_handlers.py: the analysis and the scans that a push queues. An empty commit is `none`.
use greensecops.Common.{
  ℕ, Bool, false, List, [], ◌∷◌, ◌++◌, Option, none, some, ◌==◌, ◌&&◌, ◌||◌, not, any,
  if◌then◌else◌, filter, Text, codes, text_eq, is_empty_text, starts_with,
}
use greensecops.Events.Enums.{ScanTrigger}
use greensecops.Events.Store.{
  Repository, ScanTarget, Task, run_static_analysis, run_terraform_scan, run_ansible_scan,
  run_docker_scan, analysis_queued, World, enqueue, announce,
}

abbrev pub own_branches : Text
own_branches = codes "greensecops/"

unfoldable pub is_own_branch : Text → Bool
is_own_branch branch = starts_with own_branches branch

unfoldable pub enqueue_workflow_analysis :
    Repository → Text → Option ℕ → ScanTrigger → Bool → World → World
unfolding is_own_branch enqueue announce
enqueue_workflow_analysis repo branch commit_sha trigger force w =
    if is_own_branch branch
    then w
    else announce (analysis_queued repo.org_id repo.id branch trigger ∷ [])
        (enqueue (run_static_analysis repo.id branch commit_sha trigger force ∷ []) w)

-- `p == root or p.startswith(f"{root}/")`.
unfoldable pub is_under : Text → Text → Bool
is_under root path = text_eq path root || starts_with (root ++ codes "/") path

-- The targets that `select` returns.
unfoldable pub enabled_targets : Repository → List ScanTarget → List ScanTarget
enabled_targets repo targets =
    filter (λ target. target.repo_id == repo.id && target.enabled) targets

-- Whether the loop goes on past the target without a task: over Terraform roots, and over the others.
unfoldable pub skips_root : Option (List Text) → ScanTarget → Bool
unfolding is_under
skips_root none target = false
skips_root (some changed_paths) target = not (any (is_under target.root_path) changed_paths)

unfoldable pub skips_target : Option (List Text) → ScanTarget → Bool
unfolding is_under
skips_target none target = false
skips_target (some changed_paths) target =
    not (is_empty_text target.root_path) && not (any (is_under target.root_path) changed_paths)

-- The `.delay` calls of a loop.
unfoldable pub scan_tasks : (ScanTarget → Bool) → (ℕ → Task) → List ScanTarget → List Task
scan_tasks skips task [] = []
scan_tasks skips task (target ∷ targets) =
    let rest = scan_tasks skips task targets in
    if not (skips target) then task target.id ∷ rest else rest

unfoldable pub is_off_branch : Repository → Text → Bool
unfolding is_own_branch
is_off_branch repo branch = not (text_eq branch repo.default_branch) || is_own_branch branch

module _ (repo : Repository) (branch : Text) (commit_sha : Option ℕ) (trigger : ScanTrigger)
    (changed_paths : Option (List Text)) (w : World) where
  unfoldable pub enqueue_terraform_scans : World
  unfolding enabled_targets skips_root scan_tasks is_off_branch enqueue
  enqueue_terraform_scans =
      if is_off_branch repo branch
      then w
      else enqueue
          (scan_tasks (skips_root changed_paths)
            (λ id. run_terraform_scan id branch commit_sha trigger)
            (enabled_targets repo w.terraform_roots))
          w

  unfoldable pub enqueue_ansible_scans : World
  unfolding enabled_targets skips_target scan_tasks is_off_branch enqueue
  enqueue_ansible_scans =
      if is_off_branch repo branch
      then w
      else enqueue
          (scan_tasks (skips_target changed_paths)
            (λ id. run_ansible_scan id branch commit_sha trigger)
            (enabled_targets repo w.ansible_projects))
          w

  unfoldable pub enqueue_docker_scans : World
  unfolding enabled_targets skips_target scan_tasks is_off_branch enqueue
  enqueue_docker_scans =
      if is_off_branch repo branch
      then w
      else enqueue
          (scan_tasks (skips_target changed_paths)
            (λ id. run_docker_scan id branch commit_sha trigger)
            (enabled_targets repo w.docker_targets))
          w
