-- ===== src/Events/OwnBranches.antt =====
-- No event makes the app analyse or scan a branch of its own.
use greensecops.Common.{
  ℕ, ◌≡◌, inl, inr, refl, Bool, true, false, List, [], ◌∷◌, Option, none, not, if◌then◌else◌,
  Bool-cases, All, All-append, arith, Text, text_eq, codes,
}
use greensecops.Events.Enums.{ScanTrigger, manual}
use greensecops.Events.Store.{
  Repository, ScanTarget, Task, run_static_analysis, run_terraform_scan, run_ansible_scan,
  run_docker_scan, World, enqueue,
}
use greensecops.Events.Scans.{
  is_own_branch, enqueue_workflow_analysis, scan_tasks, enabled_targets, skips_root, skips_target,
  is_off_branch, enqueue_terraform_scans, enqueue_ansible_scans, enqueue_docker_scans,
}
use greensecops.Events.Commands.{is_verb}
use greensecops.Events.Attributes.{handle_issue_command, handle_issue_ignore_command}

-- The task is for a branch of the app.
abbrev pub is_own_task : Task → Bool
is_own_task (run_static_analysis _ branch _ _ _) = is_own_branch branch
is_own_task (run_terraform_scan _ branch _ _) = is_own_branch branch
is_own_task (run_ansible_scan _ branch _ _) = is_own_branch branch
is_own_task (run_docker_scan _ branch _ _) = is_own_branch branch
is_own_task _ = false

abbrev pub NeverOwn : World → Type 0
NeverOwn w = All (λ task. is_own_task task ≡ false) w.queued

pub enqueue_workflow_analysis-NeverOwn :
    (repo : Repository) (branch : Text) (sha : Option ℕ) (trigger : ScanTrigger) (force : Bool)
    (w : World)
    → NeverOwn w
    → NeverOwn (enqueue_workflow_analysis repo branch sha trigger force w)
unfolding enqueue_workflow_analysis
enqueue_workflow_analysis-NeverOwn repo branch sha trigger force w h =
    elim (Bool-cases (is_own_branch branch)) [
      | inl own ↦ rw own h
      | inr other ↦ rw other (All-append _ w.queued _ h (other, tt))
    ]

All-scan_tasks :
    (skips : ScanTarget → Bool) (run : ℕ → Task) (targets : List ScanTarget)
    → ((id : ℕ) → is_own_task (run id) ≡ false)
    → All (λ task. is_own_task task ≡ false) (scan_tasks skips run targets)
unfolding scan_tasks
All-scan_tasks skips run [] h = tt
All-scan_tasks skips run (t ∷ ts) h = elim (Bool-cases (not (skips t))) [
  | inl kept ↦ rw kept (h t.id, All-scan_tasks skips run ts h)
  | inr gone ↦ rw gone (All-scan_tasks skips run ts h)
]

-- The shape of the three handlers of scans.
gated-NeverOwn :
    (repo : Repository) (branch : Text) (skips : ScanTarget → Bool) (run : ℕ → Task)
    (targets : List ScanTarget) (w : World)
    → ((id : ℕ) → is_own_task (run id) ≡ is_own_branch branch)
    → NeverOwn w
    → NeverOwn (if is_off_branch repo branch then w else enqueue (scan_tasks skips run targets) w)
unfolding is_off_branch enqueue
gated-NeverOwn repo branch skips run targets w e h = elim (Bool-cases (is_off_branch repo branch)) [
  | inl off ↦ rw off h
  | inr on ↦ rw on (
      All-append _ w.queued _ h (All-scan_tasks skips run targets (λ id. ground (arith, e id, on))))
]

module _ (repo : Repository) (branch : Text) (sha : Option ℕ) (trigger : ScanTrigger)
    (changed : Option (List Text)) (w : World) (h : NeverOwn w) where
  pub enqueue_terraform_scans-NeverOwn :
      NeverOwn (enqueue_terraform_scans repo branch sha trigger changed w)
  unfolding enqueue_terraform_scans
  enqueue_terraform_scans-NeverOwn =
      gated-NeverOwn repo branch (skips_root changed)
        (λ id. run_terraform_scan id branch sha trigger) (enabled_targets repo w.terraform_roots) w
        (λ id. refl) h

  pub enqueue_ansible_scans-NeverOwn :
      NeverOwn (enqueue_ansible_scans repo branch sha trigger changed w)
  unfolding enqueue_ansible_scans
  enqueue_ansible_scans-NeverOwn =
      gated-NeverOwn repo branch (skips_target changed)
        (λ id. run_ansible_scan id branch sha trigger) (enabled_targets repo w.ansible_projects) w
        (λ id. refl) h

  pub enqueue_docker_scans-NeverOwn :
      NeverOwn (enqueue_docker_scans repo branch sha trigger changed w)
  unfolding enqueue_docker_scans
  enqueue_docker_scans-NeverOwn =
      gated-NeverOwn repo branch (skips_target changed)
        (λ id. run_docker_scan id branch sha trigger) (enabled_targets repo w.docker_targets) w
        (λ id. refl) h

pub handle_issue_command-NeverOwn :
    (now : ℕ) (repo : Repository) (command : List Text) (w : World)
    → NeverOwn w
    → NeverOwn (handle_issue_command now repo command w)
unfolding handle_issue_command
handle_issue_command-NeverOwn now repo [] w h = h
handle_issue_command-NeverOwn now repo (verb ∷ args) w h = elim (Bool-cases (is_verb verb)) [
  | inl known ↦ elim (Bool-cases (text_eq verb (codes "reanalyze"))) [
    | inl re ↦
        rw (known, re)
          (enqueue_workflow_analysis-NeverOwn repo repo.default_branch none manual true w h)
    | inr mute ↦ rw (known, mute) (muted args)
  ]
  | inr unknown ↦ rw unknown h
]
  where
    muted : (args : List Text) → NeverOwn (handle_issue_ignore_command now repo verb args w)
    muted [] = h
    muted (fingerprint ∷ rest) = h
