-- ===== src/Tests/Events.antt =====
-- Events at concrete inputs.
use greensecops.Common.{
  ◌≡◌, ◌↔◌, ◌⊎◌, inl, refl, List, [], ◌∷◌, ◌++◌, map, Memᴰ, Option, some, filter, Text, codes,
  is_space, is_empty_text, starts_with, text_eq,
}
use greensecops.StateMachines.Base.{value}
use greensecops.StateMachines.PullRequest.{PullRequestState, merge, close, reopen}
use greensecops.Events.Enums.{webhook_push}
use greensecops.Events.Store.{Task, run_docker_scan, run_terraform_scan, run_ansible_scan}
use greensecops.Events.Lifecycle.{handle_pull_request_lifecycle, changed_fixes}
use greensecops.Events.Landing.{landed_row, merged_row, merge_lem}
use greensecops.Events.Redelivery.{lifecycle_twice}
use greensecops.Events.Reopening.{reopened_row, close_reopen}
use greensecops.Events.Scans.{enqueue_terraform_scans, enqueue_ansible_scans, enqueue_docker_scans}
use greensecops.Events.Touched.{IsTaskOf, Touches}
use greensecops.Events.Queueing.{IsScanned, queued_scans}
use greensecops.Events.Commands.{parse_greensecops_command, is_verb, prefix}
use greensecops.Events.Commanding.{parse_greensecops_command_lem}
use greensecops.Tests.Hub.{machines, repository, pull_request, world}

merge_example :
    ((handle_pull_request_lifecycle machines 100 merge pull_request world).1.fixes
      ≡ map (landed_row pull_request) world.fixes)
    × ((handle_pull_request_lifecycle machines 100 merge pull_request world).1.findings
        ≡ map (merged_row 100 pull_request world.fixes) world.findings)
merge_example = merge_lem machines 100 pull_request world

lifecycle_twice_example :
    let (pr1, w1) = handle_pull_request_lifecycle machines 100 close pull_request world in
    let (pr2, w2) = handle_pull_request_lifecycle machines 200 close pr1 w1 in
    (pr2 ≡ pr1)
    × (w2.pull_requests ≡ w1.pull_requests)
    × (w2.fixes ≡ w1.fixes)
    × (w2.findings ≡ w1.findings)
    × (changed_fixes machines close pr1 w1.fixes ≡ [])
lifecycle_twice_example = lifecycle_twice machines 100 200 close pull_request world

close_reopen_example :
    let (pr1, w1) = handle_pull_request_lifecycle machines 100 close pull_request world in
    let (pr2, w2) = handle_pull_request_lifecycle machines 200 reopen pr1 w1 in
    (pr2 ≡ record pull_request { pr_state = value PullRequestState.opened })
    × (w2.fixes ≡ map (reopened_row pull_request) world.fixes)
    × (w2.findings ≡ world.findings)
close_reopen_example = close_reopen machines pull_request 100 200 world (inl refl)

abbrev paths : Option (List Text)
paths = some (codes "envs/prod/main.tf" ∷ [])

abbrev docker_task : Task
docker_task = run_docker_scan 22 (codes "main") (some 92) webhook_push

queued_scans_example :
    (Memᴰ docker_task
        (enqueue_terraform_scans repository
          (codes "main")
          (some 92)
          webhook_push
          paths
          world).queued
      ↔ (Memᴰ docker_task world.queued
          ⊎ (IsScanned repository (codes "main")
              × IsTaskOf
                  (Touches paths)
                  (λ id. run_terraform_scan id (codes "main") (some 92) webhook_push)
                  repository
                  world.terraform_roots
                  docker_task)))
    × (Memᴰ docker_task
          (enqueue_ansible_scans repository
            (codes "main")
            (some 92)
            webhook_push
            paths
            world).queued
        ↔ (Memᴰ docker_task world.queued
            ⊎ (IsScanned repository (codes "main")
                × IsTaskOf
                    (λ t. (t.root_path ≡ []) ⊎ Touches paths t)
                    (λ id. run_ansible_scan id (codes "main") (some 92) webhook_push)
                    repository
                    world.ansible_projects
                    docker_task)))
    × (Memᴰ docker_task
          (enqueue_docker_scans repository (codes "main") (some 92) webhook_push paths world).queued
        ↔ (Memᴰ docker_task world.queued
            ⊎ (IsScanned repository (codes "main")
                × IsTaskOf
                    (λ t. (t.root_path ≡ []) ⊎ Touches paths t)
                    (λ id. run_docker_scan id (codes "main") (some 92) webhook_push)
                    repository
                    world.docker_targets
                    docker_task)))
queued_scans_example =
    queued_scans repository (codes "main") (some 92) webhook_push paths world docker_task

-- A change of one file rescans the Terraform root that holds it and the Docker target of the whole
-- repository, and no other.
terraform_at_root :
    (enqueue_terraform_scans repository (codes "main") (some 92) webhook_push paths world).queued
    ≡ run_terraform_scan 20 (codes "main") (some 92) webhook_push ∷ []
unfolding enqueue_terraform_scans text_eq starts_with filter
terraform_at_root = refl

docker_at_root :
    (enqueue_docker_scans repository (codes "main") (some 92) webhook_push paths world).queued
    ≡ docker_task ∷ []
unfolding enqueue_docker_scans text_eq starts_with is_empty_text filter
docker_at_root = refl

command_example :
    parse_greensecops_command
      (codes " " ++ ((prefix ++ 32 ∷ (codes "ignore" ++ 32 ∷ codes "f1")) ++ codes " "))
    ≡ some (codes "ignore" ∷ codes "f1" ∷ [])
unfolding is_verb text_eq is_empty_text is_space
command_example =
    parse_greensecops_command_lem (codes " ") (codes " ") (codes "ignore") (codes "f1") (refl, tt)
      (refl, tt) refl (refl, (refl, (refl, tt)))
