-- ===== src/Tests/Webhooks.antt =====
-- Webhooks at concrete inputs.
use greensecops.Common.{All, ◌≡◌, ◌⊎◌, map, some, codes}
use greensecops.StateMachines.Repository.{suspend}
use greensecops.Events.OwnBranches.{NeverOwn}
use greensecops.Webhooks.Installations.{
  mark_repositories_inaccessible_by_installation_id,
  restore_repositories_accessibility_by_installation_id,
}
use greensecops.Webhooks.Regaining.{IsReachable, suspend_resume, resumed_access}
use greensecops.Webhooks.Dispatch.{WebhookRequest, github_webhook}
use greensecops.Webhooks.Verified.{IsVerified, IsAccepted, github_webhook-IsVerified}
use greensecops.Webhooks.OwnBranches.{github_webhook-NeverOwn}
use greensecops.Tests.Hub.{machines, world, payload, settings, surroundings, digest}

abbrev request : WebhookRequest
request = record {
  payload_bytes = codes "body";
  x_hub_signature_256 = some (codes "sha256=s");
  x_github_event = some (codes "pull_request");
  x_github_delivery = some (codes "d1");
  payload = some payload;
}

github_webhook-IsVerified_example :
    let (response, after) = github_webhook machines settings surroundings digest request world in
    (IsVerified digest settings request × IsAccepted request response) ⊎ (after ≡ world)
github_webhook-IsVerified_example =
    github_webhook-IsVerified machines settings surroundings digest request world

github_webhook-NeverOwn_example :
    NeverOwn (github_webhook machines settings surroundings digest request world).1
github_webhook-NeverOwn_example =
    github_webhook-NeverOwn machines settings surroundings digest request world tt

reachable : All (IsReachable 70) world.repositories
reachable = ((λ _ e. cc), tt)

suspend_resume_example :
    let suspended_world =
      (mark_repositories_inaccessible_by_installation_id machines 70 suspend world).0 in
    map
      (λ repo. repo.access)
      (restore_repositories_accessibility_by_installation_id machines 70
        suspended_world).repositories
    ≡ map (resumed_access 70) world.repositories
suspend_resume_example = suspend_resume machines 70 world reachable
