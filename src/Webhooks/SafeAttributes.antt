-- ===== src/Webhooks/SafeAttributes.antt =====
-- The other handlers of webhooks queue nothing for a branch of the app.
use greensecops.Webhooks.Installations.{enqueue_installation_sync}
use greensecops.Events.Enums.{ReviewDecision, manual, webhook_workflow_run}
use greensecops.Webhooks.PullRequests.{
  check_suite_at, find_pr_at, handle_issue_comment_event, handle_pull_request_review_event,
  handle_workflow_run_event, record_ci, record_ci_of, record_decision, run_command, run_completed,
}
use greensecops.StateMachines.Repository.{RepositoryEvent, archive, lose_access, unarchive}
use greensecops.Events.Commands.{parse_greensecops_command, prefix, review_state_to_decision}
use greensecops.Webhooks.Repositories.{
  act_on_repository, is_changed, move_repository, or_old, rename_repository,
}
use greensecops.Common.{
  All-append, Bool, List, Option, Text, codes, false, if◌then◌else◌, none, refl, some, starts_with,
  strip, text_eq, true, ℕ, ◌&&◌, ◌||◌,
}
use greensecops.Events.Store.{Machines, PullRequest, Repository, World, save_repository}
use greensecops.Webhooks.Payload.{
  Payload, SlotReply, find_pr_of_branch, find_repository, may_go_on, resolve_repo_by_github_id,
}
use greensecops.Webhooks.Safe.{IsSafe, analysis-IsSafe, command-IsSafe, if_IsSafe}

module _ (w : World) (h : IsSafe w) where
  pub ci-IsSafe : (payload : Payload) (pr : Option PullRequest) → IsSafe (record_ci payload pr w)
  unfolding record_ci
  ci-IsSafe payload none = h
  ci-IsSafe payload (some pr) = record { safe = h.safe }

  pub ci_of-IsSafe :
      (payload : Payload) (repo : Option Repository) (branch : Text)
      → IsSafe (record_ci_of payload repo branch w)
  unfolding record_ci_of
  ci_of-IsSafe payload none branch = h
  ci_of-IsSafe payload (some repo) branch = ci-IsSafe payload (find_pr_of_branch repo branch w)

  pub check_suite-IsSafe :
      (payload : Payload) (branch : Option Text) → IsSafe (check_suite_at branch payload w)
  unfolding check_suite_at
  check_suite-IsSafe payload none = h
  check_suite-IsSafe payload (some branch) =
      ci_of-IsSafe payload (find_repository payload.repository_id w) branch

  pub decision-IsSafe :
      (decision : Option ReviewDecision) (pr : Option PullRequest)
      → IsSafe (record_decision decision pr w)
  unfolding record_decision
  decision-IsSafe none pr = h
  decision-IsSafe (some d) none = h
  decision-IsSafe (some d) (some pr) = record { safe = h.safe }

  pub review-IsSafe : (payload : Payload) → IsSafe (handle_pull_request_review_event payload w)
  unfolding handle_pull_request_review_event
  review-IsSafe payload =
      if_IsSafe
        (text_eq payload.action (codes "submitted") || text_eq payload.action (codes "dismissed"))
        (λ _.
          decision-IsSafe (review_state_to_decision payload.review_state)
            (find_pr_at payload.pr_url w))
        (λ _. h)

  pub run-IsSafe :
      (payload : Payload) (repo : Option Repository) → IsSafe (run_completed payload repo w)
  unfolding run_completed
  run-IsSafe payload none = h
  run-IsSafe payload (some repo) =
      analysis-IsSafe w h repo payload.run_head_branch payload.run_head_sha webhook_workflow_run
        false

  pub workflow_run-IsSafe : (payload : Payload) → IsSafe (handle_workflow_run_event payload w)
  unfolding handle_workflow_run_event
  workflow_run-IsSafe payload =
      if_IsSafe (text_eq payload.action (codes "completed"))
        (λ _. run-IsSafe payload (resolve_repo_by_github_id payload w)) (λ _. h)

  pub commanded-IsSafe :
      (now : ℕ) (command : Option (List Text)) (repo : Option Repository)
      → IsSafe (run_command now command repo w)
  unfolding run_command
  commanded-IsSafe now none repo = h
  commanded-IsSafe now (some command) none = h
  commanded-IsSafe now (some command) (some repo) = command-IsSafe w h now repo command

  pub comment-IsSafe :
      (now : ℕ) (payload : Payload) → IsSafe (handle_issue_comment_event now payload w)
  unfolding handle_issue_comment_event
  comment-IsSafe now payload =
      if_IsSafe
        (text_eq payload.action (codes "created")
          && starts_with prefix (strip payload.comment_body))
        (λ _.
          commanded-IsSafe now (parse_greensecops_command payload.comment_body)
            (resolve_repo_by_github_id payload w))
        (λ _. h)

  pub rename-IsSafe :
      (payload : Payload) (repo : Repository) → IsSafe (rename_repository payload repo w)
  unfolding rename_repository
  rename-IsSafe payload repo =
      if_IsSafe (is_changed payload.repository_default_branch repo.default_branch && repo.enabled)
        (λ _. analysis-IsSafe _ saved renamed renamed.default_branch none manual false) (λ _. saved)
    where
      renamed : Repository
      renamed = record repo {
        full_name = or_old payload.repository_full_name repo.full_name;
        default_branch = or_old payload.repository_default_branch repo.default_branch;
      }

      is_new : Bool
      is_new =
          is_changed payload.repository_full_name repo.full_name
          || is_changed payload.repository_default_branch repo.default_branch

      saved : IsSafe (if is_new then save_repository renamed w else w)
      saved = if_IsSafe is_new (λ _. record { safe = h.safe }) (λ _. h)

  pub move-IsSafe :
      (machines : Machines) (event : RepositoryEvent) (enabled : Bool) (repo : Repository)
      → IsSafe (move_repository machines event enabled repo w)
  unfolding move_repository
  move-IsSafe machines event enabled repo = record { safe = h.safe }

  pub acted_on-IsSafe :
      (machines : Machines) (repo : Option Repository) (payload : Payload)
      → IsSafe (act_on_repository machines repo payload w)
  unfolding act_on_repository
  acted_on-IsSafe machines none payload = h
  acted_on-IsSafe machines (some repo) payload =
      if_IsSafe (text_eq payload.action (codes "deleted"))
        (λ _. move-IsSafe machines lose_access false repo)
        (λ _.
          if_IsSafe (text_eq payload.action (codes "archived"))
            (λ _. move-IsSafe machines archive false repo)
            (λ _.
              if_IsSafe (text_eq payload.action (codes "unarchived"))
                (λ _. move-IsSafe machines unarchive true repo)
                (λ _.
                  if_IsSafe
                    (text_eq payload.action (codes "renamed")
                      || text_eq payload.action (codes "transferred")
                      || text_eq payload.action (codes "edited"))
                    (λ _. rename-IsSafe payload repo) (λ _. h))))

  pub sync_installation-IsSafe :
      (slot : SlotReply) (installation_id org_id : ℕ)
      → IsSafe (enqueue_installation_sync slot installation_id org_id w)
  unfolding enqueue_installation_sync
  sync_installation-IsSafe slot installation_id org_id =
      if_IsSafe (may_go_on slot) (λ _. record { safe = All-append _ w.queued _ h.safe (refl, tt) })
        (λ _. h)
