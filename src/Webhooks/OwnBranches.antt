-- ===== src/Webhooks/OwnBranches.antt =====
-- No webhook makes the app analyse or scan a branch of its own.
use greensecops.Webhooks.Dispatch.{
  Surroundings, WebhookRequest, WebhookSettings, accept, event_name, github_webhook, handle_event,
  is_duplicate_delivery, verify_webhook_signature,
}
use greensecops.Webhooks.SafeAttributes.{
  acted_on-IsSafe, check_suite-IsSafe, comment-IsSafe, review-IsSafe, sync_installation-IsSafe,
  workflow_run-IsSafe,
}
use greensecops.Webhooks.Installations.{
  add_repositories, disable_repositories_by_github_ids, find_organization, gain_installation,
  handle_installation_event, handle_installation_repositories_event, installation_at,
  installation_repositories_at, lose_installation, removed_events, upsert_org_from_installation,
  upsert_org_with, upsert_organization, write_organization,
}
use greensecops.Webhooks.PullRequests.{handle_check_suite_event}
use greensecops.Webhooks.Repositories.{handle_repository_event}
use greensecops.Common.{
  Bool, Bool-cases, List, Option, Text, codes, false, inl, inr, is_empty_text, none, some, text_eq,
  true, ℕ, ◌==◌, ◌||◌,
}
use greensecops.Events.Store.{Machines, Organization, World}
use greensecops.Events.OwnBranches.{NeverOwn}
use greensecops.Webhooks.Payload.{Payload, SlotReply, find_repository}
use greensecops.Webhooks.Safe.{IsSafe, delete-IsSafe, if_IsSafe, pull_request-IsSafe, push-IsSafe}

module _ (machines : Machines) (new_id : ℕ) (slot : SlotReply) where
  upserted-IsSafe :
      (account : Option ℕ) (login : Option Text) (id : ℕ) (w : World)
      → IsSafe w
      → IsSafe (upsert_org_with new_id account login id w).1
  unfolding upsert_org_with upsert_organization
  upserted-IsSafe none login id w h = h
  upserted-IsSafe (some account) none id w h = h
  upserted-IsSafe (some account) (some login) id w h = written (find_organization account id w)
    where
      fresh : Organization
      fresh = record {
        id = new_id;
        github_org_id = some account;
        name = login;
        installation_id = some id;
      }

      written : (org : Option Organization) → IsSafe (write_organization new_id fresh org w).1
      written none = record { safe = h.safe }
      written (some org) = record { safe = h.safe }

  lost-IsSafe :
      (deleted : Bool) (id : ℕ) (w : World)
      → IsSafe w
      → IsSafe (lose_installation machines new_id slot deleted id w)
  unfolding lose_installation
  lost-IsSafe deleted id w h = record { safe = h.safe }

  gained-IsSafe :
      (action : Text) (id : ℕ) (org : Option Organization) (w : World)
      → IsSafe w
      → IsSafe (gain_installation machines new_id slot action id (org, w))
  unfolding gain_installation
  gained-IsSafe action id none w h = h
  gained-IsSafe action id (some org) w h =
      sync_installation-IsSafe _
        (if_IsSafe (text_eq action (codes "unsuspend")) (λ _. record { safe = h.safe })
          (λ _.
            if_IsSafe (text_eq action (codes "created")) (λ _. record { safe = h.safe })
              (λ _. record { safe = h.safe })))
        slot id org.id

  installation-IsSafe :
      (id : Option ℕ) (payload : Payload) (w : World)
      → IsSafe w
      → IsSafe (installation_at machines new_id slot id payload w)
  unfolding installation_at upsert_org_from_installation
  installation-IsSafe none payload w h = h
  installation-IsSafe (some id) payload w h =
      if_IsSafe (text_eq payload.action (codes "deleted")) (λ _. lost-IsSafe true id w h)
        (λ _.
          if_IsSafe (text_eq payload.action (codes "suspend")) (λ _. lost-IsSafe false id w h)
            (λ _.
              if_IsSafe
                (text_eq payload.action (codes "created")
                  || text_eq payload.action (codes "unsuspend")
                  || text_eq payload.action (codes "new_permissions_accepted"))
                (λ _.
                  gained-IsSafe payload.action id _ _
                    (upserted-IsSafe payload.account_id payload.account_login id w h))
                (λ _. h)))

  added-IsSafe :
      (ids : List ℕ) (id : ℕ) (org : Option Organization) (w : World)
      → IsSafe w
      → IsSafe (add_repositories machines new_id slot ids id (org, w))
  unfolding add_repositories
  added-IsSafe ids id none w h = h
  added-IsSafe ids id (some org) w h =
      sync_installation-IsSafe _ (record { safe = h.safe }) slot id org.id

  removed-IsSafe :
      (ids : List ℕ) (count : ℕ) (org : Option Organization) (w : World)
      → IsSafe w
      → IsSafe (removed_events machines new_id slot ids count (org, w))
  unfolding removed_events
  removed-IsSafe ids count none w h = h
  removed-IsSafe ids count (some org) w h =
      if_IsSafe (count == 0) (λ _. h) (λ _. record { safe = h.safe })

  installed_repositories-IsSafe :
      (id : Option ℕ) (payload : Payload) (w : World)
      → IsSafe w
      → IsSafe (installation_repositories_at machines new_id slot id payload w)
  unfolding installation_repositories_at upsert_org_from_installation
  installed_repositories-IsSafe none payload w h = h
  installed_repositories-IsSafe (some id) payload w h =
      if_IsSafe (text_eq payload.action (codes "added"))
        (λ _.
          added-IsSafe payload.added_ids id _ _
            (upserted-IsSafe payload.account_id payload.account_login id w h))
        (λ _.
          if_IsSafe (text_eq payload.action (codes "removed"))
            (λ _. removed-IsSafe payload.removed_ids disabled.1 org.0 org.1 (
              upserted-IsSafe payload.account_id payload.account_login id disabled.0
                (record { safe = h.safe })))
            (λ _. h))
    where
      disabled : World × ℕ
      disabled = disable_repositories_by_github_ids machines payload.removed_ids w

      org : Option Organization × World
      org = upsert_org_with new_id payload.account_id payload.account_login id disabled.0

module _ (machines : Machines) (settings : WebhookSettings) (at : Surroundings) where
  handled-IsSafe :
      (event : Text) (payload : Payload) (w : World)
      → IsSafe w
      → IsSafe (handle_event machines settings at event payload w)
  unfolding handle_event handle_installation_event handle_installation_repositories_event
      handle_check_suite_event handle_repository_event
  handled-IsSafe event payload w h =
      if_IsSafe (text_eq event (codes "push"))
        (λ _. push-IsSafe machines w h at.now settings.bot_handle at.task_slot payload)
        (λ _.
          if_IsSafe (text_eq event (codes "delete"))
            (λ _. delete-IsSafe machines at.now w h payload)
            (λ _.
              if_IsSafe (text_eq event (codes "workflow_run"))
                (λ _. workflow_run-IsSafe w h payload)
                (λ _.
                  if_IsSafe (text_eq event (codes "issue_comment"))
                    (λ _. comment-IsSafe w h at.now payload)
                    (λ _.
                      if_IsSafe (text_eq event (codes "installation"))
                        (λ _.
                          installation-IsSafe machines at.new_id at.task_slot
                            payload.installation_id payload w h)
                        (λ _.
                          if_IsSafe (text_eq event (codes "installation_repositories"))
                            (λ _.
                              installed_repositories-IsSafe machines at.new_id at.task_slot
                                payload.installation_id payload w h)
                            (λ _.
                              if_IsSafe (text_eq event (codes "pull_request"))
                                (λ _. pull_request-IsSafe machines at.now w h at.new_id payload)
                                (λ _.
                                  if_IsSafe (text_eq event (codes "check_suite"))
                                    (λ _. check_suite-IsSafe w h payload payload.suite_head_branch)
                                    (λ _.
                                      if_IsSafe (text_eq event (codes "pull_request_review"))
                                        (λ _. review-IsSafe w h payload)
                                        (λ _.
                                          if_IsSafe (text_eq event (codes "repository"))
                                            (λ _.
                                              acted_on-IsSafe w h machines
                                                (find_repository payload.repository_id w) payload)
                                            (λ _. h))))))))))

  accepted-IsSafe :
      (event : Text) (request : WebhookRequest) (payload : Option Payload) (w : World)
      → IsSafe w
      → IsSafe (accept machines settings at event request payload w).1
  unfolding accept
  accepted-IsSafe event request none w h = h
  accepted-IsSafe event request (some payload) w h =
      elim (Bool-cases (is_duplicate_delivery request.x_github_delivery at.delivery_slot)) [
        | inl seen ↦ rw seen h
        | inr new ↦ rw new (handled-IsSafe event payload w h)
      ]

  -- Where no analysis and no scan is queued for a branch of the app, none is after a webhook, whatever
  -- it says.
  pub github_webhook-NeverOwn :
      (hmac : Text → Text → Text) (request : WebhookRequest) (w : World)
      → NeverOwn w
      → NeverOwn (github_webhook machines settings at hmac request w).1
  unfolding github_webhook
  github_webhook-NeverOwn hmac request w h =
      elim (Bool-cases (is_empty_text settings.webhook_secret)) [
        | inl open_ ↦ elim (Bool-cases (text_eq settings.environment (codes "local"))) [
          | inl local ↦ rw (open_, local) done
          | inr other ↦ rw (open_, other) h
        ]
        | inr secret ↦
            elim (Bool-cases (
              verify_webhook_signature hmac request.payload_bytes request.x_hub_signature_256
                settings.webhook_secret)) [
                  | inl good ↦ rw (secret, good) done
                  | inr bad ↦ rw (secret, bad) h
                ]
      ]
    where
      done :
          NeverOwn
            (accept machines settings at
              (event_name request.x_github_event)
              request
              request.payload
              w).1
      done =
          (accepted-IsSafe (event_name request.x_github_event) request request.payload w
            (record { safe = h })).safe
