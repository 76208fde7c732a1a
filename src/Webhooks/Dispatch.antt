-- ===== src/Webhooks/Dispatch.antt =====
-- backend/app/api/routes/webhooks.py: `github_webhook`, and backend/app/services/github/webhook_verifier.py. HMAC-SHA256, as
-- hexadecimal digits, and the JSON parser are parameters.
use greensecops.Common.{
  ℕ, Bool, false, ◌++◌, Option, none, some, ◌&&◌, not, if◌then◌else◌, Text, codes, text_eq,
  starts_with, is_empty_text,
}
use greensecops.Events.Store.{World, Machines}
use greensecops.Webhooks.Payload.{Payload, SlotReply, may_go_on}
use greensecops.Webhooks.Push.{handle_push_event}
use greensecops.Webhooks.Branches.{handle_delete_event}
use greensecops.Webhooks.PullRequests.{
  handle_pull_request_event, handle_check_suite_event, handle_pull_request_review_event,
  handle_workflow_run_event, handle_issue_comment_event,
}
use greensecops.Webhooks.Repositories.{handle_repository_event}
use greensecops.Webhooks.Installations.{
  handle_installation_event, handle_installation_repositories_event,
}

-- What the route answers: an `HTTPException`, or the status of its JSON.
pub data Response : Type 0 where
  accepted duplicate : (event : Text) → Response
  not_configured invalid_signature invalid_json : Response

pub record WebhookRequest : Type 0 where
  pub payload_bytes : Text
  pub x_hub_signature_256 : Option Text
  pub x_github_event : Option Text
  pub x_github_delivery : Option Text
  pub payload : Option Payload

pub record WebhookSettings : Type 0 where
  pub webhook_secret : Text
  pub environment : Text
  pub bot_handle : Text

-- What the route reads from its surroundings: the clock, a new id, and Redis's answers for the
-- delivery and for the task that the handler may queue.
pub record Surroundings : Type 0 where
  pub now : ℕ
  pub new_id : ℕ
  pub delivery_slot : SlotReply
  pub task_slot : SlotReply

-- The header is ASCII; on another `compare_digest` raises.
unfoldable pub verify_webhook_signature : (Text → Text → Text) → Text → Option Text → Text → Bool
verify_webhook_signature hmac payload_bytes none secret = false
verify_webhook_signature hmac payload_bytes (some header) secret =
    not (is_empty_text header)
    && starts_with (codes "sha256=") header
    && text_eq (codes "sha256=" ++ hmac secret payload_bytes) header

unfoldable pub is_duplicate_delivery : Option Text → SlotReply → Bool
unfolding may_go_on
is_duplicate_delivery none slot = false
is_duplicate_delivery (some delivery_id) slot =
    not (is_empty_text delivery_id) && not (may_go_on slot)

unfoldable pub event_name : Option Text → Text
event_name none = codes "unknown"
event_name (some name) = if is_empty_text name then codes "unknown" else name

module _ (machines : Machines) (settings : WebhookSettings) (at : Surroundings) where
  unfoldable pub handle_event : Text → Payload → World → World
  handle_event event payload w =
      if text_eq event (codes "push")
      then handle_push_event machines at.now settings.bot_handle at.task_slot payload w
      else if text_eq event (codes "delete")
      then handle_delete_event machines at.now payload w
      else if text_eq event (codes "workflow_run")
      then handle_workflow_run_event payload w
      else if text_eq event (codes "issue_comment")
      then handle_issue_comment_event at.now payload w
      else if text_eq event (codes "installation")
      then handle_installation_event machines at.new_id at.task_slot payload w
      else if text_eq event (codes "installation_repositories")
      then handle_installation_repositories_event machines at.new_id at.task_slot payload w
      else if text_eq event (codes "pull_request")
      then handle_pull_request_event machines at.now at.new_id payload w
      else if text_eq event (codes "check_suite")
      then handle_check_suite_event payload w
      else if text_eq event (codes "pull_request_review")
      then handle_pull_request_review_event payload w
      else if text_eq event (codes "repository")
      then handle_repository_event machines payload w
      else w

  unfoldable pub accept : Text → WebhookRequest → Option Payload → World → Response × World
  accept event request none w = (invalid_json, w)
  accept event request (some payload) w =
      if is_duplicate_delivery request.x_github_delivery at.delivery_slot
      then (duplicate event, w)
      else (accepted event, handle_event event payload w)

  unfoldable pub github_webhook : (Text → Text → Text) → WebhookRequest → World → Response × World
  github_webhook hmac request w =
      let proceed = accept (event_name request.x_github_event) request request.payload w in
      if is_empty_text settings.webhook_secret
      then if text_eq settings.environment (codes "local") then proceed else (not_configured, w)
      else if verify_webhook_signature hmac request.payload_bytes request.x_hub_signature_256
          settings.webhook_secret
      then proceed
      else (invalid_signature, w)
