-- ===== src/Webhooks/Verified.antt =====
-- What a request must show before it changes anything.
use greensecops.Common.{
  ◌≡◌, ◌⊎◌, inl, inr, refl, sym, ap, true, [], ◌∷◌, ◌++◌, Option, none, some, Bool-cases, arith,
  Text, codes, text_eq, text_eq→eq, is_empty_text,
}
use greensecops.Events.Store.{World, Machines}
use greensecops.Webhooks.Payload.{Payload}
use greensecops.Webhooks.Dispatch.{
  Response, accepted, WebhookRequest, WebhookSettings, Surroundings, verify_webhook_signature,
  accept, github_webhook, is_duplicate_delivery, event_name,
}

-- The header is the HMAC of the body, or there is no secret and the environment is the local one.
abbrev pub IsVerified : (Text → Text → Text) → WebhookSettings → WebhookRequest → Type 0
IsVerified hmac settings request =
    ((settings.webhook_secret ≡ []) × (settings.environment ≡ codes "local"))
    ⊎ (request.x_hub_signature_256
        ≡ some (codes "sha256=" ++ hmac settings.webhook_secret request.payload_bytes))

verified_header :
    (hmac : Text → Text → Text) (bytes secret : Text) (header : Option Text)
    → verify_webhook_signature hmac bytes header secret ≡ true
    → header ≡ some (codes "sha256=" ++ hmac secret bytes)
unfolding verify_webhook_signature
verified_header hmac bytes secret none h = cc
verified_header hmac bytes secret (some header) h =
    ap some (sym (text_eq→eq (codes "sha256=" ++ hmac secret bytes) header (ground arith)))

empty_text : (t : Text) → is_empty_text t ≡ true → t ≡ []
unfolding is_empty_text
empty_text [] h = refl
empty_text (_ ∷ _) h = cc

abbrev pub IsAccepted : WebhookRequest → Response → Type 0
IsAccepted request response =
    ((payload : Payload) × (request.payload ≡ some payload))
    × ((event : Text) × (response ≡ accepted event))

accept_cases :
    (machines : Machines) (settings : WebhookSettings) (at : Surroundings) (event : Text)
    (request : WebhookRequest) (payload : Option Payload) (w : World)
    → request.payload ≡ payload
    → let (response, after) = accept machines settings at event request payload w in
      IsAccepted request response ⊎ (after ≡ w)
unfolding accept
accept_cases machines settings at event request none w e = inr refl
accept_cases machines settings at event request (some payload) w e =
    elim (Bool-cases (is_duplicate_delivery request.x_github_delivery at.delivery_slot)) [
      | inl seen ↦ rw seen (inr refl)
      | inr new ↦ rw new (inl ((payload, e), (event, refl)))
    ]

-- A request changes nothing unless it is answered as accepted, its body is JSON, and it is verified:
-- its signature is the HMAC of its body, or there is no secret in the local environment.
pub github_webhook-IsVerified :
    (machines : Machines) (settings : WebhookSettings) (at : Surroundings)
    (hmac : Text → Text → Text) (request : WebhookRequest) (w : World)
    → let (response, after) = github_webhook machines settings at hmac request w in
      (IsVerified hmac settings request × IsAccepted request response) ⊎ (after ≡ w)
unfolding github_webhook
github_webhook-IsVerified machines settings at hmac request w =
    elim (Bool-cases (is_empty_text settings.webhook_secret)) [
      | inl none_ ↦ elim (Bool-cases (text_eq settings.environment (codes "local"))) [
        | inl local ↦
            rw (none_, local)
              (verified
                (inl (
                  empty_text settings.webhook_secret none_,
                  text_eq→eq settings.environment _ local,
                ))
                done)
        | inr other ↦ rw (none_, other) (inr refl)
      ]
      | inr secret ↦
          elim (Bool-cases (
            verify_webhook_signature hmac request.payload_bytes request.x_hub_signature_256
              settings.webhook_secret)) [
                | inl good ↦
                    rw (secret, good)
                      (verified
                        (inr (
                          verified_header hmac request.payload_bytes settings.webhook_secret
                            request.x_hub_signature_256 good))
                        done)
                | inr bad ↦ rw (secret, bad) (inr refl)
              ]
    ]
  where
    result : Response × World
    result =
        accept machines settings at (event_name request.x_github_event) request request.payload w

    done : IsAccepted request result.0 ⊎ (result.1 ≡ w)
    done =
        accept_cases machines settings at (event_name request.x_github_event) request
          request.payload w refl

    verified :
        IsVerified hmac settings request
        → IsAccepted request result.0 ⊎ (result.1 ≡ w)
        → (IsVerified hmac settings request × IsAccepted request result.0) ⊎ (result.1 ≡ w)
    verified v (inl a) = inl (v, a)
    verified v (inr same) = inr same
