-- ===== src/Tests/Polling.antt =====
-- Polls at concrete inputs.
use greensecops.Common.{
  ℕ, ◌≡◌, inl, inr, refl, true, false, List, [], ◌∷◌, All, none, some, Text, codes, text_eq, first,
}
use greensecops.StateMachines.Base.{value}
use greensecops.StateMachines.PullRequest.{PullRequestState}
use greensecops.Events.Enums.{CiStatus}
use greensecops.Webhooks.Payload.{Payload, find_pr_of_url}
use greensecops.Webhooks.PullRequests.{handle_pull_request_event}
use greensecops.Polling.Snapshot.{RemotePullRequest, PrSnapshot, pull_request_snapshot}
use greensecops.Polling.Fetching.{RepoPollData}
use greensecops.Polling.Applying.{apply_pr}
use greensecops.Polling.Converging.{seen_state, apply_pr-seen_state}
use greensecops.Polling.Agreement.{SameEffects, poll-webhook}
use greensecops.Tests.Hub.{machines, repository, pull_request, pull_url, world, payload}

-- The pull request as GitHub has it: merged.
abbrev remote : RemotePullRequest
remote = record {
  state = codes "closed";
  merged = true;
  draft = false;
  head_sha = none;
  mergeable_state = none;
  check_runs = [];
  reviews = [];
}

abbrev snapshot : PrSnapshot
snapshot = record {
  state = PullRequestState.merged;
  merged = true;
  draft = false;
  head_sha = none;
  mergeable_state = none;
  ci_status = CiStatus.none;
  review_decision = none;
}

seen : pull_request_snapshot remote ≡ some snapshot
unfolding pull_request_snapshot
seen = refl

apply_pr-seen_state_example :
    let (row, after) =
      apply_pr machines 100 repository pull_request
        (record { snapshot = some snapshot; command_comments = [] })
        world in
    (◌≡◌ {A = ℕ} row.id 2)
    × (row.pr_state ≡ value (seen_state remote))
    × All (λ other. other.id ≡ 2 → other ≡ row) after.pull_requests
apply_pr-seen_state_example =
    apply_pr-seen_state machines 100 repository pull_request remote snapshot [] world (inl refl)
      (inr refl) seen

found : find_pr_of_url pull_url world ≡ some pull_request
unfolding find_pr_of_url first text_eq
found = refl

poll-webhook_example :
    SameEffects
      (apply_pr machines 100 repository pull_request
        (record { snapshot = some snapshot; command_comments = [] })
        world).1
      (handle_pull_request_event machines 100 99 payload world)
poll-webhook_example =
    poll-webhook machines 100 99 repository pull_request remote snapshot payload pull_url world
      (inl refl) refl seen refl refl refl found

abbrev head : RepoPollData
head = record { branch = codes "main"; head_sha = some 93; prs = [] }

abbrev review : Payload
review = record payload { action = codes "submitted" }

abbrev reviews : List Text
reviews = codes "APPROVED" ∷ codes "COMMENTED" ∷ []
