-- ===== src/Polling/Agreement.antt =====
-- A poll beside the webhooks that would have told it the same, and beside itself.
use greensecops.Common.{
  ℕ, ◌≡◌, inl, inr, refl, false, [], Option, none, some, if◌then◌else◌, Bool-cases, arith, Text,
  codes, text_eq, is_empty_text,
}
use greensecops.StateMachines.PullRequest.{merge, close}
use greensecops.Events.Store.{Repository, PullRequest, World, Machines}
use greensecops.Events.Lifecycle.{handle_pull_request_lifecycle}
use greensecops.Webhooks.Payload.{Payload, find_pr_of_url}
use greensecops.Webhooks.PullRequests.{
  handle_pull_request_event, pull_request_at, act_on_pull_request,
}
use greensecops.Polling.Snapshot.{RemotePullRequest, PrSnapshot, pull_request_snapshot}
use greensecops.Polling.Fetching.{RepoPollData}
use greensecops.Polling.Applying.{
  is_state, push_at, apply_push, apply_event, apply_snapshot, apply_pr, apply_command_comments,
}
use greensecops.Polling.Converging.{IsLive, live_event}

abbrev pub SameEffects : World → World → Type 0
SameEffects a b =
    (a.fixes ≡ b.fixes)
    × (a.findings ≡ b.findings)
    × (a.queued ≡ b.queued)
    × (a.published ≡ b.published)
    × (a.repositories ≡ b.repositories)

ended_event :
    (pr : PullRequest) (remote : RemotePullRequest) (snapshot : PrSnapshot) (machines : Machines)
    (now : ℕ) (w : World)
    → IsLive pr
    → remote.state ≡ codes "closed"
    → pull_request_snapshot remote ≡ some snapshot
    → apply_snapshot machines now (some snapshot) (pr, w)
      ≡ handle_pull_request_lifecycle machines now (if remote.merged then merge else close) pr w
unfolding apply_snapshot pull_request_snapshot text_eq apply_event is_state
ended_event pr remote snapshot machines now w live h e =
    ground (arith, h, live_event pr snapshot live)

-- For a pull request that was open or a draft and that GitHub has closed or merged, a poll that finds
-- no comment does to the fixes, the findings, the repositories, the queue and the events what the
-- `closed` webhook does.
pub poll-webhook :
    (machines : Machines) (now new_id : ℕ) (repo : Repository) (pr : PullRequest)
    (remote : RemotePullRequest) (snapshot : PrSnapshot) (payload : Payload) (url : Text)
    (w : World)
    → IsLive pr
    → remote.state ≡ codes "closed"
    → pull_request_snapshot remote ≡ some snapshot
    → payload.action ≡ codes "closed"
    → payload.pr_merged ≡ remote.merged
    → payload.pr_url ≡ some url
    → find_pr_of_url url w ≡ some pr
    → SameEffects
        (apply_pr machines now repo pr
          (record { snapshot = some snapshot; command_comments = [] })
          w).1
        (handle_pull_request_event machines now new_id payload w)
unfolding apply_pr apply_command_comments handle_pull_request_event text_eq pull_request_at
    act_on_pull_request
poll-webhook machines now new_id repo pr remote snapshot payload url w live closed seen action
      merged at found =
    rw (ended_event pr remote snapshot machines now w live closed seen, action, at, found, merged)
      (refl, refl, refl, refl, refl)

push_at_twice :
    (now later : ℕ) (repo : Repository) (branch : Text) (sha : Option ℕ) (w : World)
    → let (repo1, w1, moved1) = push_at now repo branch sha w in
      let (repo2, w2, moved2) = push_at later repo1 branch sha w1 in
      (moved2 ≡ false) × (w2.queued ≡ w1.queued) × (w2.published ≡ w1.published)
unfolding push_at
push_at_twice now later repo branch none w = (refl, refl, refl)
push_at_twice now later repo branch (some sha) w = elim (Bool-cases (is_empty_text branch)) [
  | inl e ↦ ground (arith, e)
  | inr e ↦ ground (arith, e)
]

-- A second poll that sees the same head queues nothing, publishes nothing and reports that no analysis
-- was queued.
pub apply_push_twice :
    (now later : ℕ) (repo : Repository) (found : RepoPollData) (w : World)
    → let (repo1, w1, moved1) = apply_push now repo found w in
      let (repo2, w2, moved2) = apply_push later repo1 found w1 in
      (moved2 ≡ false) × (w2.queued ≡ w1.queued) × (w2.published ≡ w1.published)
unfolding apply_push
apply_push_twice now later repo found w = push_at_twice now later repo found.branch found.head_sha w
