-- ===== src/StateMachines/PullRequest.antt =====
-- backend/app/services/state_machines/pull_request.py and `PullRequestState` of backend/app/models/enums.py. `opened` is the
-- source's `open`.
pub mod Graph
use greensecops.Common.{Bool, true, false, List, [], ◌∷◌, Option, none, some}
use greensecops.StateMachines.Base.{Machine}
use greensecops.StateMachines.Signals.{SseSignal, pr_closed, pr_merged, pr_opened, pr_updated}

pub data PullRequestState : Type 0 where
  opened draft merged closed : PullRequestState

pub data PullRequestEvent : Type 0 where
  redeliver external_update convert_to_draft mark_ready_for_review merge close reopen :
      PullRequestEvent

unfoldable pub PullRequestState-discrete : Discrete PullRequestState
PullRequestState-discrete = hlevel

abbrev pub pull_request_final : PullRequestState → Bool
pull_request_final merged = true
pull_request_final _ = false

abbrev pub pull_request_transitions : PullRequestEvent → List (PullRequestState × PullRequestState)
pull_request_transitions redeliver = (opened, opened) ∷ []
pull_request_transitions external_update = (opened, opened) ∷ (draft, draft) ∷ []
pull_request_transitions convert_to_draft = (opened, draft) ∷ []
pull_request_transitions mark_ready_for_review = (draft, opened) ∷ []
pull_request_transitions merge = (opened, merged) ∷ (draft, merged) ∷ []
pull_request_transitions close = (opened, closed) ∷ (draft, closed) ∷ []
pull_request_transitions reopen = (closed, opened) ∷ []

abbrev pub pull_request_outputs : PullRequestEvent → Option SseSignal
pull_request_outputs redeliver = some pr_updated
pull_request_outputs external_update = some pr_updated
pull_request_outputs convert_to_draft = some pr_updated
pull_request_outputs mark_ready_for_review = some pr_updated
pull_request_outputs merge = some pr_merged
pull_request_outputs close = some pr_closed
pull_request_outputs reopen = some pr_opened

unfoldable pub pull_request_machine : Machine PullRequestState PullRequestEvent
pull_request_machine = record {
  initial = opened;
  final = pull_request_final;
  transitions = pull_request_transitions;
  outputs = pull_request_outputs;
}
