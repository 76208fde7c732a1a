-- ===== src/StateMachines/PullRequest/Graph.antt =====
-- The graph that backend/app/services/state_machines/pull_request.py declares.
use greensecops.Common.{◌≡◌, refl, true, false, none, some, arith}
use greensecops.StateMachines.Base.{next_state, Reach, here, after, IsWellFormed}
use greensecops.StateMachines.PullRequest.{
  PullRequestState, opened, draft, merged, closed, PullRequestEvent, redeliver, external_update,
  convert_to_draft, merge, close, reopen, PullRequestState-discrete, pull_request_machine,
}

-- Opens what the graph computes with.
computed : Unit {0}
unfolding next_state pull_request_machine PullRequestState-discrete
computed = tt

pull_request_connected :
    (s : PullRequestState) → Reach PullRequestState-discrete pull_request_machine opened s
unfolding computed
pull_request_connected opened = here
pull_request_connected draft = after here convert_to_draft refl
pull_request_connected merged = after here merge refl
pull_request_connected closed = after here close refl

pull_request_final_stuck :
    (s : PullRequestState) (e : PullRequestEvent)
    → pull_request_machine.final s ≡ true
    → next_state PullRequestState-discrete pull_request_machine e s ≡ none
unfolding computed
pull_request_final_stuck s e h = ground arith

pull_request_live :
    (s : PullRequestState)
    → pull_request_machine.final s ≡ false
    → (e : PullRequestEvent) × (t : PullRequestState) × (next_state PullRequestState-discrete
          pull_request_machine e s
        ≡ some t)
unfolding computed
pull_request_live opened h = (redeliver, opened, refl)
pull_request_live draft h = (external_update, draft, refl)
pull_request_live merged h = cc
pull_request_live closed h = (reopen, opened, refl)

-- Every state is reachable from the initial one, a final state refuses every event, and every
-- other state has an event that is legal in it.
pub pull_request_machine-IsWellFormed : IsWellFormed PullRequestState-discrete pull_request_machine
unfolding computed
pull_request_machine-IsWellFormed = record {
  connected = pull_request_connected;
  final_stuck = pull_request_final_stuck;
  live = pull_request_live;
}
