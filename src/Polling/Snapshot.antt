-- ===== src/Polling/Snapshot.antt =====
-- backend/app/services/github/app_client.py: `PRSnapshot`, `get_pull_request_snapshot` and `parse_pr_url`. The pull
-- request, its check runs and its reviews are as GitHub gives them, and digits are ASCII.
use greensecops.Common.{
  ℕ, ◌+◌, ◌-◌, ◌*◌, Bool, false, List, [], ◌∷◌, ◌++◌, Option, none, some, ◌==◌, ◌&&◌, not, any, leb,
  if◌then◌else◌, Text, codes, text_eq, is_empty_text, starts_with, drop_length,
}
use greensecops.StateMachines.PullRequest.{PullRequestState}
use greensecops.Events.Enums.{CiStatus, ReviewDecision}
use greensecops.Events.Commands.{is_failure, review_state_to_decision}

pub record CheckRun : Type 0 where
  pub status : Text
  pub conclusion : Option Text

pub record RemotePullRequest : Type 0 where
  pub state : Text
  pub merged : Bool
  pub draft : Bool
  pub head_sha : Option ℕ
  pub mergeable_state : Option Text
  pub check_runs : List CheckRun
  pub reviews : List Text

pub record PrSnapshot : Type 0 where
  pub state : PullRequestState
  pub merged : Bool
  pub draft : Bool
  pub head_sha : Option ℕ
  pub mergeable_state : Option Text
  pub ci_status : CiStatus
  pub review_decision : Option ReviewDecision

unfoldable pub is_incomplete : CheckRun → Bool
is_incomplete run = not (text_eq run.status (codes "completed"))

unfoldable pub has_conclusion : (Text → Bool) → CheckRun → Bool
has_conclusion test run = elim run.conclusion [ none ↦ false | some conclusion ↦ test conclusion ]

-- The check runs of the head commit.
unfoldable pub ci_of_runs : List CheckRun → CiStatus
unfolding is_incomplete has_conclusion is_failure
ci_of_runs [] = CiStatus.none
ci_of_runs (run ∷ runs) =
    let all_runs = run ∷ runs in
    if any is_incomplete all_runs
    then CiStatus.pending
    else if not (any (λ r. not (has_conclusion (λ c. text_eq c (codes "success")) r)) all_runs)
    then CiStatus.success
    else if any (has_conclusion is_failure) all_runs
    then CiStatus.failure
    else CiStatus.none

unfoldable pub ci_of_head : Option ℕ → List CheckRun → CiStatus
unfolding ci_of_runs
ci_of_head none runs = CiStatus.none
ci_of_head (some sha) runs = ci_of_runs runs

unfoldable pub or_decision : Option ReviewDecision → Option ReviewDecision → Option ReviewDecision
or_decision none old = old
or_decision (some new) old = some new

-- The loop over the reviews, oldest first.
unfoldable pub last_decision : Option ReviewDecision → List Text → Option ReviewDecision
unfolding or_decision review_state_to_decision
last_decision decision [] = decision
last_decision decision (state ∷ states) =
    last_decision (or_decision (review_state_to_decision state) decision) states

-- `PullRequestState(pr.state)`; `none` is a `ValueError`.
unfoldable pub state_of_text : Text → Option PullRequestState
state_of_text state =
    if text_eq state (codes "open")
    then some PullRequestState.opened
    else if text_eq state (codes "closed")
    then some PullRequestState.closed
    else if text_eq state (codes "draft")
    then some PullRequestState.draft
    else if text_eq state (codes "merged")
    then some PullRequestState.merged
    else none

unfoldable pub with_state : Option PullRequestState → RemotePullRequest → Option PrSnapshot
unfolding ci_of_head last_decision
with_state none pr = none
with_state (some state) pr = some (record {
  state = state;
  merged = pr.merged;
  draft = pr.draft;
  head_sha = pr.head_sha;
  mergeable_state = pr.mergeable_state;
  ci_status = ci_of_head pr.head_sha pr.check_runs;
  review_decision = last_decision none pr.reviews;
})

unfoldable pub pull_request_snapshot : RemotePullRequest → Option PrSnapshot
unfolding with_state state_of_text
pull_request_snapshot pr =
    with_state (if pr.merged then some PullRequestState.merged else state_of_text pr.state) pr

unfoldable pub is_digit : ℕ → Bool
is_digit c = leb b'0' c && leb c b'9'

-- The text before the first slash, and what is behind that slash.
unfoldable pub until_slash : Text → Option (Text × Text)
until_slash [] = none
until_slash (c ∷ s) =
    let rest = until_slash s in
    if c == b'/'
    then some ([], s)
    else elim rest [ none ↦ none | some (before, behind) ↦ some (c ∷ before, behind) ]

-- The number that a text of digits begins with, added to the digits read.
unfoldable pub read_digits : ℕ → Text → ℕ
unfolding is_digit
read_digits n [] = n
read_digits n (c ∷ s) =
    let more = read_digits (n * 10 + (c - b'0')) s in if is_digit c then more else n

unfoldable pub pull_number : Text → Option ℕ
unfolding read_digits is_digit
pull_number [] = none
pull_number (c ∷ s) = if is_digit c then some (read_digits 0 (c ∷ s)) else none

unfoldable pub drop_prefix : Text → Text → Option Text
drop_prefix prefix s = if starts_with prefix s then some (drop_length prefix s) else none

-- `[^/]+` and the slash behind it.
unfoldable pub segment : Text → Option (Text × Text)
unfolding until_slash
segment s = elim (until_slash s) [
  | none ↦ none
  | some (before, behind) ↦ if is_empty_text before then none else some (before, behind)
]

unfoldable pub numbered : Text → Option Text → Option (Text × ℕ)
unfolding pull_number
numbered name none = none
numbered name (some rest) = elim (pull_number rest) [
  | none ↦ none
  | some number ↦ some (name, number)
]

unfoldable pub named : Option Text → Option (Text × ℕ)
unfolding segment numbered drop_prefix
named none = none
named (some path) = elim (segment path) [
  | none ↦ none
  | some (owner, rest) ↦ elim (segment rest) [
    | none ↦ none
    | some (repo, tail) ↦ numbered (owner ++ b'/' ∷ repo) (drop_prefix (codes "pull/") tail)
  ]
]

unfoldable pub parse_pr_url : Text → Option (Text × ℕ)
unfolding named drop_prefix
parse_pr_url url = named (drop_prefix (codes "https://github.com/") url)
