-- ===== src/Polling/Fetching.antt =====
-- backend/app/workers/tasks/polling.py: `_fetch_repo_poll_data`. The client of GitHub is a parameter, and its `none` is a
-- call that raised. A call that raises is logged, and its part of the data is left as it was.
use greensecops.Common.{ℕ, List, [], ◌∷◌, ◌++◌, Option, none, some, Text}
use greensecops.Events.Store.{Repository, PullRequest}
use greensecops.Polling.Snapshot.{
  RemotePullRequest, PrSnapshot, pull_request_snapshot, parse_pr_url,
}

pub record GithubClient : Type 0 where
  pub resolve_repo_token : Repository → Option (Option Text)
  pub get_default_branch_head : Option Text → Text → Option (Text × Option ℕ)
  pub get_pull : Option Text → Text → ℕ → Option RemotePullRequest
  pub list_pr_command_comments : Option Text → Text → ℕ → Option ℕ → Option (List Text)

pub record PrPollResult : Type 0 where
  pub snapshot : Option PrSnapshot
  pub command_comments : List Text

-- `branch` is empty where it is None.
pub record RepoPollData : Type 0 where
  pub branch : Text
  pub head_sha : Option ℕ
  pub prs : List (ℕ × PrPollResult)

abbrev pub no_data : RepoPollData
no_data = record { branch = []; head_sha = none; prs = [] }

unfoldable pub or_empty : Option Text → Text
or_empty none = []
or_empty (some s) = s

unfoldable pub or_no_comments : Option (List Text) → List Text
or_no_comments none = []
or_no_comments (some comments) = comments

unfoldable pub snapshot_of : Option RemotePullRequest → Option PrSnapshot
unfolding pull_request_snapshot
snapshot_of none = none
snapshot_of (some pr) = pull_request_snapshot pr

module _ (client : GithubClient) (token : Option Text) where
  unfoldable pub fetch_pr : PullRequest → Option (Text × ℕ) → List (ℕ × PrPollResult)
  unfolding snapshot_of or_no_comments
  fetch_pr pr none = []
  fetch_pr pr (some (full_name, number)) =
      (
        pr.id,
        record {
          snapshot = snapshot_of (client.get_pull token full_name number);
          command_comments =
              or_no_comments
                (client.list_pr_command_comments token full_name number pr.last_polled_comment_at);
        },
      )
      ∷ []

  unfoldable pub fetch_prs : List PullRequest → List (ℕ × PrPollResult)
  unfolding fetch_pr parse_pr_url or_empty
  fetch_prs [] = []
  fetch_prs (pr ∷ prs) = fetch_pr pr (parse_pr_url (or_empty pr.pr_url)) ++ fetch_prs prs

unfoldable pub with_head : Option (Text × Option ℕ) → List (ℕ × PrPollResult) → RepoPollData
with_head none prs = record no_data { prs = prs }
with_head (some (branch, sha)) prs = record { branch = branch; head_sha = sha; prs = prs }

unfoldable pub fetch_with :
    GithubClient → Option (Option Text) → Repository → List PullRequest → RepoPollData
unfolding fetch_prs with_head
fetch_with client none repo prs = no_data
fetch_with client (some token) repo prs =
    with_head (client.get_default_branch_head token repo.full_name) (fetch_prs client token prs)

unfoldable pub fetch_repo_poll_data : GithubClient → Repository → List PullRequest → RepoPollData
unfolding fetch_with
fetch_repo_poll_data client repo prs = fetch_with client (client.resolve_repo_token repo) repo prs
