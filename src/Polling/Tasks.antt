-- ===== src/Polling/Tasks.antt =====
-- backend/app/workers/tasks/polling.py: the two tasks.
use greensecops.Common.{
  ℕ, ◌+◌, ◌*◌, Bool, List, [], ◌∷◌, Option, none, some, ◌==◌, ◌&&◌, ◌||◌, not, filter, length,
  if◌then◌else◌,
}
use greensecops.Events.Store.{
  Repository, PullRequest, Task, poll_repository, World, Machines, get_repository, enqueue,
}
use greensecops.Webhooks.Push.{is_open_of}
use greensecops.Polling.Fetching.{GithubClient, PrPollResult, fetch_repo_poll_data}
use greensecops.Polling.Applying.{apply_push, apply_pr}

-- The dictionary that a task returns.
pub data PollStatus : Type 0 where
  skipped : PollStatus
  ok : (prs analyses_enqueued : ℕ) → PollStatus
  queued : (repos : ℕ) → PollStatus

-- `data.prs.get(pr.id)`.
unfoldable pub find_result : ℕ → List (ℕ × PrPollResult) → Option PrPollResult
find_result id [] = none
find_result id ((key, result) ∷ results) =
    let rest = find_result id results in if key == id then some result else rest

module _ (machines : Machines) (now : ℕ) where
  unfoldable pub apply_result : Repository → PullRequest → Option PrPollResult → World → World
  unfolding apply_pr
  apply_result repo pr none w = w
  apply_result repo pr (some result) w = (apply_pr machines now repo pr result w).1

  unfoldable pub apply_prs : Repository → List (ℕ × PrPollResult) → List PullRequest → World → World
  unfolding apply_result find_result
  apply_prs repo results [] w = w
  apply_prs repo results (pr ∷ prs) w =
      apply_prs repo results prs (apply_result repo pr (find_result pr.id results) w)

  unfoldable pub poll_enabled : GithubClient → Option Repository → World → World × PollStatus
  unfolding apply_prs apply_push fetch_repo_poll_data is_open_of
  poll_enabled client none w = (w, skipped)
  poll_enabled client (some repo) w =
      let open_prs = filter (is_open_of repo) w.pull_requests in
      let found = fetch_repo_poll_data client repo open_prs in
      let (polled, pushed, analysed) = apply_push now repo found w in
      if repo.enabled
      then (
        apply_prs polled found.prs open_prs pushed,
        ok (length open_prs) (if analysed then 1 else 0),
      )
      else (w, skipped)

  unfoldable pub poll_repository_impl : GithubClient → ℕ → World → World × PollStatus
  unfolding poll_enabled get_repository
  poll_repository_impl client repo_id w = poll_enabled client (get_repository repo_id w) w

abbrev pub poll_stagger_seconds : ℕ
poll_stagger_seconds = 5

-- `enumerate`, from an index on.
unfoldable pub poll_tasks : ℕ → List Repository → List Task
poll_tasks i [] = []
poll_tasks i (repo ∷ repos) =
    poll_repository repo.id (i * poll_stagger_seconds) ∷ poll_tasks (i + 1) repos

unfoldable pub is_polled : Bool → Repository → Bool
is_polled external_only repo = repo.enabled && (not external_only || repo.is_external)

unfoldable pub poll_repositories_impl : Bool → World → World × PollStatus
unfolding poll_tasks is_polled enqueue
poll_repositories_impl external_only w =
    let repos = filter (is_polled external_only) w.repositories in
    (enqueue (poll_tasks 0 repos) w, queued (length repos))
