-- ===== src/Webhooks/Push.antt =====
-- backend/app/api/routes/webhooks.py: `push` events.
use greensecops.Common.{
  ℕ, zero, suc, Bool, true, false, List, [], ◌∷◌, ◌++◌, Option, none, some, ◌==◌, ◌&&◌, ◌||◌, any,
  first, if◌then◌else◌, Text, codes, text_eq, starts_with, remove_prefix,
}
use greensecops.StateMachines.Base.{Column, value}
use greensecops.StateMachines.PullRequest.{PullRequestState, opened, draft, external_update}
use greensecops.Events.Enums.{webhook_push}
use greensecops.Events.Store.{
  Repository, PullRequest, WorkflowFix, Event, pr_updated, refresh_pr_mergeable_state, World,
  Machines, enqueue, announce, save_pull_request,
}
use greensecops.Events.Scans.{
  is_own_branch, enqueue_workflow_analysis, enqueue_terraform_scans, enqueue_docker_scans,
  enqueue_ansible_scans,
}
use greensecops.Events.Lifecycle.{is_of_pr, advance_pr}
use greensecops.Webhooks.Payload.{
  Commit, Payload, SlotReply, may_go_on, find_repository, find_pr_of_branch,
}
use greensecops.Webhooks.Bots.{is_bot_login}

-- `pr_state IN ('open', 'draft')`.
unfoldable pub is_live_state : Column PullRequestState → Bool
is_live_state (value opened) = true
is_live_state (value draft) = true
is_live_state _ = false

unfoldable pub has_url : PullRequest → Bool
has_url pr = elim pr.pr_url [ none ↦ false | some _ ↦ true ]

unfoldable pub is_open_of : Repository → PullRequest → Bool
unfolding is_live_state has_url
is_open_of repo pr = pr.repo_id == repo.id && is_live_state pr.pr_state && has_url pr

unfoldable pub enqueue_pr_mergeable_refresh : SlotReply → Repository → World → World
unfolding is_open_of may_go_on enqueue
enqueue_pr_mergeable_refresh slot repo w =
    if any (is_open_of repo) w.pull_requests && may_go_on slot
    then enqueue (refresh_pr_mergeable_state repo.id ∷ []) w
    else w

-- The event on the first fix of the pull request, where that has a URL.
unfoldable pub modified_events :
    Repository → PullRequest → Option Text → Option WorkflowFix → List Event
modified_events repo pr none fix = []
modified_events repo pr (some url) none = []
modified_events repo pr (some url) (some fix) =
    pr_updated repo.org_id repo.id (fix.id ∷ []) (some url) pr.pr_branch ∷ []

module _ (machines : Machines) (now : ℕ) where
  unfoldable pub flag_modified : Repository → Option PullRequest → World → World
  unfolding advance_pr save_pull_request announce modified_events
  flag_modified repo none w = w
  flag_modified repo (some pr) w =
      let flagged = record pr { externally_modified = true; updated_at = some now } in
      let saved = (advance_pr machines external_update flagged).0 in
      if pr.externally_modified
      then w
      else announce (modified_events repo saved saved.pr_url (first (is_of_pr pr) w.fixes))
          (save_pull_request saved w)

  unfoldable pub flag_externally_modified_fix_branch :
      Text → Repository → Text → Payload → World → World
  unfolding is_bot_login flag_modified find_pr_of_branch
  flag_externally_modified_fix_branch bot_handle repo branch payload w =
      if is_bot_login bot_handle payload.sender_login bot_handle
      then w
      else flag_modified repo (find_pr_of_branch repo branch w) w

-- `{f for c in commits for f in added + modified + removed}`; the set is only searched.
unfoldable pub changed_paths_of : List Commit → List Text
changed_paths_of [] = []
changed_paths_of (c ∷ cs) = c.added ++ (c.modified ++ (c.removed ++ changed_paths_of cs))

abbrev pub zeros : ℕ → Text
zeros zero = []
zeros (suc n) = b'0' ∷ zeros n

unfoldable pub is_new_branch : Payload → Bool
is_new_branch payload = text_eq payload.before (zeros 40)

unfoldable pub touches_workflows : List Text → Bool
touches_workflows paths = any (starts_with (codes ".github/workflows/")) paths

-- What a push to a branch of an enabled repository queues.
unfoldable pub enqueue_push : SlotReply → Repository → Text → Payload → World → World
unfolding enqueue_pr_mergeable_refresh changed_paths_of is_new_branch touches_workflows
    enqueue_workflow_analysis enqueue_terraform_scans enqueue_docker_scans enqueue_ansible_scans
enqueue_push slot repo branch payload w =
    let paths = changed_paths_of payload.commits in
    let unknown = is_new_branch payload || payload.forced in
    let changed = if unknown then none else some paths in
    let refreshed =
      if text_eq branch repo.default_branch then enqueue_pr_mergeable_refresh slot repo w else w in
    let analysed =
      if touches_workflows paths || unknown
      then enqueue_workflow_analysis repo branch payload.after webhook_push false refreshed
      else refreshed in
    let terraform =
      enqueue_terraform_scans repo branch payload.after webhook_push changed analysed in
    let docker = enqueue_docker_scans repo branch payload.after webhook_push changed terraform in
    enqueue_ansible_scans repo branch payload.after webhook_push changed docker

unfoldable pub push_branch : Payload → Text
push_branch payload = remove_prefix (codes "refs/heads/") payload.ref

module _ (machines : Machines) (now : ℕ) (bot_handle : Text) (slot : SlotReply) where
  unfoldable pub push_to : Option Repository → Payload → World → World
  push_to none payload w = w
  push_to (some repo) payload w =
      let branch = push_branch payload in
      if is_own_branch branch
      then flag_externally_modified_fix_branch machines now bot_handle repo branch payload w
      else if repo.enabled
      then enqueue_push slot repo branch payload w
      else w

  unfoldable pub handle_push_event : Payload → World → World
  unfolding push_to
  handle_push_event payload w =
      if payload.deleted then w else push_to (find_repository payload.repository_id w) payload w
