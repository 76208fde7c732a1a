-- ===== src/Webhooks/Safe.antt =====
-- A webhook never makes the app analyse or scan a branch of its own.
use greensecops.Webhooks.Branches.{
  is_file_of, delete_file, close_pr_of, delete_branch, delete_files, handle_delete_event, has_ended,
}
use greensecops.Webhooks.Bots.{is_bot_login}
use greensecops.Events.Attributes.{
  handle_issue_command, handle_pull_request_sync, handle_pull_request_draft_toggle, record_update,
}
use greensecops.Common.{
  All, All-append, Bool, List, Option, Text, [], any, arith, codes, false, filter, if◌then◌else◌,
  is_empty_text, none, refl, some, subst, sym, text_eq, true, ℕ, ◌&&◌, ◌||◌, ◌∷◌, ◌≡◌,
}
use greensecops.Events.Enums.{ScanTrigger, webhook_push}
use greensecops.StateMachines.PullRequest.{
  close, reopen, PullRequestEvent, convert_to_draft, mark_ready_for_review,
}
use greensecops.Webhooks.PullRequests.{
  is_pull_request_action, handle_pull_request_opened, handle_pull_request_event, open_for,
  link_pull_request, act_on_pull_request, pull_request_at,
}
use greensecops.Events.Lifecycle.{handle_pull_request_lifecycle}
use greensecops.Events.Store.{WorkflowFile, Machines, PullRequest, Repository, World}
use greensecops.Events.Scans.{
  enqueue_ansible_scans, enqueue_docker_scans, enqueue_terraform_scans, enqueue_workflow_analysis,
  is_own_branch,
}
use greensecops.Events.OwnBranches.{
  is_own_task, NeverOwn, enqueue_ansible_scans-NeverOwn, enqueue_docker_scans-NeverOwn,
  enqueue_terraform_scans-NeverOwn, enqueue_workflow_analysis-NeverOwn,
  handle_issue_command-NeverOwn,
}
use greensecops.Webhooks.Payload.{
  find_pr_of_url, find_pr_of_branch, Payload, SlotReply, find_repository, may_go_on,
}
use greensecops.Webhooks.Push.{
  changed_paths_of, enqueue_pr_mergeable_refresh, enqueue_push, flag_externally_modified_fix_branch,
  flag_modified, handle_push_event, is_new_branch, is_open_of, push_branch, push_to,
  touches_workflows,
}

-- `NeverOwn`, shut.
pub record IsSafe (w : World) : Type 0 where
  pub safe : NeverOwn w

-- What both branches have.
pub if_IsSafe :
    (b : Bool) {x y : World}
    → (b ≡ true → IsSafe x)
    → (b ≡ false → IsSafe y)
    → IsSafe (if b then x else y)
if_IsSafe true h k = h refl
if_IsSafe false h k = k refl

pub same_queue : (w after : World) → after.queued ≡ w.queued → IsSafe w → IsSafe after
same_queue w after e h = record {
  safe = subst (All (λ task. is_own_task task ≡ false)) (sym e) h.safe;
}

module _ (w : World) (h : IsSafe w) where
  refresh-IsSafe :
      (slot : SlotReply) (repo : Repository) → IsSafe (enqueue_pr_mergeable_refresh slot repo w)
  unfolding enqueue_pr_mergeable_refresh
  refresh-IsSafe slot repo =
      if_IsSafe (any (is_open_of repo) w.pull_requests && may_go_on slot)
        (λ _. record { safe = All-append _ w.queued _ h.safe (refl, tt) }) (λ _. h)

  pub analysis-IsSafe :
      (repo : Repository) (branch : Text) (sha : Option ℕ) (trigger : ScanTrigger) (force : Bool)
      → IsSafe (enqueue_workflow_analysis repo branch sha trigger force w)
  analysis-IsSafe repo branch sha trigger force = record {
    safe = enqueue_workflow_analysis-NeverOwn repo branch sha trigger force w h.safe;
  }

  pub command-IsSafe :
      (now : ℕ) (repo : Repository) (command : List Text)
      → IsSafe (handle_issue_command now repo command w)
  command-IsSafe now repo command = record {
    safe = handle_issue_command-NeverOwn now repo command w h.safe;
  }

scans-IsSafe :
    (repo : Repository) (branch : Text) (sha : Option ℕ) (trigger : ScanTrigger)
    (changed : Option (List Text)) (w : World)
    → IsSafe w
    → IsSafe (
        enqueue_ansible_scans repo branch sha trigger changed (
          enqueue_docker_scans repo branch sha trigger changed
            (enqueue_terraform_scans repo branch sha trigger changed w)))
scans-IsSafe repo branch sha trigger changed w h = record {
  safe = enqueue_ansible_scans-NeverOwn repo branch sha trigger changed _ (
      enqueue_docker_scans-NeverOwn repo branch sha trigger changed _
        (enqueue_terraform_scans-NeverOwn repo branch sha trigger changed w h.safe));
}

module _ (machines : Machines) (w : World) (h : IsSafe w) where
  push_queue-IsSafe :
      (slot : SlotReply) (repo : Repository) (branch : Text) (payload : Payload)
      → IsSafe (enqueue_push slot repo branch payload w)
  unfolding enqueue_push
  push_queue-IsSafe slot repo branch payload =
      scans-IsSafe repo branch payload.after webhook_push _ _ (
        if_IsSafe
          (touches_workflows (changed_paths_of payload.commits)
            || (is_new_branch payload || payload.forced))
          (λ _. analysis-IsSafe _ refreshed repo branch payload.after webhook_push false)
          (λ _. refreshed))
    where
      refreshed : IsSafe (
          if text_eq branch repo.default_branch
          then enqueue_pr_mergeable_refresh slot repo w
          else w)
      refreshed =
          if_IsSafe (text_eq branch repo.default_branch) (λ _. refresh-IsSafe w h slot repo)
            (λ _. h)

  flag-IsSafe :
      (now : ℕ) (repo : Repository) (pr : Option PullRequest)
      → IsSafe (flag_modified machines now repo pr w)
  unfolding flag_modified
  flag-IsSafe now repo none = h
  flag-IsSafe now repo (some pr) =
      if_IsSafe pr.externally_modified (λ _. h) (λ _. record { safe = h.safe })

  push_to-IsSafe :
      (now : ℕ) (bot : Text) (slot : SlotReply) (repo : Option Repository) (payload : Payload)
      → IsSafe (push_to machines now bot slot repo payload w)
  unfolding push_to flag_externally_modified_fix_branch
  push_to-IsSafe now bot slot none payload = h
  push_to-IsSafe now bot slot (some repo) payload =
      if_IsSafe (is_own_branch (push_branch payload))
        (λ _.
          if_IsSafe (is_bot_login bot payload.sender_login bot) (λ _. h)
            (λ _. flag-IsSafe now repo (find_pr_of_branch repo (push_branch payload) w)))
        (λ _.
          if_IsSafe repo.enabled (λ _. push_queue-IsSafe slot repo (push_branch payload) payload)
            (λ _. h))

  pub push-IsSafe :
      (now : ℕ) (bot : Text) (slot : SlotReply) (payload : Payload)
      → IsSafe (handle_push_event machines now bot slot payload w)
  unfolding handle_push_event
  push-IsSafe now bot slot payload =
      if_IsSafe payload.deleted (λ _. h)
        (λ _. push_to-IsSafe now bot slot (find_repository payload.repository_id w) payload)

delete_files-queue :
    (machines : Machines) (now : ℕ) (files : List WorkflowFile) (w : World)
    → (delete_files machines now files w).queued ≡ w.queued
unfolding delete_files
delete_files-queue machines now [] w = refl
delete_files-queue machines now (file ∷ files) w =
    delete_files-queue machines now files (delete_file machines now file w)

module _ (machines : Machines) (now : ℕ) (w : World) (h : IsSafe w) where
  lifecycle-IsSafe :
      (event : PullRequestEvent) (pr : PullRequest)
      → IsSafe (handle_pull_request_lifecycle machines now event pr w).1
  unfolding handle_pull_request_lifecycle
  lifecycle-IsSafe event pr = record { safe = h.safe }

  close-IsSafe : (pr : Option PullRequest) → IsSafe (close_pr_of machines now pr w)
  unfolding close_pr_of
  close-IsSafe none = h
  close-IsSafe (some pr) =
      if_IsSafe (has_ended pr.pr_state) (λ _. h) (λ _. lifecycle-IsSafe close pr)

  delete_branch-IsSafe :
      (repo : Option Repository) (branch : Text) → IsSafe (delete_branch machines now repo branch w)
  unfolding delete_branch
  delete_branch-IsSafe none branch = h
  delete_branch-IsSafe (some repo) branch =
      if_IsSafe (text_eq branch repo.default_branch) (λ _. h)
        (λ _.
          if_IsSafe (is_own_branch branch) (λ _. close-IsSafe (find_pr_of_branch repo branch w))
            (λ _.
              same_queue w _
                (delete_files-queue machines now (filter (is_file_of repo branch) w.files) w) h))

  pub delete-IsSafe : (payload : Payload) → IsSafe (handle_delete_event machines now payload w)
  unfolding handle_delete_event
  delete-IsSafe payload =
      if_IsSafe (text_eq payload.ref_type (codes "branch"))
        (λ _.
          if_IsSafe (is_empty_text payload.ref) (λ _. h)
            (λ _. delete_branch-IsSafe (find_repository payload.repository_id w) payload.ref))
        (λ _. h)

  toggle-IsSafe :
      (event : PullRequestEvent) (pr : PullRequest)
      → IsSafe (handle_pull_request_draft_toggle machines now event pr w).1
  unfolding handle_pull_request_draft_toggle record_update
  toggle-IsSafe event pr = same_queue w _ (ground arith) h

  sync-IsSafe :
      (state : Option Text) (pr : PullRequest)
      → IsSafe (handle_pull_request_sync machines now state pr w).1
  unfolding handle_pull_request_sync record_update
  sync-IsSafe state pr = same_queue w _ (ground arith) h

  acted-IsSafe :
      (new_id : ℕ) (pr : Option PullRequest) (payload : Payload)
      → IsSafe (act_on_pull_request machines now new_id pr payload w)
  unfolding act_on_pull_request
  acted-IsSafe new_id none payload = h
  acted-IsSafe new_id (some pr) payload =
      if_IsSafe (text_eq payload.action (codes "converted_to_draft"))
        (λ _. toggle-IsSafe convert_to_draft pr)
        (λ _.
          if_IsSafe (text_eq payload.action (codes "ready_for_review"))
            (λ _. toggle-IsSafe mark_ready_for_review pr)
            (λ _.
              if_IsSafe
                (text_eq payload.action (codes "synchronize")
                  || text_eq payload.action (codes "edited"))
                (λ _. sync-IsSafe payload.pr_mergeable_state pr)
                (λ _.
                  if_IsSafe (text_eq payload.action (codes "closed")) (λ _. lifecycle-IsSafe _ pr)
                    (λ _. lifecycle-IsSafe reopen pr))))

  linked-IsSafe :
      (new_id : ℕ) (repo : Repository) (branch url : Text) (pr : Option PullRequest)
      → IsSafe (link_pull_request machines now new_id repo branch url pr w)
  unfolding link_pull_request
  linked-IsSafe new_id repo branch url none = record { safe = h.safe }
  linked-IsSafe new_id repo branch url (some pr) = record { safe = h.safe }

  opened-IsSafe :
      (new_id : ℕ) (repo : Option Repository) (branch url : Text)
      → IsSafe (open_for machines now new_id repo branch url w)
  unfolding open_for
  opened-IsSafe new_id none branch url = h
  opened-IsSafe new_id (some repo) branch url =
      linked-IsSafe new_id repo branch url (find_pr_of_branch repo branch w)

  located-IsSafe :
      (new_id : ℕ) (url : Option Text) (payload : Payload)
      → IsSafe (pull_request_at machines now new_id url payload w)
  unfolding pull_request_at handle_pull_request_opened
  located-IsSafe new_id none payload = h
  located-IsSafe new_id (some url) payload =
      if_IsSafe (text_eq payload.action (codes "opened"))
        (λ _.
          if_IsSafe (is_own_branch payload.pr_head_ref)
            (λ _.
              opened-IsSafe new_id (find_repository payload.repository_id w) payload.pr_head_ref
                url)
            (λ _. h))
        (λ _. acted-IsSafe new_id (find_pr_of_url url w) payload)

  pub pull_request-IsSafe :
      (new_id : ℕ) (payload : Payload)
      → IsSafe (handle_pull_request_event machines now new_id payload w)
  unfolding handle_pull_request_event
  pull_request-IsSafe new_id payload =
      if_IsSafe (is_pull_request_action payload.action)
        (λ _. located-IsSafe new_id payload.pr_url payload) (λ _. h)
