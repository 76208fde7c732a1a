-- ===== src/Webhooks/Payload.antt =====
-- The fields of a GitHub payload that backend/app/api/routes/webhooks.py reads, and the look-ups that its handlers share. A
-- number or a nullable text that is absent, null, zero or empty is `none`, since every one of these
-- is tested for truth only; a text with the default "" is empty, a flag false and a list empty. GitHub
-- sends a text for `head_branch`: on a null, on which the source raises, `run_head_branch` is empty.
use greensecops.Common.{
  ℕ, Bool, true, false, List, Option, none, some, ◌==◌, ◌&&◌, if◌then◌else◌, first, Text, text_eq,
}
use greensecops.Events.Store.{Repository, PullRequest, World}

pub record Commit : Type 0 where
  pub added : List Text
  pub modified : List Text
  pub removed : List Text

pub record Payload : Type 0 where
  pub action : Text
  pub repository_id : Option ℕ
  pub repository_full_name : Option Text
  pub repository_default_branch : Option Text
  pub sender_login : Option Text
  pub ref : Text
  pub ref_type : Text
  pub before : Text
  pub after : Option ℕ
  pub deleted : Bool
  pub forced : Bool
  pub commits : List Commit
  pub run_head_branch : Text
  pub run_head_sha : Option ℕ
  pub comment_body : Text
  pub pr_url : Option Text
  pub pr_merged : Bool
  pub pr_mergeable_state : Option Text
  pub pr_head_ref : Text
  pub suite_head_branch : Option Text
  pub suite_status : Text
  pub suite_conclusion : Option Text
  pub review_state : Text
  pub installation_id : Option ℕ
  pub account_id : Option ℕ
  pub account_login : Option Text
  pub added_ids : List ℕ
  pub removed_ids : List ℕ

-- Redis's answer to `SET key NX EX`.
pub data SlotReply : Type 0 where
  fresh taken unavailable : SlotReply

-- Whether the slot lets the call go on: without Redis it does.
unfoldable pub may_go_on : SlotReply → Bool
may_go_on taken = false
may_go_on _ = true

-- `Repository.github_repo_id == github_repo_id`, in a payload that may have none.
unfoldable pub find_repository : Option ℕ → World → Option Repository
find_repository none w = none
find_repository (some id) w = first (λ repo. repo.github_repo_id == id) w.repositories

unfoldable pub if_enabled : Option Repository → Option Repository
if_enabled none = none
if_enabled (some repo) = if repo.enabled then some repo else none

unfoldable pub resolve_repo_by_github_id : Payload → World → Option Repository
unfolding find_repository if_enabled
resolve_repo_by_github_id payload w = if_enabled (find_repository payload.repository_id w)

unfoldable pub find_pr_of_branch : Repository → Text → World → Option PullRequest
find_pr_of_branch repo branch w =
    first (λ pr. pr.repo_id == repo.id && text_eq pr.pr_branch branch) w.pull_requests

unfoldable pub is_text : Option Text → Text → Bool
is_text none t = false
is_text (some s) t = text_eq s t

unfoldable pub find_pr_of_url : Text → World → Option PullRequest
unfolding is_text
find_pr_of_url url w = first (λ pr. is_text pr.pr_url url) w.pull_requests
