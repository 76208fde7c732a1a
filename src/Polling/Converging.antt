-- ===== src/Polling/Converging.antt =====
-- The state of a pull request behind a poll.
use greensecops.Common.{
  ℕ, ◌≡◌, ◌⊎◌, inl, inr, refl, ap, ◌∙◌, Bool, true, false, List, [], ◌∷◌, Option, none, some, ◌==◌,
  if◌then◌else◌, Bool-cases, All, update, arith, Text, codes, text_eq,
}
use greensecops.StateMachines.Base.{value}
use greensecops.StateMachines.PullRequest.{
  PullRequestState, PullRequestEvent, merge, close, convert_to_draft, mark_ready_for_review,
  external_update,
}
use greensecops.Events.Store.{Repository, PullRequest, World, Machines, save_pull_request}
use greensecops.Events.Lifecycle.{advance_pr, handle_pull_request_lifecycle}
use greensecops.Events.Attributes.{
  handle_pull_request_draft_toggle, handle_pull_request_sync, handle_ci_status,
  handle_review_decision, record_update, set_mergeable,
}
use greensecops.Events.Enums.{CiStatus, ReviewDecision}
use greensecops.Events.Redelivery.{advance_pr_lem, column_outcome, pr_outcome}
use greensecops.Polling.Snapshot.{RemotePullRequest, PrSnapshot, pull_request_snapshot}
use greensecops.Polling.Applying.{
  is_state, lifecycle_event, apply_command_comments, apply_draft, sync_to, apply_sync, apply_ci,
  apply_review, apply_attributes, apply_event, apply_snapshot, apply_pr,
}

-- Two rows of one pull request in one state.
abbrev SameState : PullRequest → PullRequest → Type 0
SameState a b = (a.id ≡ b.id) × (a.pr_state ≡ b.pr_state)

abbrev pub IsLive : PullRequest → Type 0
IsLive pr =
    (pr.pr_state ≡ value PullRequestState.opened) ⊎ (pr.pr_state ≡ value PullRequestState.draft)

draft_state : Bool → PullRequestState
draft_state b = if b then PullRequestState.draft else PullRequestState.opened

module _ (machines : Machines) (now : ℕ) where
  sync_same :
      (mergeable : Option Text) (pr : PullRequest) (w : World)
      → IsLive pr
      → SameState (handle_pull_request_sync machines now mergeable pr w).0 pr
  unfolding handle_pull_request_sync record_update set_mergeable
  sync_same none pr w (inl h) = ground (arith, h, advance_pr_lem machines external_update pr)
  sync_same none pr w (inr h) = ground (arith, h, advance_pr_lem machines external_update pr)
  sync_same (some m) pr w (inl h) = ground (arith, h, advance_pr_lem machines external_update pr)
  sync_same (some m) pr w (inr h) = ground (arith, h, advance_pr_lem machines external_update pr)

  sync_to_same :
      (sha : ℕ) (mergeable : Option Text) (old : Option ℕ) (pr : PullRequest) (w : World)
      → IsLive pr
      → SameState (sync_to machines now sha mergeable old (pr, w)).0 pr
  unfolding sync_to
  sync_to_same sha mergeable none pr w h = (refl, refl)
  sync_to_same sha mergeable (some old) pr w h =
      ground (arith, sync_same mergeable (record pr { head_sha = some sha }) w h)

  apply_sync_same :
      (sha : Option ℕ) (mergeable : Option Text) (pr : PullRequest) (w : World)
      → IsLive pr
      → SameState (apply_sync machines now sha mergeable (pr, w)).0 pr
  unfolding apply_sync
  apply_sync_same none mergeable pr w h = (refl, refl)
  apply_sync_same (some sha) mergeable pr w h = sync_to_same sha mergeable pr.head_sha pr w h

  apply_draft_state :
      (snapshot : PrSnapshot) (pr : PullRequest) (w : World)
      → IsLive pr
      → let after = (apply_draft machines now snapshot (pr, w)).0 in
        (after.id ≡ pr.id) × (after.pr_state ≡ value (draft_state snapshot.draft))
  unfolding apply_draft handle_pull_request_draft_toggle record_update draft_state
  apply_draft_state snapshot pr w (inl h) =
      ground (arith, h, advance_pr_lem machines convert_to_draft pr)
  apply_draft_state snapshot pr w (inr h) =
      ground (arith, h, advance_pr_lem machines mark_ready_for_review pr)

  apply_ci_same :
      (ci : CiStatus) (pr : PullRequest) (w : World)
      → SameState (apply_ci machines now ci (pr, w)).0 pr
  unfolding apply_ci handle_ci_status record_update
  apply_ci_same ci pr w = ground arith

  apply_review_same :
      (decision : Option ReviewDecision) (pr : PullRequest) (w : World)
      → SameState (apply_review machines now decision (pr, w)).0 pr
  unfolding apply_review handle_review_decision record_update
  apply_review_same none pr w = (refl, refl)
  apply_review_same (some d) pr w = ground arith

  -- Steps 2 to 5 bring a live pull request to the draft flag that was seen.
  apply_attributes_state :
      (snapshot : PrSnapshot) (pr : PullRequest) (w : World)
      → IsLive pr
      → let after = (apply_attributes machines now snapshot (pr, w)).0 in
        (after.id ≡ pr.id) × (after.pr_state ≡ value (draft_state snapshot.draft))
  unfolding apply_attributes draft_state
  apply_attributes_state snapshot pr w live =
      let drafted = apply_draft machines now snapshot (pr, w) in
      let (i1, s1) = apply_draft_state snapshot pr w live in
      let live1 : IsLive drafted.0 = elim (Bool-cases snapshot.draft) [
        | inl d ↦ inr (s1 ∙ rw d refl)
        | inr d ↦ inl (s1 ∙ rw d refl)
      ] in
      let synced = apply_sync machines now snapshot.head_sha snapshot.mergeable_state drafted in
      let (i2, s2) =
        apply_sync_same snapshot.head_sha snapshot.mergeable_state drafted.0 drafted.1 live1 in
      let checked = apply_ci machines now snapshot.ci_status synced in
      let (i3, s3) = apply_ci_same snapshot.ci_status synced.0 synced.1 in
      let (i4, s4) = apply_review_same snapshot.review_decision checked.0 checked.1 in
      (i4 ∙ i3 ∙ i2 ∙ i1, s4 ∙ s3 ∙ s2 ∙ s1)

  lifecycle_state :
      (event : PullRequestEvent) (pr : PullRequest) (w : World)
      → let after = (handle_pull_request_lifecycle machines now event pr w).0 in
        (after.id ≡ pr.id) × (after.pr_state ≡ (column_outcome event pr.pr_state).0)
  unfolding handle_pull_request_lifecycle
  lifecycle_state event pr w = rw (advance_pr_lem machines event pr) (refl, refl)

abbrev pub seen_state : RemotePullRequest → PullRequestState
seen_state remote =
    if remote.merged
    then PullRequestState.merged
    else if text_eq remote.state (codes "closed")
    then PullRequestState.closed
    else if remote.draft
    then PullRequestState.draft
    else PullRequestState.opened

abbrev pub IsOpenOrClosed : RemotePullRequest → Type 0
IsOpenOrClosed remote = (remote.state ≡ codes "open") ⊎ (remote.state ≡ codes "closed")

abbrev lands_in : PrSnapshot → PullRequestState
lands_in snapshot =
    if snapshot.merged
    then PullRequestState.merged
    else if is_state PullRequestState.closed (value snapshot.state)
    then PullRequestState.closed
    else draft_state snapshot.draft

-- A state that is the remote one's.
snapshot_state :
    (remote : RemotePullRequest) (snapshot : PrSnapshot)
    → IsOpenOrClosed remote
    → pull_request_snapshot remote ≡ some snapshot
    → lands_in snapshot ≡ seen_state remote
unfolding pull_request_snapshot text_eq is_state draft_state
snapshot_state remote snapshot (inl h) e = ground (arith, h)
snapshot_state remote snapshot (inr h) e = ground (arith, h)

-- What the poll makes of a live pull request.
pub live_event :
    (pr : PullRequest) (snapshot : PrSnapshot)
    → IsLive pr
    → lifecycle_event pr snapshot ≡ (
        if snapshot.merged
        then some merge
        else if is_state PullRequestState.closed (value snapshot.state)
        then some close
        else none)
unfolding lifecycle_event is_state
live_event pr snapshot (inl h) = ground (arith, h)
live_event pr snapshot (inr h) = ground (arith, h)

saved_rows :
    (row : PullRequest) (id : ℕ) (rows : List PullRequest)
    → row.id ≡ id
    → All (λ other. other.id ≡ id → other ≡ row) (update (λ r. r.id == row.id) (λ _. row) rows)
unfolding update
saved_rows row id [] e = tt
saved_rows row id (r ∷ rows) e = (
  elim (Bool-cases (r.id == row.id)) [
    | inl same ↦ rw same (λ _. refl)
    | inr other ↦ rw other (λ h. absurd (ground (arith, other)))
  ],
  saved_rows row id rows e,
)

module _ (machines : Machines) where
  -- An event that leads from both live states to one state.
  ends :
      (pr : PullRequest) (event : PullRequestEvent) (s : PullRequestState)
      → IsLive pr
      → ((pr_outcome event PullRequestState.opened).0 ≡ s)
        × ((pr_outcome event PullRequestState.draft).0 ≡ s)
      → ((advance_pr machines event pr).0.id ≡ pr.id)
        × ((advance_pr machines event pr).0.pr_state ≡ value s)
  ends pr event s (inl h) e = rw (advance_pr_lem machines event pr) (refl, rw h (ap value e.0))
  ends pr event s (inr h) e = rw (advance_pr_lem machines event pr) (refl, rw h (ap value e.1))

module _ (machines : Machines) (now : ℕ) where
  apply_snapshot_state :
      (snapshot : PrSnapshot) (pr : PullRequest) (w : World)
      → IsLive pr
      → let after = (apply_snapshot machines now (some snapshot) (pr, w)).0 in
        (after.id ≡ pr.id) × (after.pr_state ≡ value (lands_in snapshot))
  unfolding apply_snapshot apply_event draft_state
  apply_snapshot_state snapshot pr w live = elim (Bool-cases snapshot.merged) [
    | inl m ↦ merged_case (live_event pr snapshot live ∙ rw m refl) m
    | inr nm ↦ elim (Bool-cases (is_state PullRequestState.closed (value snapshot.state))) [
      | inl c ↦ closed_case (live_event pr snapshot live ∙ rw (nm, c) refl) nm c
      | inr nc ↦ open_case (live_event pr snapshot live ∙ rw (nm, nc) refl) nm nc
    ]
  ]
    where
      After : Type 0
      After =
          let after = (apply_snapshot machines now (some snapshot) (pr, w)).0 in
          (after.id ≡ pr.id) × (after.pr_state ≡ value (lands_in snapshot))

      merged_case : lifecycle_event pr snapshot ≡ some merge → snapshot.merged ≡ true → After
      merged_case e m = rw (e, m) (ends machines pr merge PullRequestState.merged live (refl, refl))

      closed_case :
          lifecycle_event pr snapshot ≡ some close
          → snapshot.merged ≡ false
          → is_state PullRequestState.closed (value snapshot.state) ≡ true
          → After
      closed_case e nm c =
          rw (e, nm, c) (ends machines pr close PullRequestState.closed live (refl, refl))

      open_case :
          lifecycle_event pr snapshot ≡ none
          → snapshot.merged ≡ false
          → is_state PullRequestState.closed (value snapshot.state) ≡ false
          → After
      open_case e nm nc = rw (e, nm, nc) (apply_attributes_state machines now snapshot pr w live)

  -- A poll of a pull request that was open or a draft, whose snapshot is of a pull request that GitHub
  -- has as open or closed, leaves its row in the state that the snapshot shows: merged, closed, draft
  -- or open. That row is the one that the table has for its id.
  pub apply_pr-seen_state :
      (repo : Repository) (pr : PullRequest) (remote : RemotePullRequest) (snapshot : PrSnapshot)
      (comments : List Text) (w : World)
      → IsLive pr
      → IsOpenOrClosed remote
      → pull_request_snapshot remote ≡ some snapshot
      → let (row, after) =
          apply_pr machines now repo pr
            (record { snapshot = some snapshot; command_comments = comments })
            w in
        (row.id ≡ pr.id)
        × (row.pr_state ≡ value (seen_state remote))
        × All (λ other. other.id ≡ pr.id → other ≡ row) after.pull_requests
  unfolding apply_pr apply_command_comments save_pull_request
  apply_pr-seen_state repo pr remote snapshot comments w live known e =
      let (i, s) = apply_snapshot_state snapshot pr w live in
      let row =
        (apply_pr machines now repo pr
          (record { snapshot = some snapshot; command_comments = comments }) w).0 in
      (i, s ∙ ap value (snapshot_state remote snapshot known e), saved_rows row pr.id _ i)
