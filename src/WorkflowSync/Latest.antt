-- ===== src/WorkflowSync/Latest.antt =====
-- A sync behind which no other has written: backend/app/services/workflow_sync.py.
use greensecops.WorkflowSync.Order.{upsert_cases, upsert_one-none, upsert_one-stored}
use greensecops.WorkflowSync.Storing.{is_live}
use greensecops.WorkflowSync.Deletion.{live_unskipped}
use greensecops.WorkflowSync.{
  is_empty, is_listed, is_newer, empty_result, upsert_one, store, upsert_all, State, is_target,
  WorkflowFile, sync_listing, find_file, in_scope, Sync, write_file, classify,
}
use greensecops.StateMachines.Base.{Engine}
use greensecops.Common.{
  Bool-cases, List, Option, none, some, [], arith, inl, inr, refl, subst, true, false, ℕ, ◌∷◌, ◌≡◌,
  ◌≤◌, All, All-append, All-imp, ==→eq, le→ltb,
}
use greensecops.StateMachines.Fix.{FixStatus-discrete}

-- The instant, if there is one, is not after the other.
abbrev pub IsNotAfter : ℕ → Option ℕ → Type 0
IsNotAfter instant none = Unit
IsNotAfter instant (some t) = t ≤ instant

-- A row of the branch was neither stored nor deleted after the sync resolved its ref.
abbrev pub IsEarlier : Sync → WorkflowFile → Type 0
IsEarlier sync wf =
    wf.repo_id ≡ sync.repo_id
    → wf.branch ≡ sync.branch
    → IsNotAfter sync.resolved_at wf.fetched_at × IsNotAfter sync.resolved_at wf.deleted_at

-- A row of the branch does not make the sync stale.
abbrev IsOlder : Sync → WorkflowFile → Type 0
IsOlder sync wf = in_scope sync wf ≡ true → is_newer sync.resolved_at wf.fetched_at ≡ false

not_after-is_newer :
    (instant : ℕ) (at : Option ℕ) → IsNotAfter instant at → is_newer instant at ≡ false
unfolding is_newer
not_after-is_newer instant none h = refl
not_after-is_newer instant (some t) h = le→ltb instant t h

IsEarlier-IsOlder : (sync : Sync) (wf : WorkflowFile) → IsEarlier sync wf → IsOlder sync wf
unfolding in_scope
IsEarlier-IsOlder sync wf h e =
    not_after-is_newer sync.resolved_at wf.fetched_at
      (h (==→eq wf.repo_id sync.repo_id (ground arith))
        (==→eq wf.branch sync.branch (ground arith))).0

module _ (engine : Engine FixStatus-discrete) (compute_content_hash : ℕ → ℕ) (sync : Sync) where
  fresh-is_newer : is_newer sync.resolved_at (some sync.resolved_at) ≡ false
  unfolding is_newer
  fresh-is_newer = ground arith

  found-IsOlder :
      (p : ℕ) (files : List WorkflowFile) (wf : WorkflowFile)
      → find_file sync p files ≡ some wf
      → All (IsOlder sync) files
      → is_newer sync.resolved_at wf.fetched_at ≡ false
  unfolding find_file is_target
  found-IsOlder p [] wf f h = cc
  found-IsOlder p (x ∷ files) wf f h = elim (Bool-cases (is_target sync p x)) [
    | inl e ↦
        let same : x ≡ wf = ground (arith, e, f) in
        subst (λ y. is_newer sync.resolved_at y.fetched_at ≡ false) same (h.0 (ground (arith, e)))
    | inr n ↦ found-IsOlder p files wf (ground (arith, n, f)) h.1
  ]

  written-IsOlder :
      (q hash content : ℕ) (files : List WorkflowFile)
      → All (IsOlder sync) files
      → All (IsOlder sync) (write_file sync q (store engine sync hash content) files)
  unfolding write_file store
  written-IsOlder q hash content [] h = tt
  written-IsOlder q hash content (wf ∷ wfs) h = elim (Bool-cases (is_target sync q wf)) [
    | inl e ↦ rw e ((λ _. fresh-is_newer), written-IsOlder q hash content wfs h.1)
    | inr n ↦ rw n (h.0, written-IsOlder q hash content wfs h.1)
  ]

  -- No row is newer, and no path was skipped.
  abbrev IsWinning : State → Type 0
  IsWinning state = All (IsOlder sync) state.0 × (is_empty state.1.skipped_stale ≡ true)

  upsert_one-IsWinning :
      (item : ℕ × ℕ) (state : State)
      → IsWinning state
      → IsWinning (upsert_one engine compute_content_hash sync item state)
  unfolding classify
  upsert_one-IsWinning (q, content) (files, result) (h, s) =
      elim (upsert_cases engine compute_content_hash sync q files) [
        | inl f ↦
            rw (upsert_one-none engine compute_content_hash sync q content files result f)
              (All-append (IsOlder sync) files _ h ((λ _. fresh-is_newer), tt), s)
        | inr (inl (wf, f, n)) ↦ let old = found-IsOlder q files wf f h in absurd (cc)
        | inr (inr (wf, f, n)) ↦
            rw (upsert_one-stored engine compute_content_hash sync q content files result wf f n)
              (written-IsOlder q (compute_content_hash content) content files h, s)
      ]

  upsert_all-IsWinning :
      (items : List (ℕ × ℕ)) (state : State)
      → IsWinning state
      → IsWinning (upsert_all engine compute_content_hash sync items state)
  unfolding upsert_all
  upsert_all-IsWinning [] state w = w
  upsert_all-IsWinning (item ∷ items) state w =
      upsert_all-IsWinning items (upsert_one engine compute_content_hash sync item state)
        (upsert_one-IsWinning item state w)

  -- After a reconciling sync of a branch none of whose rows was stored or deleted after the sync
  -- resolved its ref, the live paths of the branch are exactly those of the listing: a listed path is
  -- stored or restored, and a path that the listing lacks has no row or a deleted one.
  pub sync_listing-live :
      (fetched : List (ℕ × ℕ)) (files : List WorkflowFile) (p : ℕ)
      → All (IsEarlier sync) files
      → is_live
          (find_file sync p (sync_listing engine compute_content_hash sync true fetched files).0)
        ≡ is_listed p fetched
  sync_listing-live fetched files p h =
      live_unskipped engine compute_content_hash sync fetched files p
        (upsert_all-IsWinning fetched (files, empty_result)
          (All-imp (IsEarlier sync) (IsOlder sync) files (IsEarlier-IsOlder sync) h, refl)).1
