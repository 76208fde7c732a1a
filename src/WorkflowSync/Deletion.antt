-- ===== src/WorkflowSync/Deletion.antt =====
-- The live paths of a branch behind a sync.
use greensecops.WorkflowSync.Storing.{or_false, is_live, contents_all, live_all}
use greensecops.StateMachines.Base.{Engine}
use greensecops.WorkflowSync.{
  Sync, WorkflowFile, WorkflowSyncResult, empty_result, find_file, in_scope, is_empty, is_listed,
  is_missing, is_target, reconcile_missing_paths, soft_delete, sync_listing, upsert_all,
}
use greensecops.Common.{
  Bool-cases, List, [], ap, arith, false, if◌then◌else◌, inl, inr, not, refl, some, true, ℕ, ◌&&◌,
  ◌∙◌, ◌∷◌, ◌≡◌,
}
use greensecops.StateMachines.Fix.{FixStatus-discrete}

module _ (engine : Engine FixStatus-discrete) (compute_content_hash : ℕ → ℕ) (sync : Sync) where
  abbrev reconciled : WorkflowFile → List (ℕ × ℕ) → WorkflowFile
  reconciled wf contents =
      if is_missing sync contents wf then soft_delete engine sync.now wf else wf

  reconciled-target :
      (p : ℕ) (wf : WorkflowFile) (contents : List (ℕ × ℕ))
      → is_target sync p (reconciled wf contents) ≡ is_target sync p wf
  unfolding is_target in_scope soft_delete
  reconciled-target p wf contents = elim (Bool-cases (is_missing sync contents wf)) [
    | inl gone ↦ rw gone refl
    | inr kept ↦ rw kept refl
  ]

  target-parts :
      (p : ℕ) (wf : WorkflowFile)
      → is_target sync p wf ≡ true
      → (in_scope sync wf ≡ true) × (wf.path ≡ p)
  unfolding is_target
  target-parts p wf h = ground arith

  deleted-live : (wf : WorkflowFile) → is_live (some (soft_delete engine sync.now wf)) ≡ false
  unfolding soft_delete
  deleted-live wf = ground arith

  missing_lem :
      (p : ℕ) (wf : WorkflowFile) (contents : List (ℕ × ℕ))
      → is_target sync p wf ≡ true
      → is_missing sync contents wf ≡ not (is_listed p contents)
  unfolding is_missing
  missing_lem p wf contents h =
      let (scope, path) = target-parts p wf h in
      rw scope (ap (λ x. not (is_listed x contents)) path)

  reconciled-live :
      (p : ℕ) (wf : WorkflowFile) (contents : List (ℕ × ℕ))
      → is_target sync p wf ≡ true
      → is_live (some (reconciled wf contents)) ≡ (is_live (some wf) && is_listed p contents)
  reconciled-live p wf contents h = elim (Bool-cases (is_listed p contents)) [
    | inl read ↦ rw (missing_lem p wf contents h, read) (ground arith)
    | inr gone ↦ rw (missing_lem p wf contents h, gone) (rw (deleted-live wf) (ground arith))
  ]

  reconciled-skipped :
      (files : List WorkflowFile) (result : WorkflowSyncResult)
      → (reconcile_missing_paths engine sync (files, result)).1.skipped_stale ≡ result.skipped_stale
  unfolding reconcile_missing_paths
  reconciled-skipped [] result = refl
  reconciled-skipped (wf ∷ wfs) result = reconciled-skipped wfs _

  -- The reconciliation keeps a live row live exactly where its path was read.
  live_reconciled :
      (p : ℕ) (files : List WorkflowFile) (result : WorkflowSyncResult)
      → is_live (find_file sync p (reconcile_missing_paths engine sync (files, result)).0)
        ≡ (is_live (find_file sync p files) && is_listed p result.contents)
  unfolding reconcile_missing_paths find_file
  live_reconciled p [] result = refl
  live_reconciled p (wf ∷ wfs) result =
      let same = reconciled-target p wf result.contents in
      elim (Bool-cases (is_target sync p wf)) [
        | inl here ↦ rw (same, here) (reconciled-live p wf result.contents here)
        | inr there ↦ rw (same, there) (live_reconciled p wfs _)
      ]

  live_or_not :
      (fetched : List (ℕ × ℕ)) (files : List WorkflowFile) (p : ℕ)
      → is_empty
          (upsert_all engine compute_content_hash sync fetched
            (files, empty_result)).1.skipped_stale
        ≡ true
      → (is_live (
            find_file sync p
              (upsert_all engine compute_content_hash sync fetched (files, empty_result)).0)
          && is_listed p
              (upsert_all engine compute_content_hash sync fetched
                (files, empty_result)).1.contents)
        ≡ is_listed p fetched
  unfolding is_listed
  live_or_not fetched files p won =
      let state = upsert_all engine compute_content_hash sync fetched (files, empty_result) in
      let read = contents_all engine compute_content_hash sync p fetched (files, empty_result) in
      elim (Bool-cases (is_listed p state.1.contents)) [
        | inl there ↦
            rw
              (live_all engine compute_content_hash sync fetched (files, empty_result) (λ q l. cc)
                won p there)
              (read ∙ or_false (is_listed p fetched))
        | inr out ↦ rw out (ground (arith, read, out))
      ]

  -- The live paths behind a sync that skipped no path as stale.
  pub live_unskipped :
      (fetched : List (ℕ × ℕ)) (files : List WorkflowFile) (p : ℕ)
      → is_empty
          (upsert_all engine compute_content_hash sync fetched
            (files, empty_result)).1.skipped_stale
        ≡ true
      → is_live
          (find_file sync p (sync_listing engine compute_content_hash sync true fetched files).0)
        ≡ is_listed p fetched
  unfolding sync_listing
  live_unskipped fetched files p won =
      let stored_state =
        upsert_all engine compute_content_hash sync fetched (files, empty_result) in
      rw won (live_reconciled p stored_state.0 stored_state.1 ∙ live_or_not fetched files p won)
