-- ===== src/WorkflowSync/Scope.antt =====
-- What a sync leaves alone.
use greensecops.WorkflowSync.Order.{
  upsert_cases, upsert_one-none, upsert_one-stale, upsert_one-stored,
}
use greensecops.WorkflowSync.{
  is_empty, new_file, WorkflowSyncResult, empty_result, upsert_one, soft_delete, store, upsert_all,
  State, is_target, WorkflowFile, sync_listing, reconcile_missing_paths, in_scope, Sync, is_missing,
  write_file,
}
use greensecops.StateMachines.Base.{Engine}
use greensecops.Common.{
  Bool, Bool-cases, List, [], arith, if◌then◌else◌, inl, inr, refl, true, ℕ, ◌==◌, ◌&&◌, ◌++◌, ◌∙◌,
  ◌∷◌, ◌≡◌,
}
use greensecops.StateMachines.Fix.{FixStatus-discrete}

-- The rows of other branches and repositories.
unfoldable pub others : Sync → List WorkflowFile → List WorkflowFile
others sync [] = []
others sync (wf ∷ wfs) =
    let rest = others sync wfs in
    if wf.repo_id == sync.repo_id && wf.branch == sync.branch then rest else wf ∷ rest

module _ (engine : Engine FixStatus-discrete) (compute_content_hash : ℕ → ℕ) (sync : Sync) where
  others-added :
      (q hash content : ℕ) (files : List WorkflowFile)
      → others sync (files ++ new_file sync q hash content ∷ []) ≡ others sync files
  unfolding others in_scope
  others-added q hash content [] = ground arith
  others-added q hash content (wf ∷ wfs) = rw (others-added q hash content wfs) refl

  store-scope :
      (hash content : ℕ) (wf : WorkflowFile)
      → in_scope sync (store engine sync hash content wf) ≡ in_scope sync wf
  unfolding store in_scope
  store-scope hash content wf = refl

  target-scope : (q : ℕ) (wf : WorkflowFile) → is_target sync q wf ≡ true → in_scope sync wf ≡ true
  unfolding is_target
  target-scope q wf h = ground arith

  others-written :
      (q hash content : ℕ) (files : List WorkflowFile)
      → others sync (write_file sync q (store engine sync hash content) files) ≡ others sync files
  unfolding others write_file
  others-written q hash content [] = refl
  others-written q hash content (wf ∷ wfs) = elim (Bool-cases (is_target sync q wf)) [
    | inl hit ↦
        rw (hit, store-scope hash content wf, target-scope q wf hit)
          (others-written q hash content wfs)
    | inr miss ↦ rw (miss, others-written q hash content wfs) refl
  ]

  others-upsert_one :
      (item : ℕ × ℕ) (state : State)
      → others sync (upsert_one engine compute_content_hash sync item state).0 ≡ others sync state.0
  others-upsert_one (q, content) (files, result) =
      elim (upsert_cases engine compute_content_hash sync q files) [
        | inl f ↦
            rw (upsert_one-none engine compute_content_hash sync q content files result f)
              (others-added q (compute_content_hash content) content files)
        | inr (inl (wf, f, n)) ↦
            rw (upsert_one-stale engine compute_content_hash sync q content files result wf f n)
              refl
        | inr (inr (wf, f, n)) ↦
            rw (upsert_one-stored engine compute_content_hash sync q content files result wf f n)
              (others-written q (compute_content_hash content) content files)
      ]

  others-upsert_all :
      (items : List (ℕ × ℕ)) (state : State)
      → others sync (upsert_all engine compute_content_hash sync items state).0
        ≡ others sync state.0
  unfolding upsert_all
  others-upsert_all [] state = refl
  others-upsert_all (item ∷ items) state =
      others-upsert_all items (upsert_one engine compute_content_hash sync item state)
      ∙ others-upsert_one item state

  soft_delete-scope :
      (wf : WorkflowFile) → in_scope sync (soft_delete engine sync.now wf) ≡ in_scope sync wf
  unfolding soft_delete in_scope
  soft_delete-scope wf = refl

  missing-scope :
      (contents : List (ℕ × ℕ)) (wf : WorkflowFile)
      → is_missing sync contents wf ≡ true
      → in_scope sync wf ≡ true
  unfolding is_missing
  missing-scope contents wf h = ground arith

  others-reconciled :
      (files : List WorkflowFile) (result : WorkflowSyncResult)
      → others sync (reconcile_missing_paths engine sync (files, result)).0 ≡ others sync files
  unfolding others reconcile_missing_paths
  others-reconciled [] result = refl
  others-reconciled (wf ∷ wfs) result = elim (Bool-cases (is_missing sync result.contents wf)) [
    | inl gone ↦
        rw (gone, soft_delete-scope wf, missing-scope result.contents wf gone)
          (others-reconciled wfs _)
    | inr kept ↦ rw (kept, others-reconciled wfs _) refl
  ]

  -- A sync leaves the rows of every other branch and repository as they are and in their order.
  pub others-sync_listing :
      (reconcile_missing : Bool) (fetched : List (ℕ × ℕ)) (files : List WorkflowFile)
      → others sync
          (sync_listing engine compute_content_hash sync reconcile_missing fetched files).0
        ≡ others sync files
  unfolding sync_listing
  others-sync_listing reconcile_missing fetched files =
      let stored_state =
        upsert_all engine compute_content_hash sync fetched (files, empty_result) in
      elim (Bool-cases (reconcile_missing && is_empty stored_state.1.skipped_stale)) [
        | inl on ↦ rw on (
            others-reconciled stored_state.0 stored_state.1
            ∙ others-upsert_all fetched (files, empty_result))
        | inr off ↦ rw off (others-upsert_all fetched (files, empty_result))
      ]
