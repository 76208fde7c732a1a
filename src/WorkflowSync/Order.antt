-- ===== src/WorkflowSync/Order.antt =====
-- A sync against a later one that has already written.
use greensecops.WorkflowSync.Rows.{find_file-append, find_file-write_other}
use greensecops.StateMachines.Base.{Engine}
use greensecops.WorkflowSync.{
  empty_result, is_listed, sync_listing, State, Sync, WorkflowFile, WorkflowSyncResult, classify,
  find_file, is_empty, is_newer, new_file, put_content, store, upsert_all, upsert_one, write_file,
}
use greensecops.Common.{
  ==→eq, Bool, Bool-cases, List, Option-cases, [], arith, false, inl, inr, none, refl, some, true,
  ℕ, ◌++◌, ◌==◌, ◌∙◌, ◌∷◌, ◌≡◌, ◌⊎◌,
}
use greensecops.StateMachines.Fix.{FixStatus-discrete}

pub not_empty : (xs : List ℕ) (y : ℕ) → is_empty (xs ++ y ∷ []) ≡ false
not_empty [] y = refl
not_empty (x ∷ xs) y = refl

module _ (engine : Engine FixStatus-discrete) (compute_content_hash : ℕ → ℕ) (sync : Sync) where
  abbrev upserted : ℕ × ℕ → State → State
  upserted = upsert_one engine compute_content_hash sync

  pub upsert_one-none :
      (q content : ℕ) (files : List WorkflowFile) (result : WorkflowSyncResult)
      → find_file sync q files ≡ none
      → upsert_one engine compute_content_hash sync (q, content) (files, result) ≡ (
        files ++ new_file sync q (compute_content_hash content) content ∷ [],
        record result {
          contents = put_content q content result.contents;
          added = result.added ++ q ∷ [];
        },
      )
  unfolding upsert_one
  upsert_one-none q content files result h = rw h

  pub upsert_one-stale :
      (q content : ℕ) (files : List WorkflowFile) (result : WorkflowSyncResult) (wf : WorkflowFile)
      → find_file sync q files ≡ some wf
      → is_newer sync.resolved_at wf.fetched_at ≡ true
      → upsert_one engine compute_content_hash sync (q, content) (files, result) ≡ (
        files,
        record result {
          contents = put_content q wf.raw_content result.contents;
          skipped_stale = result.skipped_stale ++ q ∷ [];
        },
      )
  unfolding upsert_one
  upsert_one-stale q content files result wf h n = rw h (rw n)

  pub upsert_one-stored :
      (q content : ℕ) (files : List WorkflowFile) (result : WorkflowSyncResult) (wf : WorkflowFile)
      → find_file sync q files ≡ some wf
      → is_newer sync.resolved_at wf.fetched_at ≡ false
      → upsert_one engine compute_content_hash sync (q, content) (files, result) ≡ (
        write_file sync q (store engine sync (compute_content_hash content) content) files,
        classify q
            (compute_content_hash content)
            wf
            (record result { contents = put_content q content result.contents }),
      )
  unfolding upsert_one
  upsert_one-stored q content files result wf h n = rw h (rw n)

  -- The three ways a path is stored.
  pub upsert_cases :
      (q : ℕ) (files : List WorkflowFile)
      → (find_file sync q files ≡ none)
        ⊎ ((wf : WorkflowFile) × (find_file sync q files ≡ some wf)
            × (is_newer sync.resolved_at wf.fetched_at ≡ true))
        ⊎ ((wf : WorkflowFile) × (find_file sync q files ≡ some wf)
            × (is_newer sync.resolved_at wf.fetched_at ≡ false))
  upsert_cases q files = elim (Option-cases (find_file sync q files)) [
    | inl n ↦ inl n
    | inr (wf, f) ↦ elim (Bool-cases (is_newer sync.resolved_at wf.fetched_at)) [
      | inl newer ↦ inr (inl (wf, f, newer))
      | inr older ↦ inr (inr (wf, f, older))
    ]
  ]

  classify-skipped :
      (q hash : ℕ) (wf : WorkflowFile) (result : WorkflowSyncResult)
      → (classify q hash wf result).skipped_stale ≡ result.skipped_stale
  unfolding classify
  classify-skipped q hash wf result = refl

  -- A lost race is not forgotten.
  pub skipped_grows :
      (item : ℕ × ℕ) (state : State)
      → is_empty state.1.skipped_stale ≡ false
      → is_empty (upserted item state).1.skipped_stale ≡ false
  skipped_grows (q, content) (files, result) h = elim (upsert_cases q files) [
    | inl n ↦ rw (upsert_one-none q content files result n) h
    | inr (inl (wf, f, n)) ↦
        rw (upsert_one-stale q content files result wf f n) (not_empty result.skipped_stale q)
    | inr (inr (wf, f, n)) ↦ rw (upsert_one-stored q content files result wf f n) (
        rw
          (classify-skipped q (compute_content_hash content) wf
            (record result { contents = put_content q content result.contents }))
          h)
  ]

  pub all_skipped_grows :
      (items : List (ℕ × ℕ)) (state : State)
      → is_empty state.1.skipped_stale ≡ false
      → is_empty (upsert_all engine compute_content_hash sync items state).1.skipped_stale ≡ false
  unfolding upsert_all
  all_skipped_grows [] state h = h
  all_skipped_grows (item ∷ items) state h =
      all_skipped_grows items (upserted item state) (skipped_grows item state h)

  kept_one :
      (p : ℕ) (r : WorkflowFile) (item : ℕ × ℕ) (state : State)
      → find_file sync p state.0 ≡ some r
      → is_newer sync.resolved_at r.fetched_at ≡ true
      → (find_file sync p (upserted item state).0 ≡ some r)
        × ((item.0 == p) ≡ true → is_empty (upserted item state).1.skipped_stale ≡ false)
  kept_one p r (q, content) (files, result) h n = elim (upsert_cases q files) [
    | inl f ↦ rw (upsert_one-none q content files result f) (
      find_file-append sync p files (new_file sync q (compute_content_hash content) content) r h,
      (λ e. absurd (clash (==→eq q p e) f)),
    )
    | inr (inl (wf, f, newer)) ↦
        rw (upsert_one-stale q content files result wf f newer)
          (h, (λ e. not_empty result.skipped_stale q))
    | inr (inr (wf, f, older)) ↦
        let other = differs wf f older in
        rw (upsert_one-stored q content files result wf f older) (
          find_file-write_other engine sync q (compute_content_hash content) content p files other
              ∙ h,
          (λ e. cc),
        )
  ]
    where
      clash : q ≡ p → find_file sync q files ≡ none → ⊥
      clash e f = let g : find_file sync p files ≡ none = rw e at f in cc

      differs :
          (wf : WorkflowFile)
          → find_file sync q files ≡ some wf
          → is_newer sync.resolved_at wf.fetched_at ≡ false
          → (q == p) ≡ false
      differs wf f older = elim (Bool-cases (q == p)) [
        | inl e ↦
            let g : find_file sync p files ≡ some wf = rw (==→eq q p e) at f in
            let same : wf ≡ r = cc in cc
        | inr d ↦ d
      ]

  kept_all :
      (p : ℕ) (r : WorkflowFile) (items : List (ℕ × ℕ)) (state : State)
      → find_file sync p state.0 ≡ some r
      → is_newer sync.resolved_at r.fetched_at ≡ true
      → let (files', result') = upsert_all engine compute_content_hash sync items state in
        (find_file sync p files' ≡ some r)
        × (is_listed p items ≡ true → is_empty result'.skipped_stale ≡ false)
  unfolding upsert_all is_listed
  kept_all p r [] state h n = (h, (λ l. cc))
  kept_all p r ((q, c) ∷ items) state h n =
      let (found, skipped) = kept_one p r (q, c) state h n in
      let (found', skipped') = kept_all p r items (upserted (q, c) state) found n in
      (
        found',
        (λ l. elim (Bool-cases (q == p)) [
          | inl e ↦ all_skipped_grows items (upserted (q, c) state) (skipped e)
          | inr d ↦ skipped' (rw d at l)
        ]),
      )

  -- A sync that finds the row of a listed path written by a sync that resolved its ref later leaves
  -- that row as it is, and does no more than store the listed paths: it soft-deletes nothing.
  pub sync_listing-newer :
      (reconcile_missing : Bool) (fetched : List (ℕ × ℕ)) (files : List WorkflowFile) (p : ℕ)
      (r : WorkflowFile)
      → find_file sync p files ≡ some r
      → is_newer sync.resolved_at r.fetched_at ≡ true
      → is_listed p fetched ≡ true
      → let after = sync_listing engine compute_content_hash sync reconcile_missing fetched files in
        (after ≡ upsert_all engine compute_content_hash sync fetched (files, empty_result))
        × (find_file sync p after.0 ≡ some r)
  unfolding sync_listing
  sync_listing-newer reconcile_missing fetched files p r h n l =
      let (found, skipped) = kept_all p r fetched (files, empty_result) h n in
      rw (skipped l) (ground arith)
