-- ===== src/WorkflowSync/Storing.antt =====
-- The live paths behind the upserts.
use greensecops.WorkflowSync.Rows.{
  find_file-append, find_file-append_new, find_file-write, find_file-write_other,
}
use greensecops.StateMachines.Base.{Engine}
use greensecops.WorkflowSync.Order.{
  all_skipped_grows, not_empty, upsert_cases, upsert_one-none, upsert_one-stale, upsert_one-stored,
}
use greensecops.WorkflowSync.{
  State, Sync, WorkflowFile, classify, find_file, in_scope, is_deleted, is_empty, is_listed,
  is_target, new_file, put_content, store, upsert_all, upsert_one, write_file,
}
use greensecops.Common.{
  ==→eq, Bool, Bool-cases, List, Option, Option-cases, [], ap, arith, false, inl, inr, none, not,
  refl, some, subst, true, ℕ, ◌++◌, ◌==◌, ◌||◌, ◌∙◌, ◌∷◌, ◌≡◌,
}
use greensecops.StateMachines.Fix.{FixStatus-discrete}

abbrev pub is_live : Option WorkflowFile → Bool
is_live none = false
is_live (some wf) = not (is_deleted wf.deleted_at)

pub or_false : (b : Bool) → (b || false) ≡ b
or_false true = refl
or_false false = refl

is_listed-put :
    (p q content : ℕ) (cs : List (ℕ × ℕ))
    → is_listed p (put_content q content cs) ≡ (q == p || is_listed p cs)
unfolding is_listed put_content
is_listed-put p q content [] = refl
is_listed-put p q content ((k, c) ∷ cs) = ground (arith, is_listed-put p q content cs)

module _ (engine : Engine FixStatus-discrete) (compute_content_hash : ℕ → ℕ) (sync : Sync) where
  abbrev pub stored : ℕ × ℕ → State → State
  stored = upsert_one engine compute_content_hash sync

  abbrev pub all_stored : List (ℕ × ℕ) → State → State
  all_stored = upsert_all engine compute_content_hash sync

  -- Every path that was read has a live row.
  abbrev pub IsStored : State → Type 0
  IsStored state =
      (p : ℕ) → is_listed p state.1.contents ≡ true → is_live (find_file sync p state.0) ≡ true

  contents_one :
      (p q content : ℕ) (state : State)
      → is_listed p (stored (q, content) state).1.contents
        ≡ (q == p || is_listed p state.1.contents)
  unfolding classify
  contents_one p q content (files, result) =
      elim (upsert_cases engine compute_content_hash sync q files) [
        | inl f ↦
            rw (upsert_one-none engine compute_content_hash sync q content files result f)
              (is_listed-put p q content result.contents)
        | inr (inl (wf, f, n)) ↦
            rw (upsert_one-stale engine compute_content_hash sync q content files result wf f n)
              (is_listed-put p q wf.raw_content result.contents)
        | inr (inr (wf, f, n)) ↦
            rw (upsert_one-stored engine compute_content_hash sync q content files result wf f n)
              (is_listed-put p q content result.contents)
      ]

  pub contents_all :
      (p : ℕ) (items : List (ℕ × ℕ)) (state : State)
      → is_listed p (all_stored items state).1.contents
        ≡ (is_listed p items || is_listed p state.1.contents)
  unfolding upsert_all is_listed
  contents_all p [] state = refl
  contents_all p ((q, c) ∷ items) state =
      contents_all p items (stored (q, c) state) ∙ rw (contents_one p q c state) (ground arith)

  new_file-target :
      (p q content : ℕ)
      → is_target sync p (new_file sync q (compute_content_hash content) content) ≡ (q == p)
  unfolding is_target in_scope
  new_file-target p q content = ground arith

  live_added :
      (p q content : ℕ) (files : List WorkflowFile)
      → find_file sync q files ≡ none
      → (q == p || is_live (find_file sync p files)) ≡ true
      → is_live
          (find_file sync p (files ++ new_file sync q (compute_content_hash content) content ∷ []))
        ≡ true
  live_added p q content files f l = elim (Bool-cases (q == p)) [
    | inl e ↦
        let g : find_file sync p files ≡ none = rw (==→eq q p e) at f in
        rw
          (find_file-append_new sync p files
            (new_file sync q (compute_content_hash content) content) g)
          (rw (new_file-target p q content, e) refl)
    | inr d ↦
        let l' : is_live (find_file sync p files) ≡ true = rw d at l in
        elim (Option-cases (find_file sync p files)) [
          | inl g ↦ let dead : false ≡ true = rw g at l' in cc
          | inr (r, g) ↦
              rw
                (find_file-append sync p files
                  (new_file sync q (compute_content_hash content) content) r g)
                (rw g at l')
        ]
  ]

  live_written :
      (p q content : ℕ) (files : List WorkflowFile) (wf : WorkflowFile)
      → find_file sync q files ≡ some wf
      → (q == p || is_live (find_file sync p files)) ≡ true
      → is_live (
          find_file sync p
            (write_file sync q (store engine sync (compute_content_hash content) content) files))
        ≡ true
  unfolding store
  live_written p q content files wf f l = elim (Bool-cases (q == p)) [
    | inl e ↦
        subst
          (λ x.
            is_live (
              find_file sync x (
                write_file sync q (store engine sync (compute_content_hash content) content) files))
            ≡ true)
          (==→eq q p e)
          (ap is_live
            (find_file-write engine sync q (compute_content_hash content) content files wf f))
    | inr d ↦
        rw (find_file-write_other engine sync q (compute_content_hash content) content p files d)
          (rw d at l)
  ]

  -- What an upsert that lost no race leaves of a path.
  live_one :
      (p q content : ℕ) (state : State)
      → is_empty (stored (q, content) state).1.skipped_stale ≡ true
      → (q == p || is_live (find_file sync p state.0)) ≡ true
      → is_live (find_file sync p (stored (q, content) state).0) ≡ true
  live_one p q content (files, result) s l =
      elim (upsert_cases engine compute_content_hash sync q files) [
        | inl f ↦
            rw (upsert_one-none engine compute_content_hash sync q content files result f)
              (live_added p q content files f l)
        | inr (inl (wf, f, n)) ↦
            let stale =
              upsert_one-stale engine compute_content_hash sync q content files result wf f n in
            let emptied : is_empty (result.skipped_stale ++ q ∷ []) ≡ true = rw stale at s in
            let filled = not_empty result.skipped_stale q in cc
        | inr (inr (wf, f, n)) ↦
            rw (upsert_one-stored engine compute_content_hash sync q content files result wf f n)
              (live_written p q content files wf f l)
      ]

  -- Whatever is listed is live, if no race was lost.
  pub live_all :
      (items : List (ℕ × ℕ)) (state : State)
      → IsStored state
      → is_empty (all_stored items state).1.skipped_stale ≡ true
      → IsStored (all_stored items state)
  unfolding upsert_all
  live_all [] state i e = i
  live_all ((q, c) ∷ items) state i e =
      elim (Bool-cases (is_empty (stored (q, c) state).1.skipped_stale)) [
        | inl won ↦ live_all items (stored (q, c) state) (λ p l. next won p l) e
        | inr lost ↦
            let lost' =
              all_skipped_grows engine compute_content_hash sync items (stored (q, c) state) lost in
            cc
      ]
    where
      next : is_empty (stored (q, c) state).1.skipped_stale ≡ true → IsStored (stored (q, c) state)
      next won p l =
          let listed : (q == p || is_listed p state.1.contents) ≡ true =
            rw (contents_one p q c state) at l in
          live_one p q c state won
            (elim (Bool-cases (q == p)) [ inl e ↦ rw e refl | inr d ↦ rw d (i p (rw d at listed)) ])
