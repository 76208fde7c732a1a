-- ===== src/WorkflowSync/Rows.antt =====
-- Look-ups of a path behind the writes of a sync.
use greensecops.StateMachines.Base.{Engine}
use greensecops.WorkflowSync.{Sync, WorkflowFile, find_file, in_scope, is_target, store, write_file}
use greensecops.Common.{
  Bool-cases, List, [], ap, arith, false, if◌then◌else◌, inl, inr, none, refl, some, true, ℕ, ◌++◌,
  ◌==◌, ◌∷◌, ◌≡◌,
}
use greensecops.StateMachines.Fix.{FixStatus-discrete}

pub find_file-target :
    (sync : Sync) (p : ℕ) (files : List WorkflowFile) (r : WorkflowFile)
    → find_file sync p files ≡ some r
    → is_target sync p r ≡ true
unfolding find_file
find_file-target sync p [] r h = cc
find_file-target sync p (wf ∷ wfs) r h = elim (Bool-cases (is_target sync p wf)) [
  | inl here ↦ let same : some wf ≡ some r = rw here at h in ground arith
  | inr there ↦ find_file-target sync p wfs r (rw there at h)
]

pub find_file-append :
    (sync : Sync) (p : ℕ) (files : List WorkflowFile) (x r : WorkflowFile)
    → find_file sync p files ≡ some r
    → find_file sync p (files ++ x ∷ []) ≡ some r
unfolding find_file
find_file-append sync p [] x r h = cc
find_file-append sync p (wf ∷ wfs) x r h = elim (Bool-cases (is_target sync p wf)) [
  | inl here ↦ rw here (rw here at h)
  | inr there ↦ rw there (find_file-append sync p wfs x r (rw there at h))
]

pub find_file-append_new :
    (sync : Sync) (p : ℕ) (files : List WorkflowFile) (x : WorkflowFile)
    → find_file sync p files ≡ none
    → find_file sync p (files ++ x ∷ []) ≡ (if is_target sync p x then some x else none)
unfolding find_file
find_file-append_new sync p [] x h = refl
find_file-append_new sync p (wf ∷ wfs) x h = elim (Bool-cases (is_target sync p wf)) [
  | inl here ↦ let taken : some wf ≡ none = rw here at h in cc
  | inr there ↦ rw there (find_file-append_new sync p wfs x (rw there at h))
]

module _ (engine : Engine FixStatus-discrete) (sync : Sync) (q hash content : ℕ) where
  store-target :
      (p : ℕ) (wf : WorkflowFile)
      → is_target sync p (store engine sync hash content wf) ≡ is_target sync p wf
  unfolding store is_target in_scope
  store-target p wf = refl

  target-other :
      (p : ℕ) (wf : WorkflowFile)
      → (q == p) ≡ false
      → is_target sync q wf ≡ true
      → is_target sync p wf ≡ false
  unfolding is_target
  target-other p wf d h = ground arith

  pub find_file-write_other :
      (p : ℕ) (files : List WorkflowFile)
      → (q == p) ≡ false
      → find_file sync p (write_file sync q (store engine sync hash content) files)
        ≡ find_file sync p files
  unfolding find_file write_file
  find_file-write_other p [] d = refl
  find_file-write_other p (wf ∷ wfs) d = elim (Bool-cases (is_target sync q wf)) [
    | inl hit ↦ rw (hit, store-target p wf, target-other p wf d hit) (find_file-write_other p wfs d)
    | inr miss ↦ rw (miss, find_file-write_other p wfs d) refl
  ]

  pub find_file-write :
      (files : List WorkflowFile) (r : WorkflowFile)
      → find_file sync q files ≡ some r
      → find_file sync q (write_file sync q (store engine sync hash content) files)
        ≡ some (store engine sync hash content r)
  unfolding find_file write_file
  find_file-write [] r h = cc
  find_file-write (wf ∷ wfs) r h = elim (Bool-cases (is_target sync q wf)) [
    | inl hit ↦
        let same : some wf ≡ some r = rw hit at h in
        let same' : wf ≡ r = cc in
        rw (hit, store-target q wf, hit) (ap (λ x. some (store engine sync hash content x)) same')
    | inr miss ↦ rw (miss, miss) (find_file-write wfs r (rw miss at h))
  ]
