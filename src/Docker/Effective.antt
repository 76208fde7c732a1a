-- ===== src/Docker/Effective.antt =====
-- Which documents are evaluated: `effective_compose_documents` of
-- backend/app/services/docker/compose_merge.py.
use greensecops.Common.{
  ◌≡◌, refl, sym, subst, ◌∙◌, Bool, true, false, List, [], ◌∷◌, Option, none, some, inl, inr, ◌⊎◌,
  if◌then◌else◌, Bool-cases, arith, Text, text_eq, text_eq_refl, text_eq→eq, All, All-imp,
  All-append, Memᴰ, text_lt,
}
use greensecops.Docker.Values.{Fields}
use greensecops.Docker.Documents.{
  merge_documents, is_override_document, override_base_name, find_document, merge_overrides,
  path_of, put_document, insert_document, is_superseded, remaining_documents, index_documents,
  sort_documents, effective_compose_documents,
}

-- The document is not an override.
abbrev IsWhole : Fields → Type 0
IsWhole doc = is_override_document doc ≡ false

-- The merge of an override with a whole document, which is its base by the names of the files.
abbrev pub IsMerge : List Fields → Fields → Fields → Fields → Type 0
IsMerge documents base override doc =
    Memᴰ base documents
    × Memᴰ override documents
    × (is_override_document base ≡ false)
    × (is_override_document override ≡ true)
    × (path_of base ≡ override_base_name (path_of override))
    × (doc ≡ merge_documents (path_of base) base (path_of override) override)

-- A document that is no override, or the merge of one with its base.
abbrev pub IsConfiguration : List Fields → Fields → Type 0
IsConfiguration documents doc =
    (Memᴰ doc documents × (is_override_document doc ≡ false))
    ⊎ ((base : Fields) × (override : Fields) × IsMerge documents base override doc)

-- No override is the base of an override by its name, such as one whose name has another override
-- infix, or has the infix in other letters.
abbrev pub BasesAreWhole : List Fields → Type 0
BasesAreWhole documents =
    (base override : Fields)
    → Memᴰ base documents
    → Memᴰ override documents
    → is_override_document override ≡ true
    → path_of base ≡ override_base_name (path_of override)
    → is_override_document base ≡ false

module _ (documents : List Fields) where
  -- A document of the list, with its path.
  abbrev pub IsEntry : Text × Fields → Type 0
  IsEntry (path, doc) = Memᴰ doc documents × (path ≡ path_of doc)

  pub put_document-IsEntry :
      (path : Text) (doc : Fields) (entries : List (Text × Fields))
      → IsEntry (path, doc)
      → All IsEntry entries
      → All IsEntry (put_document path doc entries)
  unfolding put_document
  put_document-IsEntry path doc [] e h = (e, tt)
  put_document-IsEntry path doc ((p, d) ∷ entries) e h = elim (Bool-cases (text_eq p path)) [
    | inl s ↦ rw s ((e.0, text_eq→eq p path s ∙ e.1), h.1)
    | inr n ↦ rw n (h.0, put_document-IsEntry path doc entries e h.1)
  ]

  pub index_documents-IsEntry :
      (entries : List (Text × Fields)) (docs : List Fields)
      → All IsEntry entries
      → ((d : Fields) → Memᴰ d docs → Memᴰ d documents)
      → All IsEntry (index_documents entries docs)
  unfolding index_documents
  index_documents-IsEntry entries [] h m = h
  index_documents-IsEntry entries (doc ∷ docs) h m =
      index_documents-IsEntry (put_document (path_of doc) doc entries) docs
        (put_document-IsEntry (path_of doc) doc entries (m doc (Memᴰ.head refl), refl) h)
        (λ d w. m d (Memᴰ.tail w))

  insert_document-IsEntry :
      (entry : Text × Fields) (entries : List (Text × Fields))
      → IsEntry entry
      → All IsEntry entries
      → All IsEntry (insert_document entry entries)
  unfolding insert_document
  insert_document-IsEntry entry [] e h = (e, tt)
  insert_document-IsEntry (path, doc) ((p, d) ∷ entries) e h = elim (Bool-cases (text_lt path p)) [
    | inl s ↦ rw s (e, (h.0, h.1))
    | inr n ↦ rw n (h.0, insert_document-IsEntry (path, doc) entries e h.1)
  ]

  pub sort_documents-IsEntry :
      (entries : List (Text × Fields)) → All IsEntry entries → All IsEntry (sort_documents entries)
  unfolding sort_documents
  sort_documents-IsEntry [] h = tt
  sort_documents-IsEntry (entry ∷ entries) h =
      insert_document-IsEntry entry (sort_documents entries) h.0
        (sort_documents-IsEntry entries h.1)

  pub find_document-IsEntry :
      (path : Text) (doc : Fields) (entries : List (Text × Fields))
      → find_document path entries ≡ some doc
      → All IsEntry entries
      → IsEntry (path, doc)
  unfolding find_document
  find_document-IsEntry path doc [] f h = cc
  find_document-IsEntry path doc ((p, d) ∷ entries) f h = elim (Bool-cases (text_eq p path)) [
    | inl s ↦
        let same : d ≡ doc = ground (arith, s, f) in
        subst (λ x. Memᴰ x documents × (path ≡ path_of x)) same
          (h.0.0, sym (text_eq→eq p path s) ∙ h.0.1)
    | inr n ↦ find_document-IsEntry path doc entries (ground (arith, n, f)) h.1
  ]

-- Every override among the documents is superseded.
abbrev Covers : List Text → Text × Fields → Type 0
Covers superseded (path, doc) =
    is_override_document doc ≡ true → is_superseded superseded path ≡ true

Covers-more :
    (p : Text) (superseded : List Text) (entry : Text × Fields)
    → Covers superseded entry
    → Covers (p ∷ superseded) entry
unfolding is_superseded
Covers-more p superseded (path, doc) h e = ground (arith, h e)

-- What one override adds to the two results.
abbrev pub merged_into :
    Text → Fields → Text → Option Fields → List Fields × List Text → List Fields × List Text
merged_into path override base_path none (effective, superseded) = (effective, path ∷ superseded)
merged_into path override base_path (some base) (effective, superseded) =
    (merge_documents base_path base path override ∷ effective, base_path ∷ path ∷ superseded)

pub merge_overrides_step :
    (by_path : List (Text × Fields)) (path : Text) (doc : Fields) (docs : List (Text × Fields))
    → merge_overrides by_path ((path, doc) ∷ docs) ≡ (
        if is_override_document doc
        then merged_into path doc
            (override_base_name path)
            (find_document (override_base_name path) by_path)
            (merge_overrides by_path docs)
        else merge_overrides by_path docs)
unfolding merge_overrides
merge_overrides_step by_path path doc docs = ground arith

module _ (documents : List Fields) (whole : BasesAreWhole documents) where
  -- The results so far, over the documents that were read.
  abbrev IsSound : List (Text × Fields) → List Fields × List Text → Type 0
  IsSound docs (effective, superseded) =
      All (IsConfiguration documents) effective × All (Covers superseded) docs

  skipped-IsSound :
      (path : Text) (doc : Fields) (docs : List (Text × Fields)) (found : List Fields × List Text)
      → is_override_document doc ≡ false
      → IsSound docs found
      → IsSound ((path, doc) ∷ docs) found
  skipped-IsSound path doc docs (effective, superseded) n (w, c) = (w, (λ e. absurd (cc), c))

  merged_into-IsSound :
      (path : Text) (override : Fields) (base_path : Text) (base : Option Fields)
      → (docs : List (Text × Fields)) (found : List Fields × List Text)
      → ((d : Fields)
          → base ≡ some d
          → IsConfiguration documents (merge_documents base_path d path override))
      → IsSound docs found
      → IsSound ((path, override) ∷ docs) (merged_into path override base_path base found)
  unfolding is_superseded
  merged_into-IsSound path override base_path none docs (effective, superseded) g (w, c) = (
    w,
    (λ e. ground (arith, text_eq_refl path), All-imp _ _ docs (Covers-more path superseded) c),
  )
  merged_into-IsSound path override base_path (some base) docs (effective, superseded) g (w, c) = (
    (g base refl, w),
    (
      λ e. ground (arith, text_eq_refl path),
      All-imp _ _ docs
          (λ entry h.
            Covers-more base_path (path ∷ superseded) entry (Covers-more path superseded entry h))
          c,
    ),
  )

  either-IsSound :
      (b : Bool) (docs : List (Text × Fields)) (yes_ no_ : List Fields × List Text)
      → (b ≡ true → IsSound docs yes_)
      → (b ≡ false → IsSound docs no_)
      → IsSound docs (if b then yes_ else no_)
  either-IsSound true docs yes_ no_ h k = h refl
  either-IsSound false docs yes_ no_ h k = k refl

  merge-IsConfiguration :
      (path : Text) (override : Fields) (by_path : List (Text × Fields)) (base : Fields)
      → All (IsEntry documents) by_path
      → IsEntry documents (path, override)
      → is_override_document override ≡ true
      → find_document (override_base_name path) by_path ≡ some base
      → IsConfiguration documents (merge_documents (override_base_name path) base path override)
  merge-IsConfiguration path override by_path base h (m, p) e f =
      let (stored, named) =
        find_document-IsEntry documents (override_base_name path) base by_path f h in
      let pairs : path_of base ≡ override_base_name (path_of override) =
        sym named ∙ subst (λ x. override_base_name path ≡ override_base_name x) p refl in
      let same : merge_documents (override_base_name path) base path override
          ≡ merge_documents (path_of base) base (path_of override) override =
        rw (named, p) refl in
      inr (base, override, (stored, m, whole base override stored m e pairs, e, pairs, same))

  merge_overrides-IsSound :
      (by_path docs : List (Text × Fields))
      → All (IsEntry documents) by_path
      → All (IsEntry documents) docs
      → IsSound docs (merge_overrides by_path docs)
  merge_overrides-IsSound by_path [] h k = unfold merge_overrides in (tt, tt)
  merge_overrides-IsSound by_path ((path, doc) ∷ docs) h (k, ks) =
      let ih = merge_overrides-IsSound by_path docs h ks in
      subst (IsSound ((path, doc) ∷ docs)) (sym (merge_overrides_step by_path path doc docs)) (
        either-IsSound (is_override_document doc) ((path, doc) ∷ docs) _ _
          (λ e.
            merged_into-IsSound path doc (override_base_name path) _ docs _
              (λ base f. merge-IsConfiguration path doc by_path base h k e f) ih)
          (λ n. skipped-IsSound path doc docs _ n ih))

  remaining-IsConfiguration :
      (superseded : List Text) (docs : List (Text × Fields))
      → All (IsEntry documents) docs
      → All (Covers superseded) docs
      → All (IsConfiguration documents) (remaining_documents superseded docs)
  unfolding remaining_documents
  remaining-IsConfiguration superseded [] h c = tt
  remaining-IsConfiguration superseded ((path, doc) ∷ docs) (k, ks) (c, cs) =
      elim (Bool-cases (is_superseded superseded path)) [
        | inl e ↦ rw e (remaining-IsConfiguration superseded docs ks cs)
        | inr n ↦
            rw n (inl (k.0, ground (arith, c)), remaining-IsConfiguration superseded docs ks cs)
      ]

-- Where no override has an override for its base by the names of the files, every document that is
-- evaluated is a document of the list that is no override, or the merge of an override of the list with a document
-- of the list that is none and has the override's path less its infix: an override without a base
-- contributes nothing.
pub effective_compose_documents-IsConfiguration :
    (documents : List Fields)
    → BasesAreWhole documents
    → All (IsConfiguration documents) (effective_compose_documents documents)
unfolding effective_compose_documents
effective_compose_documents-IsConfiguration documents whole =
    let by_path = sort_documents (index_documents [] documents) in
    let entries : All (IsEntry documents) by_path =
      sort_documents-IsEntry documents (index_documents [] documents)
        (index_documents-IsEntry documents [] documents tt (λ d m. m)) in
    let (w, c) = merge_overrides-IsSound documents whole by_path by_path entries entries in
    All-append (IsConfiguration documents) _ _ w
      (remaining-IsConfiguration documents whole _ by_path entries c)
