-- ===== src/Docker/Listed.antt =====
-- Where the documents stand by their paths: `by_path` of `effective_compose_documents` of
-- backend/app/services/docker/compose_merge.py.
use greensecops.Common.{
  ◌≡◌, refl, sym, subst, ap, ◌∙◌, List, [], ◌∷◌, some, inl, inr, ◌⊎◌, Bool-cases, Text, text_eq,
  text_eq_refl, text_eq→eq, All, Memᴰ, All-mem, text_lt,
}
use greensecops.Docker.Values.{Fields}
use greensecops.Docker.Effective.{
  IsEntry, index_documents-IsEntry, sort_documents-IsEntry, put_document-IsEntry,
}
use greensecops.Docker.Documents.{
  find_document, path_of, put_document, insert_document, index_documents, sort_documents,
}

-- No two documents have one path.
abbrev pub UniquePaths : List Fields → Type 0
UniquePaths documents =
    (a b : Fields) → Memᴰ a documents → Memᴰ b documents → path_of a ≡ path_of b → a ≡ b

module _ (documents : List Fields) (unique : UniquePaths documents) where
  mem_put_new :
      (path : Text) (doc : Fields) (entries : List (Text × Fields))
      → Memᴰ (path, doc) (put_document path doc entries)
  unfolding put_document
  mem_put_new path doc [] = Memᴰ.head refl
  mem_put_new path doc ((p, d) ∷ entries) = elim (Bool-cases (text_eq p path)) [
    | inl e ↦ rw e (Memᴰ.head (ap (λ x. (x, doc)) (sym (text_eq→eq p path e))))
    | inr n ↦ rw n (Memᴰ.tail (mem_put_new path doc entries))
  ]

  mem_put_old :
      (path : Text) (doc : Fields) (entries : List (Text × Fields)) (entry : Text × Fields)
      → IsEntry documents (path, doc)
      → All (IsEntry documents) entries
      → Memᴰ entry entries
      → Memᴰ entry (put_document path doc entries)
  unfolding put_document
  mem_put_old path doc [] entry e h m = elim m [ ]
  mem_put_old path doc ((p, d) ∷ entries) entry e h m = elim (Bool-cases (text_eq p path)) [
    | inl s ↦
        let same : d ≡ doc = unique d doc h.0.0 e.0 (sym h.0.1 ∙ text_eq→eq p path s ∙ e.1) in
        rw s (subst (λ x. Memᴰ entry ((p, x) ∷ entries)) same m)
    | inr n ↦ rw n (elim m [
      | Memᴰ.head q ↦ Memᴰ.head q
      | Memᴰ.tail w ↦ Memᴰ.tail (mem_put_old path doc entries entry e h.1 w)
    ])
  ]

  mem_index :
      (entries : List (Text × Fields)) (docs : List Fields) (entry : Text × Fields)
      → All (IsEntry documents) entries
      → ((d : Fields) → Memᴰ d docs → Memᴰ d documents)
      → Memᴰ entry entries ⊎ ((d : Fields) × Memᴰ d docs × (entry ≡ (path_of d, d)))
      → Memᴰ entry (index_documents entries docs)
  unfolding index_documents
  mem_index entries [] entry h k (inl m) = m
  mem_index entries [] entry h k (inr (d, m, e)) = elim m [ ]
  mem_index entries (doc ∷ docs) entry h k o =
      let here : IsEntry documents (path_of doc, doc) = (k doc (Memᴰ.head refl), refl) in
      mem_index (put_document (path_of doc) doc entries) docs entry
        (put_document-IsEntry documents (path_of doc) doc entries here h) (λ d w. k d (Memᴰ.tail w))
        (elim o [
          | inl m ↦ inl (mem_put_old (path_of doc) doc entries entry here h m)
          | inr (d, Memᴰ.head q, e) ↦ inl (
              rw e (
                subst (λ x. Memᴰ (path_of x, x) (put_document (path_of doc) doc entries)) (sym q)
                  (mem_put_new (path_of doc) doc entries)))
          | inr (d, Memᴰ.tail m, e) ↦ inr (d, m, e)
        ])

  mem_insert_new :
      (entry : Text × Fields) (entries : List (Text × Fields))
      → Memᴰ entry (insert_document entry entries)
  unfolding insert_document
  mem_insert_new entry [] = Memᴰ.head refl
  mem_insert_new (path, doc) ((p, d) ∷ entries) = elim (Bool-cases (text_lt path p)) [
    | inl s ↦ rw s (Memᴰ.head refl)
    | inr n ↦ rw n (Memᴰ.tail (mem_insert_new (path, doc) entries))
  ]

  mem_insert_old :
      (entry other : Text × Fields) (entries : List (Text × Fields))
      → Memᴰ other entries
      → Memᴰ other (insert_document entry entries)
  unfolding insert_document
  mem_insert_old entry other [] m = elim m [ ]
  mem_insert_old (path, doc) other ((p, d) ∷ entries) m = elim (Bool-cases (text_lt path p)) [
    | inl s ↦ rw s (Memᴰ.tail m)
    | inr n ↦ rw n (elim m [
      | Memᴰ.head q ↦ Memᴰ.head q
      | Memᴰ.tail w ↦ Memᴰ.tail (mem_insert_old (path, doc) other entries w)
    ])
  ]

  mem_sort :
      (entry : Text × Fields) (entries : List (Text × Fields))
      → Memᴰ entry entries
      → Memᴰ entry (sort_documents entries)
  unfolding sort_documents
  mem_sort entry [] m = elim m [ ]
  mem_sort entry (x ∷ entries) (Memᴰ.head e) = rw e (mem_insert_new x (sort_documents entries))
  mem_sort entry (x ∷ entries) (Memᴰ.tail m) =
      mem_insert_old x entry (sort_documents entries) (mem_sort entry entries m)

  pub mem_find :
      (path : Text) (doc : Fields) (entries : List (Text × Fields))
      → All (IsEntry documents) entries
      → Memᴰ (path, doc) entries
      → find_document path entries ≡ some doc
  unfolding find_document
  mem_find path doc [] h m = elim m [ ]
  mem_find path doc ((p, d) ∷ entries) h (Memᴰ.head e) =
      let same : p ≡ path = sym (ap (λ x. x.0) e) in
      let doc_same : d ≡ doc = sym (ap (λ x. x.1) e) in
      rw same (rw (text_eq_refl path) (ap some doc_same))
  mem_find path doc ((p, d) ∷ entries) h (Memᴰ.tail m) = elim (Bool-cases (text_eq p path)) [
    | inl s ↦
        let (stored, named) = All-mem (IsEntry documents) entries h.1 m in
        rw s (ap some (unique d doc h.0.0 stored (sym h.0.1 ∙ text_eq→eq p path s ∙ named)))
    | inr n ↦ rw n (mem_find path doc entries h.1 m)
  ]

  pub entries-IsEntry : All (IsEntry documents) (sort_documents (index_documents [] documents))
  entries-IsEntry =
      sort_documents-IsEntry documents (index_documents [] documents)
        (index_documents-IsEntry documents [] documents tt (λ d m. m))

  pub mem_by_path :
      (doc : Fields)
      → Memᴰ doc documents
      → Memᴰ (path_of doc, doc) (sort_documents (index_documents [] documents))
  mem_by_path doc m =
      mem_sort (path_of doc, doc) (index_documents [] documents)
        (mem_index [] documents (path_of doc, doc) tt (λ d w. w) (inr (doc, m, refl)))
