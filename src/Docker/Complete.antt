-- ===== src/Docker/Complete.antt =====
-- That no configuration is left out: `effective_compose_documents` of
-- backend/app/services/docker/compose_merge.py.
use greensecops.Common.{
  ◌≢◌, ◌≢◌, ◌≡◌, refl, sym, subst, ap, ◌∙◌, Bool, true, false, List, [], ◌∷◌, Option, none, some,
  inl, inr, ◌⊎◌, if◌then◌else◌, Bool-cases, arith, Text, text_eq, text_eq→eq, Memᴰ, mem-append,
  All-mem,
}
use greensecops.Docker.Values.{Fields}
use greensecops.Docker.Effective.{IsEntry, merged_into, merge_overrides_step}
use greensecops.Docker.Documents.{
  merge_documents, is_override_document, override_base_name, find_document, merge_overrides,
  path_of, is_superseded, remaining_documents, index_documents, sort_documents,
  effective_compose_documents,
}
use greensecops.Docker.Listed.{UniquePaths, mem_find, entries-IsEntry, mem_by_path}

-- What a step adds to the effective documents stays.
mem_merged_into :
    (path : Text) (override : Fields) (base_path : Text) (base : Option Fields)
    → (found : List Fields × List Text) (doc : Fields) → Memᴰ doc found.0
    → Memᴰ doc (merged_into path override base_path base found).0
mem_merged_into path override base_path none found doc m = m
mem_merged_into path override base_path (some base) found doc m = Memᴰ.tail m

mem_either :
    (b : Bool) (doc : Fields) (yes_ no_ : List Fields × List Text)
    → (b ≡ true → Memᴰ doc yes_.0)
    → (b ≡ false → Memᴰ doc no_.0)
    → Memᴰ doc (if b then yes_ else no_).0
mem_either true doc yes_ no_ h k = h refl
mem_either false doc yes_ no_ h k = k refl

mem_merge_overrides :
    (by_path docs : List (Text × Fields)) (path : Text) (override base : Fields)
    → Memᴰ (path, override) docs
    → is_override_document override ≡ true
    → find_document (override_base_name path) by_path ≡ some base
    → Memᴰ
        (merge_documents (override_base_name path) base path override)
        (merge_overrides by_path docs).0
mem_merge_overrides by_path [] path override base m o f = elim m [ ]
mem_merge_overrides by_path ((p, d) ∷ docs) path override base m o f =
    subst (λ x. Memᴰ (merge_documents (override_base_name path) base path override) x.0)
      (sym (merge_overrides_step by_path p d docs))
      (mem_either (is_override_document d) _ _ _
        (λ h. elim m [
          | Memᴰ.head e ↦
              let same : path ≡ p = ap (λ x. x.0) e in
              let doc_same : override ≡ d = ap (λ x. x.1) e in
              rw (sym same) (rw (sym doc_same) (rw f (Memᴰ.head refl)))
          | Memᴰ.tail w ↦
              mem_merged_into p d (override_base_name p) _ _ _
                (mem_merge_overrides by_path docs path override base w o f)
        ])
        (λ n. elim m [
          | Memᴰ.head e ↦
              let doc_same : override ≡ d = ap (λ x. x.1) e in
              let clash : false ≡ true =
                sym n ∙ subst (λ x. is_override_document x ≡ true) doc_same o in
              absurd (cc)
          | Memᴰ.tail w ↦ mem_merge_overrides by_path docs path override base w o f
        ]))

-- An override supersedes the path: its own, or that of its base.
abbrev Supersedes : List (Text × Fields) → Text → Type 0
Supersedes docs p =
    (path : Text) × (override : Fields) × Memᴰ (path, override) docs
    × (is_override_document override ≡ true)
    × ((p ≡ path) ⊎ (p ≡ override_base_name path))

Supersedes-tail :
    (entry : Text × Fields) (docs : List (Text × Fields)) (p : Text)
    → Supersedes docs p
    → Supersedes (entry ∷ docs) p
Supersedes-tail entry docs p (path, override, m, o, e) = (path, override, Memᴰ.tail m, o, e)

merged_into-Supersedes :
    (path : Text) (override : Fields) (base : Option Fields) (docs : List (Text × Fields))
    → (found : List Fields × List Text) (p : Text) → is_override_document override ≡ true
    → (is_superseded found.1 p ≡ true → Supersedes docs p)
    → is_superseded (merged_into path override (override_base_name path) base found).1 p ≡ true
    → Supersedes ((path, override) ∷ docs) p
unfolding is_superseded
merged_into-Supersedes path override none docs found p o ih h = elim (Bool-cases (text_eq p path)) [
  | inl e ↦ (path, override, Memᴰ.head refl, o, inl (text_eq→eq p path e))
  | inr n ↦ Supersedes-tail (path, override) docs p (ih (ground (arith, n, h)))
]
merged_into-Supersedes path override (some base) docs found p o ih h =
    elim (Bool-cases (text_eq p path)) [
      | inl e ↦ (path, override, Memᴰ.head refl, o, inl (text_eq→eq p path e))
      | inr n ↦ elim (Bool-cases (text_eq p (override_base_name path))) [
        | inl e ↦
            (path, override, Memᴰ.head refl, o, inr (text_eq→eq p (override_base_name path) e))
        | inr k ↦ Supersedes-tail (path, override) docs p (ih (ground (arith, n, k, h)))
      ]
    ]

superseded-Supersedes :
    (by_path docs : List (Text × Fields)) (p : Text)
    → is_superseded (merge_overrides by_path docs).1 p ≡ true
    → Supersedes docs p
superseded-Supersedes by_path [] p h =
    let clash : false ≡ true = unfold is_superseded in (unfold merge_overrides in h) in absurd (cc)
superseded-Supersedes by_path ((path, doc) ∷ docs) p h =
    let ih = superseded-Supersedes by_path docs p in
    let step = merge_overrides_step by_path path doc docs in
    let h' = subst (λ x. is_superseded x.1 p ≡ true) step h in
    elim (Bool-cases (is_override_document doc)) [
      | inl e ↦
          merged_into-Supersedes path doc (find_document (override_base_name path) by_path) docs
            (merge_overrides by_path docs) p e ih (rw e at h')
      | inr n ↦ Supersedes-tail (path, doc) docs p (ih (rw n at h'))
    ]

mem_remaining :
    (superseded : List Text) (docs : List (Text × Fields)) (path : Text) (doc : Fields)
    → Memᴰ (path, doc) docs
    → is_superseded superseded path ≡ false
    → Memᴰ doc (remaining_documents superseded docs)
unfolding remaining_documents
mem_remaining superseded [] path doc m n = elim m [ ]
mem_remaining superseded ((p, d) ∷ docs) path doc (Memᴰ.head e) n =
    let same : path ≡ p = ap (λ x. x.0) e in
    let kept : is_superseded superseded p ≡ false =
      subst (λ x. is_superseded superseded x ≡ false) same n in
    rw kept (Memᴰ.head (ap (λ x. x.1) e))
mem_remaining superseded ((p, d) ∷ docs) path doc (Memᴰ.tail m) n =
    let rest = mem_remaining superseded docs path doc m n in
    elim (Bool-cases (is_superseded superseded p)) [
      | inl e ↦ rw e rest
      | inr k ↦ rw k (Memᴰ.tail rest)
    ]

-- A document that is no override and the base of none is not superseded.
free-is_superseded :
    (documents : List Fields)
    → UniquePaths documents
    → (doc : Fields) → Memᴰ doc documents
    → is_override_document doc ≡ false
    → ((override : Fields)
        → Memᴰ override documents
        → is_override_document override ≡ true
        → path_of doc ≢ override_base_name (path_of override))
    → let by_path = sort_documents (index_documents [] documents) in
      is_superseded (merge_overrides by_path by_path).1 (path_of doc) ≡ false
free-is_superseded documents unique doc m n free =
    let by_path = sort_documents (index_documents [] documents) in
    elim (Bool-cases (is_superseded (merge_overrides by_path by_path).1 (path_of doc))) [
      | inl s ↦
          let (path, override, w, o, e) = superseded-Supersedes by_path by_path (path_of doc) s in
          let (stored, named) =
            All-mem (IsEntry documents) by_path (entries-IsEntry documents unique) w in
          absurd (elim e [
            | inl own ↦
                let same : doc ≡ override = unique doc override m stored (own ∙ named) in
                let clash : false ≡ true = sym n ∙ (ap is_override_document same ∙ o) in absurd (cc)
            | inr base ↦ free override stored o (base ∙ ap override_base_name named)
          ])
      | inr k ↦ k
    ]

-- Every override with a base that is none is evaluated merged.
abbrev pub HasMerges : List Fields → Type 0
HasMerges documents =
    (base override : Fields)
    → Memᴰ base documents
    → Memᴰ override documents
    → is_override_document base ≡ false
    → is_override_document override ≡ true
    → path_of base ≡ override_base_name (path_of override)
    → Memᴰ (merge_documents (path_of base) base (path_of override) override)
        (effective_compose_documents documents)

-- Every document that is no override and the base of none is evaluated as it is.
abbrev pub HasWholes : List Fields → Type 0
HasWholes documents =
    (doc : Fields)
    → Memᴰ doc documents
    → is_override_document doc ≡ false
    → ((override : Fields)
        → Memᴰ override documents
        → is_override_document override ≡ true
        → path_of doc ≢ override_base_name (path_of override))
    → Memᴰ doc (effective_compose_documents documents)

-- Of documents with different paths none is left out: an override whose base, by its name, is among
-- them and no override is evaluated merged with it, and a document that is no override and the base of
-- none is evaluated as it is.
pub effective_compose_documents_complete :
    (documents : List Fields) → UniquePaths documents → HasMerges documents × HasWholes documents
unfolding effective_compose_documents
effective_compose_documents_complete documents unique = (merges, wholes)
  where
    merges : HasMerges documents
    merges base override b m w o e =
        let by_path = sort_documents (index_documents [] documents) in
        let entry = subst (λ p. Memᴰ (p, base) by_path) e (mem_by_path documents unique base b) in
        let found =
          mem_find documents unique (override_base_name (path_of override)) base by_path
            (entries-IsEntry documents unique) entry in
        let merged =
          mem_merge_overrides by_path by_path (path_of override) override base
            (mem_by_path documents unique override m) o found in
        (mem-append (merge_overrides by_path by_path).0 _).1 (
          inl (
            subst
              (λ p.
                Memᴰ (merge_documents p base (path_of override) override)
                  (merge_overrides by_path by_path).0)
              (sym e) merged))

    wholes : HasWholes documents
    wholes doc m n free =
        let by_path = sort_documents (index_documents [] documents) in
        (mem-append (merge_overrides by_path by_path).0 _).1 (
          inr (
            mem_remaining (merge_overrides by_path by_path).1 by_path (path_of doc) doc
              (mem_by_path documents unique doc m)
              (free-is_superseded documents unique doc m n free)))
