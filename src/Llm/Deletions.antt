-- ===== src/Llm/Deletions.antt =====
-- Which comments a rewrite must keep: backend/app/services/llm/comment_guard.py.
use greensecops.Common.{
  text_lt, ◌≡◌, refl, subst, ◌↔◌, ◌⊎◌, inl, inr, true, List, [], ◌∷◌, none, some, not, Bool-cases,
  Option-cases, Memᴰ, any-mem, mem-any, mem-filter, arith, Text, text_eq, text_eq_refl, text_eq→eq,
}
use greensecops.Llm.CommentGuard.{
  splitlines, comment_text, add_text, add_comment, texts_of, has_text, deleted_comments,
  deletion_of, comment_deletion_error,
}

-- A line of the text is a comment with this prose.
abbrev pub Carries : Text → Text → Type 0
Carries s t = (line : Text) × Memᴰ line (splitlines s) × (comment_text line ≡ some t)

mem_add_text : (t : Text) (texts : List Text) → Memᴰ t (add_text t texts)
unfolding add_text
mem_add_text t [] = Memᴰ.head refl
mem_add_text t (u ∷ texts) = elim (Bool-cases (text_eq t u)) [
  | inl e ↦ rw e (Memᴰ.head (text_eq→eq t u e))
  | inr n ↦ rw n (elim (Bool-cases (text_lt t u)) [
    | inl l ↦ rw l (Memᴰ.head refl)
    | inr m ↦ rw m (Memᴰ.tail (mem_add_text t texts))
  ])
]

mem_add_old : (t a : Text) (texts : List Text) → Memᴰ a texts → Memᴰ a (add_text t texts)
unfolding add_text
mem_add_old t a [] m = elim m [ ]
mem_add_old t a (u ∷ texts) m = elim (Bool-cases (text_eq t u)) [
  | inl e ↦ rw e m
  | inr n ↦ rw n (elim (Bool-cases (text_lt t u)) [
    | inl l ↦ rw l (Memᴰ.tail m)
    | inr k ↦
        rw k
          (elim m [ Memᴰ.head e ↦ Memᴰ.head e | Memᴰ.tail w ↦ Memᴰ.tail (mem_add_old t a texts w) ])
  ])
]

add_text_mem : (t a : Text) (texts : List Text) → Memᴰ a (add_text t texts) → (a ≡ t) ⊎ Memᴰ a texts
unfolding add_text
add_text_mem t a [] (Memᴰ.head e) = inl e
add_text_mem t a [] (Memᴰ.tail m) = elim m [ ]
add_text_mem t a (u ∷ texts) m = elim (Bool-cases (text_eq t u)) [
  | inl e ↦ let same : add_text t (u ∷ texts) ≡ u ∷ texts = rw e refl in inr (subst (Memᴰ a) same m)
  | inr n ↦ elim (Bool-cases (text_lt t u)) [
    | inl l ↦
        let here : add_text t (u ∷ texts) ≡ t ∷ u ∷ texts = rw n (rw l refl) in
        elim (subst (Memᴰ a) here m) [ Memᴰ.head e ↦ inl e | Memᴰ.tail w ↦ inr w ]
    | inr k ↦
        let later : add_text t (u ∷ texts) ≡ u ∷ add_text t texts = rw n (rw k refl) in
        elim (subst (Memᴰ a) later m) [
          | Memᴰ.head e ↦ inr (Memᴰ.head e)
          | Memᴰ.tail w ↦ elim (add_text_mem t a texts w) [
            | inl e ↦ inl e
            | inr v ↦ inr (Memᴰ.tail v)
          ]
        ]
  ]
]

-- A line of the list is a comment with this prose.
abbrev Among : List Text → Text → Type 0
Among lines t = (line : Text) × Memᴰ line lines × (comment_text line ≡ some t)

Among-tail : (t line : Text) (lines : List Text) → Among lines t → Among (line ∷ lines) t
Among-tail t line lines (l, m, e) = (l, Memᴰ.tail m, e)

texts_of-Among : (t : Text) (lines : List Text) → Memᴰ t (texts_of lines) → Among lines t
texts_of-Among t [] m = let w : Memᴰ {A = Text} t [] = unfold texts_of in m in elim w [ ]
texts_of-Among t (line ∷ lines) m = elim (Option-cases (comment_text line)) [
  | inl n ↦
      let skipped : texts_of (line ∷ lines) ≡ texts_of lines =
        unfold texts_of in (rw n (unfold add_comment in refl)) in
      Among-tail t line lines (texts_of-Among t lines (subst (Memᴰ t) skipped m))
  | inr (u, e) ↦
      let added : texts_of (line ∷ lines) ≡ add_text u (texts_of lines) =
        unfold texts_of in (rw e (unfold add_comment in refl)) in
      elim (add_text_mem u t (texts_of lines) (subst (Memᴰ t) added m)) [
        | inl p ↦ (line, Memᴰ.head refl, rw p e)
        | inr w ↦ Among-tail t line lines (texts_of-Among t lines w)
      ]
]

Among-texts_of :
    (t : Text) (lines : List Text) (line : Text)
    → Memᴰ line lines
    → comment_text line ≡ some t
    → Memᴰ t (texts_of lines)
unfolding texts_of add_comment
Among-texts_of t [] line m e = elim m [ ]
Among-texts_of t (l ∷ lines) line (Memᴰ.head p) e =
    let same : comment_text l ≡ some t = subst (λ x. comment_text x ≡ some t) p e in
    rw same (mem_add_text t (texts_of lines))
Among-texts_of t (l ∷ lines) line (Memᴰ.tail m) e =
    let ih = Among-texts_of t lines line m e in
    elim (Option-cases (comment_text l)) [
      | inl n ↦ rw n ih
      | inr (u, q) ↦ rw q (mem_add_old u t (texts_of lines) ih)
    ]

Carries-has_text : (s t : Text) → Carries s t → has_text (texts_of (splitlines s)) t ≡ true
unfolding has_text
Carries-has_text s t (line, m, e) =
    mem-any (text_eq t) (texts_of (splitlines s)) (Among-texts_of t (splitlines s) line m e)
      (text_eq_refl t)

has_text-Carries : (s t : Text) → has_text (texts_of (splitlines s)) t ≡ true → Carries s t
unfolding has_text
has_text-Carries s t h =
    let (u, m, e) = any-mem (text_eq t) (texts_of (splitlines s)) h in
    texts_of-Among t (splitlines s) (rw (text_eq→eq t u e) m)

-- The deleted comments are exactly the comments of the original whose prose no whole-line comment of
-- the rewrite has.
pub mem-deleted_comments :
    (original patched t : Text)
    → Memᴰ t (deleted_comments original patched) ↔ (Carries original t × ¬ Carries patched t)
unfolding deleted_comments
mem-deleted_comments original patched t = (to, from)
  where
    to : Memᴰ t (deleted_comments original patched) → Carries original t × ¬ Carries patched t
    to m =
        let (old, gone) =
          (mem-filter (λ (u : Text). not (has_text (texts_of (splitlines patched)) u))
              (texts_of (splitlines original))).0
            m in
        (
          texts_of-Among t (splitlines original) old,
          λ kept. absurd (ground (arith, gone, Carries-has_text patched t kept)),
        )

    from : Carries original t × ¬ Carries patched t → Memᴰ t (deleted_comments original patched)
    from ((line, m, e), lost) =
        (mem-filter (λ (u : Text). not (has_text (texts_of (splitlines patched)) u))
            (texts_of (splitlines original))).1
          (
            Among-texts_of t (splitlines original) line m e,
            elim (Bool-cases (has_text (texts_of (splitlines patched)) t)) [
              | inl h ↦ absurd (lost (has_text-Carries patched t h))
              | inr n ↦ rw n refl
            ],
          )

deletion_of_nothing :
    (dropped : List Text) → ((t : Text) → ¬ Memᴰ t dropped) → deletion_of dropped ≡ none
unfolding deletion_of
deletion_of_nothing [] h = refl
deletion_of_nothing (t ∷ dropped) h = absurd (h t (Memᴰ.head refl))

mem_deletion_of : (t : Text) (dropped : List Text) → deletion_of dropped ≡ none → ¬ Memᴰ t dropped
unfolding deletion_of
mem_deletion_of t [] h m = elim m [ ]
mem_deletion_of t (u ∷ dropped) h m = absurd (cc)

-- A rewrite passes exactly when the prose of every whole-line comment of the original is that of a
-- whole-line comment of the rewrite.
pub comment_deletion_error-none :
    (original patched : Text)
    → (comment_deletion_error original patched ≡ none)
      ↔ ((t : Text) → Carries original t → Carries patched t)
unfolding comment_deletion_error
comment_deletion_error-none original patched = (to, from)
  where
    to :
        deletion_of (deleted_comments original patched) ≡ none
        → (t : Text) → Carries original t
        → Carries patched t
    to h t old = elim (Bool-cases (has_text (texts_of (splitlines patched)) t)) [
      | inl kept ↦ has_text-Carries patched t kept
      | inr lost ↦ absurd (
          mem_deletion_of t (deleted_comments original patched) h (
            (mem-deleted_comments original patched t).1
              (old, λ kept. absurd (ground (arith, lost, Carries-has_text patched t kept)))))
    ]

    from :
        ((t : Text) → Carries original t → Carries patched t)
        → deletion_of (deleted_comments original patched) ≡ none
    from keeps = deletion_of_nothing (deleted_comments original patched) (λ t m.
        let (old, lost) = (mem-deleted_comments original patched t).0 m in lost (keeps t old))
