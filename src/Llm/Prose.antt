-- ===== src/Llm/Prose.antt =====
-- The prose that backend/app/services/llm/comment_guard.py reads from a line.
use greensecops.Common.{
  IsWord, IsBlank, strip_left-blank, strip_right-word, split-word, split_word, ◌≡◌, refl, sym, ap,
  ◌∙◌, ◌⊎◌, inl, inr, ◌==◌, ◌&&◌, true, false, List, [], ◌∷◌, ◌++◌, append_assoc, some, All,
  All-append, Text, codes, text_eq, starts_with, is_space, is_empty_text, strip, strip_left,
  strip_right, split, Bool-cases,
}
use greensecops.Llm.CommentGuard.{
  is_comment, remove_marker, remove_trailer, join_words, prose, comment_text, drop_marks, drop_one,
}

-- What a comment line begins with.
abbrev pub IsMark : Text → Type 0
IsMark mark = (mark ≡ codes "#") ⊎ (mark ≡ codes "//") ⊎ (mark ≡ codes "/*") ⊎ (mark ≡ codes "*")

abbrev pub HasNoStar : Text → Type 0
HasNoStar s = All (λ c. c == b'*' ≡ false) s

abbrev pub IsPlainWord : Text → Type 0
IsPlainWord w = IsWord w × HasNoStar w

star_lem : (s : Text) → HasNoStar s → text_eq s (codes "*/") ≡ false
unfolding text_eq
star_lem [] h = refl
star_lem (c ∷ s) h = rw h.0 refl

strip_left-HasNoStar : (s : Text) → HasNoStar s → HasNoStar (strip_left s)
unfolding strip_left
strip_left-HasNoStar [] h = tt
strip_left-HasNoStar (c ∷ s) h = elim (Bool-cases (is_space c)) [
  | inl e ↦ rw (strip_left, e) (strip_left-HasNoStar s h.1)
  | inr n ↦ rw (strip_left, n) h
]

strip_right-HasNoStar : (s : Text) → HasNoStar s → HasNoStar (strip_right s)
unfolding strip_right
strip_right-HasNoStar [] h = tt
strip_right-HasNoStar (c ∷ s) h = elim (Bool-cases (is_empty_text (strip_right s) && is_space c)) [
  | inl e ↦ rw e tt
  | inr n ↦ rw n (h.0, strip_right-HasNoStar s h.1)
]

remove_trailer_lem : (s : Text) → HasNoStar s → remove_trailer s ≡ s
unfolding remove_trailer strip
remove_trailer_lem [] h = refl
remove_trailer_lem (c ∷ s) h =
    rw
      (star_lem (strip_right (strip_left (c ∷ s)))
        (strip_right-HasNoStar (strip_left (c ∷ s)) (strip_left-HasNoStar (c ∷ s) h)))
      (ap (λ t. c ∷ t) (remove_trailer_lem s h.1))

join_words-HasNoStar : (ws : List Text) → All IsPlainWord ws → HasNoStar (join_words ws)
unfolding join_words
join_words-HasNoStar [] h = tt
join_words-HasNoStar (w ∷ []) h = h.0.1
join_words-HasNoStar (w ∷ v ∷ ws) h =
    All-append _ w _ h.0.1 (refl, join_words-HasNoStar (v ∷ ws) h.1)

pub split-join_words :
    (w : Text) (ws : List Text) → All IsPlainWord (w ∷ ws) → split (join_words (w ∷ ws)) ≡ w ∷ ws
unfolding join_words
split-join_words w [] h = split_word w h.0.0
split-join_words w (v ∷ ws) h =
    split-word w (join_words (v ∷ ws)) h.0.0 ∙ ap (λ t. w ∷ t) (split-join_words v ws h.1)

strip_right-join_words :
    (s w : Text) (ws : List Text)
    → All IsPlainWord (w ∷ ws)
    → strip_right (s ++ join_words (w ∷ ws)) ≡ s ++ join_words (w ∷ ws)
unfolding join_words
strip_right-join_words s w [] h = strip_right-word s w h.0.0
strip_right-join_words s w (v ∷ ws) h =
    let rest = join_words (v ∷ ws) in
    let onto : s ++ (w ++ 32 ∷ rest) ≡ s ++ w ++ codes " " ++ rest =
      sym (append_assoc (s ++ w) (codes " ") rest ∙ append_assoc s w (32 ∷ rest)) in
    rw onto (strip_right-join_words (s ++ w ++ codes " ") v ws h.1)

is_empty_text-join_words :
    (w : Text) (ws : List Text)
    → All IsPlainWord (w ∷ ws)
    → is_empty_text (join_words (w ∷ ws)) ≡ false
unfolding join_words is_empty_text
is_empty_text-join_words [] [] h = cc
is_empty_text-join_words [] (v ∷ ws) h = cc
is_empty_text-join_words (c ∷ w) [] h = refl
is_empty_text-join_words (c ∷ w) (v ∷ ws) h = refl

-- Behind a mark and a space, the prose is what is left of a stripped line.
remove_marker_lem :
    (mark s : Text)
    → IsMark mark
    → (is_comment (mark ++ 32 ∷ s) ≡ true) × (remove_marker (mark ++ 32 ∷ s) ≡ s)
unfolding is_comment remove_marker starts_with drop_marks drop_one is_space
remove_marker_lem mark s (inl e) = rw e (refl, refl)
remove_marker_lem mark s (inr (inl e)) = rw e (refl, refl)
remove_marker_lem mark s (inr (inr (inl e))) = rw e (refl, refl)
remove_marker_lem mark s (inr (inr (inr e))) = rw e (refl, refl)

strip_lem :
    (pad mark w : Text) (ws : List Text)
    → IsBlank pad
    → IsMark mark
    → All IsPlainWord (w ∷ ws)
    → strip (pad ++ (mark ++ 32 ∷ join_words (w ∷ ws))) ≡ mark ++ 32 ∷ join_words (w ∷ ws)
unfolding strip is_space
strip_lem pad mark w ws b (inl e) h =
    let rest = join_words (w ∷ ws) in
    rw e (
      rw (strip_left-blank pad b'#' (32 ∷ rest) b refl)
        (strip_right-join_words (codes "# ") w ws h))
strip_lem pad mark w ws b (inr (inl e)) h =
    let rest = join_words (w ∷ ws) in
    rw e (
      rw (strip_left-blank pad b'/' (b'/' ∷ 32 ∷ rest) b refl)
        (strip_right-join_words (codes "// ") w ws h))
strip_lem pad mark w ws b (inr (inr (inl e))) h =
    let rest = join_words (w ∷ ws) in
    rw e (
      rw (strip_left-blank pad b'/' (b'*' ∷ 32 ∷ rest) b refl)
        (strip_right-join_words (codes "/* ") w ws h))
strip_lem pad mark w ws b (inr (inr (inr e))) h =
    let rest = join_words (w ∷ ws) in
    rw e (
      rw (strip_left-blank pad b'*' (32 ∷ rest) b refl)
        (strip_right-join_words (codes "* ") w ws h))

pub comment_text_lem :
    (pad mark w : Text) (ws : List Text)
    → IsBlank pad
    → IsMark mark
    → All IsPlainWord (w ∷ ws)
    → comment_text (pad ++ (mark ++ 32 ∷ join_words (w ∷ ws))) ≡ some (join_words (w ∷ ws))
unfolding comment_text
comment_text_lem pad mark w ws b m h =
    let text = join_words (w ∷ ws) in
    let (comment, marked) = remove_marker_lem mark text m in
    let read : prose (mark ++ 32 ∷ text) ≡ text =
      unfold prose in
      (rw marked (
        rw (remove_trailer_lem text (join_words-HasNoStar (w ∷ ws) h))
          (rw (split-join_words w ws h) refl))) in
    rw (strip_lem pad mark w ws b m h)
      (rw read (rw comment (rw (is_empty_text-join_words w ws h) refl)))
