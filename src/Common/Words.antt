-- ===== src/Common/Words.antt =====
-- Words and white space: what `strip` and `split` do to a text made of them.
use Prim.Native.Nat.{ℕ}
use mathlib.Core.Path.{◌≡◌, refl, ap, ◌∙◌}
use mathlib.Core.Bool.{true, false}
use mathlib.Core.List.{[], ◌∷◌, ◌++◌}
use native.Mathlib.Omega.{arith}
use greensecops.Common.Lists.{All}
use greensecops.Common.Texts.{
  Text, is_empty_text, is_space, strip_left, strip_right, onto_word, starts_word, split,
}

-- A text with no white space in it, and not empty.
abbrev pub IsWord : Text → Type 0
IsWord w = (is_empty_text w ≡ false) × All (λ c. is_space c ≡ false) w

abbrev pub IsBlank : Text → Type 0
IsBlank pad = All (λ c. is_space c ≡ true) pad

pub strip_left-blank :
    (pad : Text) (c : ℕ) (s : Text)
    → IsBlank pad
    → is_space c ≡ false
    → strip_left (pad ++ c ∷ s) ≡ c ∷ s
unfolding strip_left
strip_left-blank [] c s b h = rw (strip_left, h) refl
strip_left-blank (p ∷ pad) c s b h = rw (strip_left, b.0) (strip_left-blank pad c s b.1 h)

strip_right_blank : (pad : Text) → IsBlank pad → strip_right pad ≡ []
unfolding strip_right is_empty_text
strip_right_blank [] b = refl
strip_right_blank (p ∷ pad) b = ground (arith, strip_right_blank pad b.1)

pub strip_right-blank : (s pad : Text) → IsBlank pad → strip_right (s ++ pad) ≡ strip_right s
unfolding strip_right is_empty_text
strip_right-blank [] pad b = strip_right_blank pad b
strip_right-blank (c ∷ s) pad b = rw (strip_right-blank s pad b) refl

strip_right_word : (w : Text) → All (λ c. is_space c ≡ false) w → strip_right w ≡ w
unfolding strip_right
strip_right_word [] h = refl
strip_right_word (c ∷ w) h = ground (arith, strip_right_word w h.1)

is_empty_text-append : (s w : Text) → is_empty_text w ≡ false → is_empty_text (s ++ w) ≡ false
unfolding is_empty_text
is_empty_text-append [] w h = h
is_empty_text-append (c ∷ s) w h = refl

pub strip_right-word : (s w : Text) → IsWord w → strip_right (s ++ w) ≡ s ++ w
unfolding strip_right
strip_right-word [] w h = strip_right_word w h.1
strip_right-word (c ∷ s) w h = ground (arith, strip_right-word s w h, is_empty_text-append s w h.0)

split_onto :
    (c : ℕ) (t : Text)
    → is_space c ≡ false
    → starts_word t ≡ false
    → split (c ∷ t) ≡ onto_word c (split t)
unfolding split
split_onto c t hc ht = rw (hc, ht) refl

pub split-word : (w s : Text) → IsWord w → split (w ++ 32 ∷ s) ≡ w ∷ split s
unfolding split is_empty_text starts_word onto_word is_space
split-word [] s h = cc
split-word (c ∷ []) s h = rw h.1.0 refl
split-word (c ∷ d ∷ w) s h =
    split_onto c (d ∷ w ++ 32 ∷ s) h.1.0 h.1.1.0
    ∙ ap (onto_word c) (split-word (d ∷ w) s (refl, h.1.1))

pub split_word : (w : Text) → IsWord w → split w ≡ w ∷ []
unfolding split is_empty_text starts_word onto_word
split_word [] h = cc
split_word (c ∷ []) h = rw h.1.0 refl
split_word (c ∷ d ∷ w) h =
    split_onto c (d ∷ w) h.1.0 h.1.1.0 ∙ ap (onto_word c) (split_word (d ∷ w) (refl, h.1.1))
