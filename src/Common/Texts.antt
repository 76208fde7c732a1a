-- ===== src/Common/Texts.antt =====
-- Python text as its code points, with the string methods that the source calls.
use Prim.Native.Nat.{ℕ, ◌+◌}
use Prim.Native.Char.{code}
use Prim.Native.String.{String}
use mathlib.Core.Path.{◌≡◌, refl}
use mathlib.Core.Bool.{Bool, true, false, ◌&&◌, ◌||◌}
use mathlib.Core.List.{List, [], ◌∷◌, ◌++◌}
use native.Mathlib.Omega.{arith}
use greensecops.Common.Tests.{leb, ltb, ◌==◌, if◌then◌else◌}

abbrev pub Text : Type 0
Text = List ℕ

-- The code points of a literal.
abbrev pub codes : String → Text
codes String.[] = []
codes (String.◌∷◌ c s) = code c ∷ codes s

unfoldable pub text_eq : Text → Text → Bool
text_eq [] [] = true
text_eq [] (_ ∷ _) = false
text_eq (_ ∷ _) [] = false
text_eq (a ∷ s) (b ∷ t) = a == b && text_eq s t

pub text_eq_refl : (s : Text) → text_eq s s ≡ true
unfolding text_eq
text_eq_refl [] = refl
text_eq_refl (a ∷ s) = ground (arith, text_eq_refl s)

pub text_eq→eq : (s t : Text) → text_eq s t ≡ true → s ≡ t
unfolding text_eq
text_eq→eq [] [] h = refl
text_eq→eq [] (_ ∷ _) h = cc
text_eq→eq (_ ∷ _) [] h = cc
text_eq→eq (a ∷ s) (b ∷ t) h = ground (arith, text_eq→eq s t)

unfoldable pub is_empty_text : Text → Bool
is_empty_text [] = true
is_empty_text (_ ∷ _) = false

-- `s.startswith(prefix)`.
unfoldable pub starts_with : Text → Text → Bool
starts_with [] s = true
starts_with (_ ∷ _) [] = false
starts_with (a ∷ p) (b ∷ s) = a == b && starts_with p s

pub starts_with-append : (p s : Text) → starts_with p (p ++ s) ≡ true
unfolding starts_with
starts_with-append [] s = refl
starts_with-append (a ∷ p) s = ground (arith, starts_with-append p s)

pub starts_with→append : (p s : Text) → starts_with p s ≡ true → (rest : Text) × (s ≡ p ++ rest)
unfolding starts_with
starts_with→append [] s h = (s, refl)
starts_with→append (_ ∷ _) [] h = cc
starts_with→append (a ∷ p) (b ∷ s) h =
    let (rest, e) = starts_with→append p s (ground arith) in (rest, ground arith)

-- The code points behind as many as the first text has.
unfoldable pub drop_length : Text → Text → Text
drop_length [] s = s
drop_length (_ ∷ _) [] = []
drop_length (_ ∷ p) (_ ∷ s) = drop_length p s

pub drop_length-append : (p s : Text) → drop_length p (p ++ s) ≡ s
unfolding drop_length
drop_length-append [] s = refl
drop_length-append (a ∷ p) s = drop_length-append p s

-- `s.removeprefix(prefix)`.
unfoldable pub remove_prefix : Text → Text → Text
remove_prefix p s = if starts_with p s then drop_length p s else s

-- The code points of which `str.isspace` is true.
unfoldable pub is_space : ℕ → Bool
is_space c =
    leb 9 c && leb c 13
    || leb 28 c && leb c 32
    || c == 0x85
    || c == 0xa0
    || c == 0x1680
    || leb 0x2000 c && leb c 0x200a
    || c == 0x2028
    || c == 0x2029
    || c == 0x202f
    || c == 0x205f
    || c == 0x3000

-- `s.lstrip()`.
unfoldable pub strip_left : Text → Text
strip_left [] = []
strip_left (c ∷ s) = elim (is_space c) [ true ↦ strip_left s | false ↦ c ∷ s ]

-- `s.rstrip()`: a white-space code point goes where nothing is left behind it.
unfoldable pub strip_right : Text → Text
unfolding is_empty_text
strip_right [] = []
strip_right (c ∷ s) =
    let rest = strip_right s in if is_empty_text rest && is_space c then [] else c ∷ rest

-- `s.strip()`.
unfoldable pub strip : Text → Text
strip s = strip_right (strip_left s)

-- A code point joins the word that begins behind it.
unfoldable pub onto_word : ℕ → List Text → List Text
onto_word c [] = (c ∷ []) ∷ []
onto_word c (w ∷ ws) = (c ∷ w) ∷ ws

unfoldable pub starts_word : Text → Bool
unfolding is_space
starts_word [] = true
starts_word (c ∷ _) = is_space c

-- `s.split()`: the words between runs of white space.
unfoldable pub split : Text → List Text
unfolding starts_word onto_word
split [] = []
split (c ∷ s) =
    let words = split s in
    if is_space c then words else if starts_word s then (c ∷ []) ∷ words else onto_word c words

-- `s.lower()` on ASCII letters.
unfoldable pub lower_code : ℕ → ℕ
lower_code c = if leb b'A' c && leb c b'Z' then c + 32 else c

unfoldable pub lower : Text → Text
lower [] = []
lower (c ∷ s) = lower_code c ∷ lower s

-- The order of Python's texts.
unfoldable pub text_lt : Text → Text → Bool
text_lt [] [] = false
text_lt [] (_ ∷ _) = true
text_lt (_ ∷ _) [] = false
text_lt (a ∷ s) (b ∷ t) = ltb a b || (a == b && text_lt s t)
