-- ===== src/Llm/CommentGuard.antt =====
-- backend/app/services/llm/comment_guard.py. A set of texts is the sorted list of its members.
use greensecops.Common.{
  text_lt, ℕ, ◌==◌, Bool, true, false, List, [], ◌∷◌, ◌++◌, Option, none, some, ◌&&◌, ◌||◌, not,
  any, if◌then◌else◌, leb, length, filter, Text, codes, text_eq, starts_with, strip, is_space,
  is_empty_text, split,
}

-- Where `str.splitlines` ends a line.
unfoldable pub is_line_break : ℕ → Bool
is_line_break c =
    leb 10 c && leb c 13 || leb 28 c && leb c 30 || c == 0x85 || c == 0x2028 || c == 0x2029

unfoldable pub onto_line : ℕ → List Text → List Text
onto_line c [] = (c ∷ []) ∷ []
onto_line c (line ∷ lines) = (c ∷ line) ∷ lines

-- The carriage return of a `\r\n`, which ends one line.
unfoldable pub is_before_newline : ℕ → Text → Bool
is_before_newline c [] = false
is_before_newline c (d ∷ _) = c == 13 && d == 10

-- `s.splitlines()`.
unfoldable pub splitlines : Text → List Text
unfolding is_line_break onto_line is_before_newline
splitlines [] = []
splitlines (c ∷ s) =
    let lines = splitlines s in
    if is_before_newline c s
    then lines
    else if is_line_break c
    then [] ∷ lines
    else onto_line c lines

-- The text behind every leading `mark`.
unfoldable pub drop_marks : ℕ → Text → Text
drop_marks mark [] = []
drop_marks mark (c ∷ s) = let rest = drop_marks mark s in if c == mark then rest else c ∷ s

unfoldable pub drop_one : (ℕ → Bool) → Text → Text
drop_one p [] = []
drop_one p (c ∷ s) = if p c then s else c ∷ s

unfoldable pub is_comment : Text → Bool
unfolding starts_with
is_comment stripped =
    starts_with (codes "#") stripped
    || starts_with (codes "//") stripped
    || starts_with (codes "/*") stripped
    || starts_with (codes "*") stripped

-- `_MARKER.sub("", stripped)`.
unfoldable pub remove_marker : Text → Text
unfolding starts_with drop_marks drop_one is_space
remove_marker s =
    if starts_with (codes "#") s
    then drop_one is_space (drop_marks b'#' s)
    else if starts_with (codes "//") s
    then drop_one is_space (drop_marks b'/' s)
    else if starts_with (codes "/*") s
    then drop_one is_space (drop_marks b'*' (drop_one (λ _. true) s))
    else if starts_with (codes "*") s
    then drop_one is_space (drop_one (λ c. c == b'/') (drop_marks b'*' s))
    else s

-- `_TRAILER.sub("", text)`: the first place from which only the end of a block comment follows.
unfoldable pub remove_trailer : Text → Text
unfolding strip
remove_trailer [] = []
remove_trailer (c ∷ s) =
    let rest = c ∷ remove_trailer s in if text_eq (strip (c ∷ s)) (codes "*/") then [] else rest

-- `" ".join(words)`.
unfoldable pub join_words : List Text → Text
join_words [] = []
join_words (w ∷ []) = w
join_words (w ∷ v ∷ words) = w ++ (codes " " ++ join_words (v ∷ words))

unfoldable pub prose : Text → Text
unfolding remove_marker remove_trailer split join_words
prose stripped = join_words (split (remove_trailer (remove_marker stripped)))

unfoldable pub comment_text : Text → Option Text
unfolding strip is_comment prose is_empty_text
comment_text line =
    let stripped = strip line in
    if is_comment stripped && not (is_empty_text (prose stripped))
    then some (prose stripped)
    else none

-- `set.add`, in the order of the texts.
unfoldable pub add_text : Text → List Text → List Text
unfolding text_lt text_eq
add_text t [] = t ∷ []
add_text t (u ∷ texts) =
    let rest = u ∷ add_text t texts in
    if text_eq t u then u ∷ texts else if text_lt t u then t ∷ u ∷ texts else rest

unfoldable pub add_comment : Option Text → List Text → List Text
unfolding add_text
add_comment none texts = texts
add_comment (some t) texts = add_text t texts

unfoldable pub texts_of : List Text → List Text
unfolding comment_text add_comment
texts_of [] = []
texts_of (line ∷ lines) = add_comment (comment_text line) (texts_of lines)

unfoldable pub has_text : List Text → Text → Bool
unfolding text_eq
has_text texts t = any (text_eq t) texts

unfoldable pub deleted_comments : Text → Text → List Text
unfolding splitlines texts_of has_text filter
deleted_comments original patched =
    let before = texts_of (splitlines original) in
    let after_ = texts_of (splitlines patched) in filter (λ t. not (has_text after_ t)) before

-- The message: how many comments were deleted, and the first three of them.
pub record CommentDeletion : Type 0 where
  pub count : ℕ
  pub shown : List Text

unfoldable pub first_three : List Text → List Text
first_three (a ∷ b ∷ c ∷ _) = a ∷ b ∷ c ∷ []
first_three texts = texts

unfoldable pub deletion_of : List Text → Option CommentDeletion
unfolding first_three
deletion_of [] = none
deletion_of (t ∷ dropped) =
    some (record { count = length (t ∷ dropped); shown = first_three (t ∷ dropped) })

unfoldable pub comment_deletion_error : Text → Text → Option CommentDeletion
unfolding deletion_of deleted_comments
comment_deletion_error original patched = deletion_of (deleted_comments original patched)
