-- ===== src/Tests/Guard.antt =====
-- Rewrites that drop or keep comments.
use greensecops.Common.{
  ◌≡◌, refl, inl, inr, [], ◌∷◌, ◌++◌, Memᴰ, none, some, Text, codes, text_eq, starts_with, split,
  strip, is_empty_text, is_space, strip_left, strip_right, IsBlank,
}
use greensecops.Llm.CommentGuard.{
  deleted_comments, comment_deletion_error, comment_text, splitlines, join_words,
}
use greensecops.Llm.Guarding.{
  KeepsComments, HasCommentWord, keeps-comment_deletion_error, passed-HasCommentWord,
}
use greensecops.Llm.Prose.{IsPlainWord}

abbrev newline : Text
newline = 10 ∷ []

abbrev original : Text
original =
    codes "image: web"
    ++ newline
    ++ codes "  # No USER:"
    ++ newline
    ++ codes "  # a test image."
    ++ newline

abbrev patched : Text
patched = codes "# No USER:" ++ newline ++ codes "user: web" ++ newline

abbrev rewrapped : Text
rewrapped = codes "# No" ++ newline ++ codes "# USER: a test image." ++ newline

-- The markers and the space around the prose do not count.
block_comment : comment_text (codes "   /* Kept   as it is. */ ") ≡ some (codes "Kept as it is.")
unfolding comment_text strip_left strip_right split text_eq
block_comment = refl

one_deleted : deleted_comments original patched ≡ codes "a test image." ∷ []
unfolding deleted_comments comment_text strip_left strip_right split text_eq
one_deleted = refl

-- Prose that is wrapped at another word counts as deleted.
wrapped : deleted_comments original rewrapped ≡ codes "No USER:" ∷ codes "a test image." ∷ []
unfolding deleted_comments comment_text strip_left strip_right split text_eq
wrapped = refl

-- The comments of the original at other places, beside a new line.
abbrev moved : Text
moved = codes "# a test image." ++ newline ++ codes "    # No USER:" ++ newline ++ codes "user: app"

moved_keeps : KeepsComments original moved
unfolding splitlines comment_text strip strip_left strip_right starts_with is_space
moved_keeps line (Memᴰ.head e) = inl (rw e refl)
moved_keeps line (Memᴰ.tail (Memᴰ.head e)) = inr (
  codes "  ",
  codes "# No USER:",
  (refl, (refl, tt)),
  e,
  (codes "    ", (refl, (refl, (refl, (refl, tt)))), Memᴰ.tail (Memᴰ.head refl)),
)
moved_keeps line (Memᴰ.tail (Memᴰ.tail (Memᴰ.head e))) =
    inr (codes "  ", codes "# a test image.", (refl, (refl, tt)), e, ([], tt, Memᴰ.head refl))
moved_keeps line (Memᴰ.tail (Memᴰ.tail (Memᴰ.tail m))) = elim m [ ]

keeps-comment_deletion_error_example : comment_deletion_error original moved ≡ none
keeps-comment_deletion_error_example = keeps-comment_deletion_error original moved moved_keeps

-- One comment in two files.
abbrev noted : Text
noted = codes "  // a b"

abbrev kept : Text
kept = codes "x" ++ newline ++ codes "// a b"

passes : comment_deletion_error noted kept ≡ none
unfolding comment_deletion_error comment_text strip_left strip_right split text_eq starts_with
passes = refl

plain_a : IsPlainWord (codes "a")
unfolding is_empty_text is_space
plain_a = ((refl, (refl, tt)), (refl, tt))

plain_b : IsPlainWord (codes "b")
unfolding is_empty_text is_space
plain_b = ((refl, (refl, tt)), (refl, tt))

noted_pad : IsBlank (codes "  ")
unfolding is_space
noted_pad = (refl, (refl, tt))

noted_line :
    Memᴰ
      (codes "  " ++ (codes "//" ++ 32 ∷ join_words (codes "a" ∷ codes "b" ∷ [])))
      (splitlines noted)
unfolding splitlines join_words
noted_line = Memᴰ.head refl

passed-HasCommentWord_example : HasCommentWord kept (codes "b")
passed-HasCommentWord_example =
    passed-HasCommentWord noted kept (codes "  ") (codes "//") (codes "a") (codes "b" ∷ []) passes
      noted_pad (inr (inl refl)) (plain_a, (plain_b, tt)) noted_line (codes "b")
      (Memᴰ.tail (Memᴰ.head refl))
