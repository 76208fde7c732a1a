-- ===== src/Llm/Guarding.antt =====
-- What passes the guard, and what does not: backend/app/services/llm/comment_guard.py.
use greensecops.Common.{
  ◌≡◌, refl, sym, subst, ◌∙◌, ◌⊎◌, inl, inr, List, [], ◌∷◌, ◌++◌, Memᴰ, some, none, All, Text,
  strip, strip_left, split, IsBlank,
}
use greensecops.Llm.CommentGuard.{splitlines, comment_text, comment_deletion_error, join_words}
use greensecops.Llm.Deletions.{Carries, comment_deletion_error-none}
use greensecops.Llm.Prose.{IsMark, IsPlainWord, comment_text_lem, split-join_words}

-- The text has the line, indented in some way.
abbrev pub HasLine : Text → Text → Type 0
HasLine text core = (pad : Text) × IsBlank pad × Memᴰ (pad ++ core) (splitlines text)

-- Every line of the original that is a comment stands in the rewrite, wherever and however indented.
abbrev pub KeepsComments : Text → Text → Type 0
KeepsComments original patched =
    (line : Text)
    → Memᴰ line (splitlines original)
    → (comment_text line ≡ none)
      ⊎ ((pad : Text) × (core : Text) × IsBlank pad × (line ≡ pad ++ core) × HasLine patched core)

strip_left-indented : (pad s : Text) → IsBlank pad → strip_left (pad ++ s) ≡ strip_left s
unfolding strip_left
strip_left-indented [] s b = refl
strip_left-indented (c ∷ pad) s b = rw (strip_left, b.0) (strip_left-indented pad s b.1)

comment_text-indented : (pad s : Text) → IsBlank pad → comment_text (pad ++ s) ≡ comment_text s
unfolding comment_text strip
comment_text-indented pad s b = rw (strip_left-indented pad s b) refl

kept-Carries :
    (original patched t : Text)
    → KeepsComments original patched
    → Carries original t
    → Carries patched t
kept-Carries original patched t keeps (line, m, e) = elim (keeps line m) [
  | inl n ↦ absurd (cc)
  | inr (pad, core, b, same, (pad', b', found)) ↦ (
    pad' ++ core,
    found,
    comment_text-indented pad' core b'
        ∙ sym (comment_text-indented pad core b)
        ∙ subst (λ x. comment_text x ≡ some t) same e,
  )
]

-- A rewrite passes that keeps every comment line, wherever it puts it and however it indents it, and
-- whatever else it adds, changes or drops.
pub keeps-comment_deletion_error :
    (original patched : Text)
    → KeepsComments original patched
    → comment_deletion_error original patched ≡ none
keeps-comment_deletion_error original patched keeps =
    (comment_deletion_error-none original patched).1
      (λ t old. kept-Carries original patched t keeps old)

-- A comment of the text has the word.
abbrev pub HasCommentWord : Text → Text → Type 0
HasCommentWord text word = (prose : Text) × Carries text prose × Memᴰ word (split prose)

-- No comment vanishes from a rewrite that passes: where a line of the original is a mark, `#`, `//`,
-- `/*` or `*`, and words without a star behind it, each of these words stands in a comment of the rewrite.
pub passed-HasCommentWord :
    (original patched pad mark w : Text) (ws : List Text)
    → comment_deletion_error original patched ≡ none
    → IsBlank pad
    → IsMark mark
    → All IsPlainWord (w ∷ ws)
    → Memᴰ (pad ++ (mark ++ 32 ∷ join_words (w ∷ ws))) (splitlines original)
    → (word : Text) → Memᴰ word (w ∷ ws)
    → HasCommentWord patched word
passed-HasCommentWord original patched pad mark w ws passed b mk h stored word m =
    let text = join_words (w ∷ ws) in
    let kept =
      (comment_deletion_error-none original patched).0 passed text
        (pad ++ (mark ++ 32 ∷ text), stored, comment_text_lem pad mark w ws b mk h) in
    (text, kept, subst (Memᴰ word) (sym (split-join_words w ws h)) m)
