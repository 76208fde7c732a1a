-- ===== src/Events/Commanding.antt =====
-- What a `/greensecops` comment is read as, and what muting a finding does.
use greensecops.Common.{
  ℕ, ◌≡◌, inl, inr, refl, sym, subst, ap, ◌∙◌, true, false, List, [], ◌∷◌, ◌++◌, none, some,
  append_assoc, append-nil, Bool-cases, All, update, update-update, arith, Text, codes, text_eq,
  text_eq→eq, starts_with-append, remove_prefix, drop_length-append, strip, split, strip_right,
  IsWord, IsBlank, is_space, is_empty_text, strip_left-blank, strip_right-blank, strip_right-word,
  split-word, split_word,
}
use greensecops.Events.Store.{Repository, WorkflowFinding, World}
use greensecops.Events.Commands.{is_verb, prefix, parse_greensecops_command}
use greensecops.Events.Attributes.{has_fingerprint, set_ignored, handle_issue_command}

verb_IsWord : (verb : Text) → is_verb verb ≡ true → IsWord verb
unfolding is_verb is_empty_text is_space
verb_IsWord verb h = elim (Bool-cases (text_eq verb (codes "reanalyze"))) [
  | inl r ↦ rw (text_eq→eq verb _ r) (ground arith)
  | inr nr ↦ elim (Bool-cases (text_eq verb (codes "ignore"))) [
    | inl i ↦ rw (text_eq→eq verb _ i) (ground arith)
    | inr ni ↦ rw (text_eq→eq verb (codes "unignore") (ground arith)) (ground arith)
  ]
]

-- White space around a text whose first character and whose last word have none goes.
strip_padded :
    (before behind s w : Text) (c : ℕ)
    → IsBlank before
    → IsBlank behind
    → is_space c ≡ false
    → IsWord w
    → strip (before ++ ((c ∷ (s ++ w)) ++ behind)) ≡ c ∷ (s ++ w)
unfolding strip
strip_padded before behind s w c b e hc hw =
    ap strip_right (strip_left-blank before c ((s ++ w) ++ behind) b hc)
    ∙ strip_right-blank (c ∷ (s ++ w)) behind e
    ∙ strip_right-word (c ∷ s) w hw

-- The text behind the prefix.
abbrev call : Text → Text → Text
call verb word = 32 ∷ (verb ++ 32 ∷ word)

split-call :
    (verb word : Text)
    → IsWord verb
    → IsWord word
    → split (strip (call verb word)) ≡ verb ∷ word ∷ []
unfolding is_space is_empty_text
split-call [] word hv hw = cc
split-call (c ∷ v) word hv hw =
    let e : (c ∷ v) ++ 32 ∷ word ≡ c ∷ ((v ++ 32 ∷ []) ++ word) =
      ap (λ t. c ∷ t) (sym (append_assoc v (32 ∷ []) word)) in
    ap split (
      rw e (
        sym (ap (λ t. strip (32 ∷ t)) (append-nil (c ∷ ((v ++ 32 ∷ []) ++ word))))
        ∙ strip_padded (32 ∷ []) [] (v ++ 32 ∷ []) word c (refl, tt) tt hv.1.0 hw))
    ∙ ap split (sym e)
    ∙ split-word (c ∷ v) word hv
    ∙ ap (λ ws. (c ∷ v) ∷ ws) (split_word word hw)

strip-comment :
    (before behind verb word : Text)
    → IsBlank before
    → IsBlank behind
    → IsWord word
    → strip (before ++ ((prefix ++ call verb word) ++ behind)) ≡ prefix ++ call verb word
unfolding is_space
strip-comment before behind verb word b e hw =
    let assoc : prefix ++ call verb word ≡ (prefix ++ 32 ∷ (verb ++ 32 ∷ [])) ++ word =
      ap (λ t. prefix ++ 32 ∷ t) (sym (append_assoc verb (32 ∷ []) word)) in
    subst (λ (t : Text). strip (before ++ (t ++ behind)) ≡ t) (sym assoc)
      (strip_padded before behind (codes "greensecops" ++ 32 ∷ (verb ++ 32 ∷ [])) word b'/' b e refl
        hw)

-- A comment that says `/greensecops`, a verb and a word, with white space before and behind, is the
-- command of the verb and that word.
pub parse_greensecops_command_lem :
    (before behind verb word : Text)
    → IsBlank before
    → IsBlank behind
    → is_verb verb ≡ true
    → IsWord word
    → parse_greensecops_command (before ++ ((prefix ++ call verb word) ++ behind))
      ≡ some (verb ∷ word ∷ [])
unfolding parse_greensecops_command remove_prefix
parse_greensecops_command_lem before behind verb word b e v hw =
    rw (strip-comment before behind verb word b e hw) (
      rw
        (
          starts_with-append prefix (call verb word),
          drop_length-append prefix (call verb word),
          split-call verb word (verb_IsWord verb v) hw,
        )
        (rw v refl))

-- The findings of the repository with this fingerprint are not muted.
abbrev pub AreHeard : Repository → Text → World → Type 0
AreHeard repo fingerprint w =
    All (λ finding. has_fingerprint repo fingerprint finding ≡ true → finding.ignored_at ≡ none)
      w.findings

unmute :
    (repo : Repository) (fingerprint : Text) (findings : List WorkflowFinding)
    → All
        (λ finding. has_fingerprint repo fingerprint finding ≡ true → finding.ignored_at ≡ none)
        findings
    → update (has_fingerprint repo fingerprint) (set_ignored none) findings ≡ findings
unfolding update set_ignored
unmute repo fingerprint [] h = refl
unmute repo fingerprint (f ∷ fs) h = elim (Bool-cases (has_fingerprint repo fingerprint f)) [
  | inl e ↦ ground (arith, e, h.0 e, unmute repo fingerprint fs h.1)
  | inr e ↦ ground (arith, e, unmute repo fingerprint fs h.1)
]

muted-All :
    (now : ℕ) (repo : Repository) (fingerprint : Text) (findings : List WorkflowFinding)
    → All
        (λ finding. has_fingerprint repo fingerprint finding ≡ true → finding.ignored_at ≡ some now)
        (update (has_fingerprint repo fingerprint) (set_ignored (some now)) findings)
unfolding update set_ignored
muted-All now repo fingerprint [] = tt
muted-All now repo fingerprint (f ∷ fs) = (
  elim (Bool-cases (has_fingerprint repo fingerprint f)) [
    | inl e ↦ rw e (λ _. refl)
    | inr e ↦ rw e (λ h. cc)
  ],
  muted-All now repo fingerprint fs,
)

-- `ignore` and then `unignore` of a fingerprint of which no finding of the repository is muted leaves
-- every table and queue as it was, and between the two every such finding is muted.
pub unignore-ignore :
    (now later : ℕ) (repo : Repository) (fingerprint : Text) (w : World)
    → AreHeard repo fingerprint w
    → let muted = handle_issue_command now repo (codes "ignore" ∷ fingerprint ∷ []) w in
      (handle_issue_command later repo (codes "unignore" ∷ fingerprint ∷ []) muted ≡ w)
      × All
          (λ finding.
            has_fingerprint repo fingerprint finding ≡ true → finding.ignored_at ≡ some now)
          muted.findings
unfolding handle_issue_command text_eq has_fingerprint
unignore-ignore now later repo fingerprint w heard = (
  ap (λ (fs : List WorkflowFinding). record w { findings = fs })
      (update-update (has_fingerprint repo fingerprint) (set_ignored (some now)) (set_ignored none)
          w.findings (λ f h. h)
        ∙ unmute repo fingerprint w.findings heard),
  muted-All now repo fingerprint w.findings,
)
