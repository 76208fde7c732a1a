-- ===== src/Events/Commands.antt =====
-- backend/app/services/github/event_handlers.py: the mappings of GitHub's words and the `/greensecops` commands.
use greensecops.Common.{
  Bool, List, [], ◌∷◌, Option, none, some, ◌||◌, if◌then◌else◌, Text, codes, text_eq, starts_with,
  remove_prefix, strip, split, lower,
}
use greensecops.Events.Enums.{
  CiStatus, ReviewDecision, approved, changes_requested, review_required,
}

unfoldable pub is_failure : Text → Bool
is_failure conclusion =
    text_eq conclusion (codes "failure")
    || text_eq conclusion (codes "timed_out")
    || text_eq conclusion (codes "cancelled")
    || text_eq conclusion (codes "action_required")

ci_of_conclusion : Option Text → CiStatus
unfolding is_failure
ci_of_conclusion none = CiStatus.none
ci_of_conclusion (some conclusion) =
    if text_eq conclusion (codes "success")
    then CiStatus.success
    else if is_failure conclusion
    then CiStatus.failure
    else CiStatus.none

unfoldable pub ci_status_from_conclusion : Text → Option Text → CiStatus
unfolding ci_of_conclusion
ci_status_from_conclusion status conclusion =
    if text_eq status (codes "completed") then ci_of_conclusion conclusion else CiStatus.pending

-- Only ASCII letters are folded: no other letter becomes one of these words.
unfoldable pub review_state_to_decision : Text → Option ReviewDecision
review_state_to_decision state =
    let word = lower state in
    if text_eq word (codes "approved")
    then some approved
    else if text_eq word (codes "changes_requested")
    then some changes_requested
    else if text_eq word (codes "dismissed")
    then some review_required
    else none

-- `in GREENSECOPS_COMMAND_VERBS`.
unfoldable pub is_verb : Text → Bool
is_verb verb =
    text_eq verb (codes "reanalyze")
    || text_eq verb (codes "ignore")
    || text_eq verb (codes "unignore")

abbrev pub prefix : Text
prefix = codes "/greensecops"

-- `None` where there is no word, or none that is a verb.
unfoldable pub known_command : List Text → Option (List Text)
unfolding is_verb
known_command [] = none
known_command (verb ∷ args) = if is_verb verb then some (verb ∷ args) else none

unfoldable pub parse_greensecops_command : Text → Option (List Text)
unfolding known_command
parse_greensecops_command body =
    let stripped = strip body in
    if starts_with prefix stripped
    then known_command (split (strip (remove_prefix prefix stripped)))
    else none
