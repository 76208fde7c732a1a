-- ===== src/Maintenance/Retrying.antt =====
-- What a pass of backend/app/workers/tasks/maintenance.py runs again.
use greensecops.Common.{
  ◌≡◌, refl, sym, subst, ℕ, ◌+◌, ◌<◌, Bool, true, false, List, [], ◌∷◌, ◌++◌, inl, inr, ◌==◌, ◌&&◌,
  ◌||◌, not, if◌then◌else◌, Bool-cases, any, arith, Text, text_eq, text_eq_refl, text_eq→eq, ==→eq,
  Memᴰ, some, first, mem-append, mem-any,
}
use greensecops.Events.Store.{Repository}
use greensecops.Webhooks.Payload.{SlotReply, may_go_on}
use greensecops.Maintenance.Retry.{
  WorkflowScan, Rerun, rerun, RetryPass, is_seen, schedule, is_exhausted, retry_branch,
  retry_candidate, retry_candidates, candidates, candidate_of, retry_cutoff,
  retry_transient_analyses, attempts, is_transient_failure, is_since,
}

abbrev is_target : ℕ → Text → ℕ → Text → Bool
is_target r b repo_id branch = repo_id == r && text_eq branch b

-- How often the branch of the repository was queued.
unfoldable pub times : ℕ → Text → List Rerun → ℕ
times r b [] = 0
times r b (x ∷ xs) = (if is_target r b x.repo_id x.branch then 1 else 0) + times r b xs

-- The failure may be retried, and is one of the branch.
unfoldable pub is_due : List WorkflowScan → ℕ → Text → WorkflowScan × Repository → Bool
is_due scans r b (scan, repo) =
    not (is_exhausted scans scan) && is_target r b repo.id (retry_branch scan repo)

times-append :
    (r : ℕ) (b : Text) (xs ys : List Rerun) → times r b (xs ++ ys) ≡ times r b xs + times r b ys
unfolding times
times-append r b [] ys = omega arith
times-append r b (x ∷ xs) ys = omega (arith, times-append r b xs ys)

schedule-seen :
    (slot : ℕ → Text → SlotReply) (r : ℕ) (b : Text) (id : ℕ) (branch : Text) (pass : RetryPass)
    → is_seen r b (schedule slot id branch pass).seen_targets
      ≡ (is_target r b id branch || is_seen r b pass.seen_targets)
unfolding schedule is_seen
schedule-seen slot r b id branch pass = elim (Bool-cases (may_go_on (slot id branch))) [
  | inl e ↦ rw e refl
  | inr n ↦ rw n refl
]

schedule-queued :
    (slot : ℕ → Text → SlotReply) (r : ℕ) (b : Text) (id : ℕ) (branch : Text) (pass : RetryPass)
    → times r b (schedule slot id branch pass).queued
      ≡ times r b pass.queued
        + (if is_target r b id branch && may_go_on (slot id branch) then 1 else 0)
unfolding schedule
schedule-queued slot r b id branch pass = elim (Bool-cases (may_go_on (slot id branch))) [
  | inl e ↦
      rw e (unfold times in ground (arith, times-append r b pass.queued (rerun id branch ∷ [])))
  | inr n ↦ rw n (ground arith)
]

-- What one candidate does to one target.
abbrev Step : (ℕ → Text → SlotReply) → ℕ → Text → Bool → RetryPass → RetryPass → Type 0
Step slot r b due before after =
    (is_seen r b after.seen_targets ≡ (due || is_seen r b before.seen_targets))
    × (times r b after.queued
        ≡ times r b before.queued
          + (if due && not (is_seen r b before.seen_targets) && may_go_on (slot r b) then 1 else 0))

is_target-ap :
    {A : Type 0} (f : ℕ → Text → A) (r : ℕ) (b : Text) (id : ℕ) (branch : Text)
    → is_target r b id branch ≡ true
    → f id branch ≡ f r b
is_target-ap f r b id branch e =
    let p : id ≡ r = ==→eq id r (ground arith) in
    let q : branch ≡ b = text_eq→eq branch b (ground arith) in λ i. f (p i) (q i)

schedule-Step :
    (slot : ℕ → Text → SlotReply) (r : ℕ) (b : Text) (id : ℕ) (branch : Text) (pass : RetryPass)
    → is_seen id branch pass.seen_targets ≡ false
    → Step slot r b (is_target r b id branch) pass (schedule slot id branch pass)
schedule-Step slot r b id branch pass n = elim (Bool-cases (is_target r b id branch)) [
  | inl e ↦ (
    schedule-seen slot r b id branch pass,
    ground (
      arith,
      e,
      n,
      schedule-queued slot r b id branch pass,
      is_target-ap (λ (i : ℕ) (t : Text). is_seen i t pass.seen_targets) r b id branch e,
      is_target-ap (λ (i : ℕ) (t : Text). may_go_on (slot i t)) r b id branch e,
    ),
  )
  | inr m ↦ (
    schedule-seen slot r b id branch pass,
    ground (arith, schedule-queued slot r b id branch pass, m),
  )
]

already-Step :
    (slot : ℕ → Text → SlotReply) (r : ℕ) (b : Text) (id : ℕ) (branch : Text) (pass : RetryPass)
    → is_seen id branch pass.seen_targets ≡ true
    → Step slot r b (is_target r b id branch) pass pass
already-Step slot r b id branch pass s = elim (Bool-cases (is_target r b id branch)) [
  | inl e ↦
      let same : is_seen r b pass.seen_targets ≡ true =
        subst (λ x. x ≡ true)
          (is_target-ap (λ (i : ℕ) (t : Text). is_seen i t pass.seen_targets) r b id branch e) s in
      (ground (arith, e, same), ground (arith, e, same))
  | inr m ↦ (ground (arith, m), ground (arith, m))
]

retry_candidate-Step :
    (slot : ℕ → Text → SlotReply) (r : ℕ) (b : Text) (scans : List WorkflowScan)
    → (candidate : WorkflowScan × Repository) (pass : RetryPass)
    → Step slot r b (is_due scans r b candidate) pass (retry_candidate slot scans candidate pass)
unfolding retry_candidate is_due
retry_candidate-Step slot r b scans (scan, repo) pass =
    let branch = retry_branch scan repo in
    elim (Bool-cases (is_exhausted scans scan)) [
      | inl e ↦ rw e (refl, omega arith)
      | inr n ↦ rw n (elim (Bool-cases (is_seen repo.id branch pass.seen_targets)) [
        | inl s ↦ rw s (already-Step slot r b repo.id branch pass s)
        | inr m ↦ rw m (schedule-Step slot r b repo.id branch pass m)
      ])
    ]

-- What a list of candidates does to one target.
retry_candidates-times :
    (slot : ℕ → Text → SlotReply) (r : ℕ) (b : Text) (scans : List WorkflowScan)
    → (found : List (WorkflowScan × Repository)) (pass : RetryPass)
    → times r b (retry_candidates slot scans found pass).queued
      ≡ times r b pass.queued
        + (if any (is_due scans r b) found
              && not (is_seen r b pass.seen_targets)
              && may_go_on (slot r b)
            then 1
            else 0)
unfolding retry_candidates
retry_candidates-times slot r b scans [] pass = omega arith
retry_candidates-times slot r b scans (candidate ∷ found) pass =
    let (s, t) = retry_candidate-Step slot r b scans candidate pass in
    let ih =
      retry_candidates-times slot r b scans found (retry_candidate slot scans candidate pass) in
    ground (arith, s, t, ih)

-- A branch is queued once where a candidate of it is due and its slot is free, and otherwise not at all.
pub times-retry_transient_analyses :
    (slot : ℕ → Text → SlotReply) (now : ℕ) (repos : List Repository) (scans : List WorkflowScan)
    → (r : ℕ) (b : Text)
    → times r b (retry_transient_analyses slot now repos scans).queued ≡ (
        if any (is_due scans r b) (candidates (retry_cutoff now) repos scans)
          && may_go_on (slot r b)
        then 1
        else 0)
unfolding retry_transient_analyses is_seen times
times-retry_transient_analyses slot now repos scans r b = ground (
  arith,
  retry_candidates-times slot r b scans (candidates (retry_cutoff now) repos scans)
      (record { seen_targets = []; queued = []; scheduled = 0; skipped_exhausted = 0 }),
)

-- A row of the table whose failure is to be run again, with its repository.
pub record Retryable (cutoff : ℕ) (repos : List Repository) (scans : List WorkflowScan)
    (scan : WorkflowScan) (repo : Repository) : Type 0 where
  pub stored : Memᴰ scan scans
  pub found : first (λ row. row.id == scan.repo_id && row.enabled) repos ≡ some repo
  pub failed : is_transient_failure scan ≡ true
  pub recent : is_since cutoff scan.completed_at ≡ true
  pub few : attempts scans scan < 3

mem-candidate_of :
    (cutoff : ℕ) (repos : List Repository) (scan : WorkflowScan) (repo : Repository)
    → first (λ row. row.id == scan.repo_id && row.enabled) repos ≡ some repo
    → is_transient_failure scan ≡ true
    → is_since cutoff scan.completed_at ≡ true
    → Memᴰ (scan, repo) (candidate_of cutoff repos scan)
unfolding candidate_of
mem-candidate_of cutoff repos scan repo f t c =
    let e : candidate_of cutoff repos scan ≡ (scan, repo) ∷ [] = ground (arith, f, t, c) in
    subst (Memᴰ (scan, repo)) (sym e) (Memᴰ.head refl)

mem-candidates :
    (cutoff : ℕ) (repos : List Repository) (scan : WorkflowScan) (repo : Repository)
    → (scans : List WorkflowScan) → Memᴰ (scan, repo) (candidate_of cutoff repos scan)
    → Memᴰ scan scans
    → Memᴰ (scan, repo) (candidates cutoff repos scans)
unfolding candidates
mem-candidates cutoff repos scan repo [] c m = elim m [ ]
mem-candidates cutoff repos scan repo (x ∷ scans) c (Memᴰ.head e) =
    (mem-append (candidate_of cutoff repos x) (candidates cutoff repos scans)).1
      (inl (subst (λ y. Memᴰ (scan, repo) (candidate_of cutoff repos y)) e c))
mem-candidates cutoff repos scan repo (x ∷ scans) c (Memᴰ.tail m) =
    (mem-append (candidate_of cutoff repos x) (candidates cutoff repos scans)).1
      (inr (mem-candidates cutoff repos scan repo scans c m))

few-is_due :
    (scans : List WorkflowScan) (scan : WorkflowScan) (repo : Repository)
    → attempts scans scan < 3
    → is_due scans repo.id (retry_branch scan repo) (scan, repo) ≡ true
unfolding is_due is_exhausted
few-is_due scans scan repo few = ground (arith, few, text_eq_refl (retry_branch scan repo))

-- Every retryable failure is run again: the pass queues its branch, once, unless Redis holds the
-- branch's slot.
pub retried :
    (slot : ℕ → Text → SlotReply) (now : ℕ) (repos : List Repository) (scans : List WorkflowScan)
    → (scan : WorkflowScan) (repo : Repository) → Retryable (retry_cutoff now) repos scans scan repo
    → may_go_on (slot repo.id (retry_branch scan repo)) ≡ true
    → times repo.id (retry_branch scan repo) (retry_transient_analyses slot now repos scans).queued
      ≡ 1
retried slot now repos scans scan repo h free =
    let m =
      mem-candidates (retry_cutoff now) repos scan repo scans
        (mem-candidate_of (retry_cutoff now) repos scan repo h.found h.failed h.recent) h.stored in
    ground (
      arith,
      free,
      times-retry_transient_analyses slot now repos scans repo.id (retry_branch scan repo),
      mem-any (is_due scans repo.id (retry_branch scan repo)) _ m
          (few-is_due scans scan repo h.few),
    )
