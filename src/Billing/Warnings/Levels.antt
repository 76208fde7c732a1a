-- ===== src/Billing/Warnings/Levels.antt =====
-- When a warning is due, and how often.
use greensecops.Billing.Plans.{PlanLimits, get}
use greensecops.Billing.Warnings.{Meter, Warning, first_warning, highest_crossed, warn_at}
use native.Mathlib.Nat.{le-div_iff_mul-le}
use greensecops.Common.{
  All, List, Memᴰ, Option, Option-cases, [], arith, inl, inr, lt_cases, none, refl, some, ℕ, ◌*◌,
  ◌/◌, ◌<◌, ◌∙◌, ◌∷◌, ◌≡◌, ◌≤◌, ◌⊎◌,
}

-- A meter has come up to a percentage of its limit.
abbrev pub Crosses : ℕ → ℕ → ℕ → Type 0
Crosses used limit percent = percent * limit ≤ used * 100

-- What makes a warning of one meter due.
abbrev pub IsRaised : ℕ → ℕ → ℕ → ℕ → Type 0
IsRaised level used limit highest =
    (0 < limit)
    × (level < highest)
    × Crosses used limit highest
    × ((highest ≡ 100) ⊎ ((highest ≡ 80) × (used * 100 < 100 * limit)))

-- No threshold above the level is crossed.
abbrev pub IsQuiet : ℕ → ℕ → ℕ → Type 0
IsQuiet level used limit =
    (Crosses used limit 80 → 80 ≤ level) × (Crosses used limit 100 → 100 ≤ level)

module _ (level : ℕ) (meter : Meter) (used limit : ℕ) where
  warn_at-zero : limit ≡ 0 → warn_at level meter used (some limit) ≡ none
  warn_at-zero h = ground arith

  crossed_cases :
      0 < limit
      → ((highest_crossed (used * 100 / limit) ≡ some 100) × Crosses used limit 100)
        ⊎ ((highest_crossed (used * 100 / limit) ≡ some 80)
            × Crosses used limit 80
            × (used * 100 < 100 * limit))
        ⊎ ((highest_crossed (used * 100 / limit) ≡ none) × (used * 100 < 80 * limit))
  unfolding highest_crossed
  crossed_cases h = ground (
    arith,
    le-div_iff_mul-le {k = limit} {x = 100} {y = used * 100} h,
    le-div_iff_mul-le {k = limit} {x = 80} {y = used * 100} h,
  )

  warn_at-some :
      (w : Warning)
      → 0 < limit
      → warn_at level meter used (some limit) ≡ some w
      → (w.meter ≡ meter)
        × (w.used ≡ used)
        × (w.limit ≡ limit)
        × IsRaised level used limit w.highest
  warn_at-some w h e = elim (crossed_cases h) [
    | inl (top, c) ↦ ground (arith, top, c)
    | inr (inl (low, c, d)) ↦ ground (arith, low, c, d)
    | inr (inr (far, c)) ↦ ground (arith, far, c)
  ]

  warn_at-none : 0 < limit → warn_at level meter used (some limit) ≡ none → IsQuiet level used limit
  warn_at-none h e = elim (crossed_cases h) [
    | inl (top, c) ↦ ground (arith, top, c)
    | inr (inl (low, c, d)) ↦ ground (arith, low, c, d)
    | inr (inr (far, c)) ↦ ground (arith, far, c)
  ]

-- What a warning says of the meters that were read.
pub record IsDue (limits : PlanLimits) (level : ℕ) (us : List (Meter × ℕ)) (w : Warning)
    : Type 0 where
  pub listed : Memᴰ (w.meter, w.used) us
  pub limited : get limits w.meter ≡ some w.limit
  pub raised : IsRaised level w.used w.limit w.highest

abbrev pub Quiet : PlanLimits → ℕ → (Meter × ℕ) → Type 0
Quiet limits level (meter, used) =
    (limit : ℕ) → get limits meter ≡ some limit → 0 < limit → IsQuiet level used limit

warn_at-limits :
    (limits : PlanLimits) (level : ℕ) (meter : Meter) (used : ℕ) (w : Warning) (o : Option ℕ)
    → get limits meter ≡ o
    → warn_at level meter used o ≡ some w
    → (limit : ℕ) × (get limits meter ≡ some limit)
      × (w.meter ≡ meter)
      × (w.used ≡ used)
      × (w.limit ≡ limit)
      × IsRaised level used limit w.highest
warn_at-limits limits level meter used w none g e = cc
warn_at-limits limits level meter used w (some limit) g e = elim (lt_cases 0 limit) [
  | inl pos ↦
      let (a, b, c, d) = warn_at-some level meter used limit w pos e in (limit, g, a, b, c, d)
  | inr zero' ↦
      let nothing : none ≡ some w = rw⁻¹ (warn_at-zero level meter used limit (omega arith)) e in cc
]

IsDue-head :
    (limits : PlanLimits) (level : ℕ) (meter : Meter) (used : ℕ) (us : List (Meter × ℕ))
    (w : Warning)
    → warn_at level meter used (get limits meter) ≡ some w
    → IsDue limits level ((meter, used) ∷ us) w
IsDue-head limits level meter used us w e =
    let (limit, g, m, u, l, raised) =
      warn_at-limits limits level meter used w (get limits meter) refl e in
    record { listed = Memᴰ.head (rw (m, u) refl); limited = rw (m, l) g; raised = rw (u, l) raised }

IsDue-tail :
    (limits : PlanLimits) (level : ℕ) (u : Meter × ℕ) (us : List (Meter × ℕ)) (w : Warning)
    → IsDue limits level us w
    → IsDue limits level (u ∷ us) w
IsDue-tail limits level u us w d = record {
  listed = Memᴰ.tail d.listed;
  limited = d.limited;
  raised = d.raised;
}

-- A warning is sent for a meter that is read, whose limit is positive and whose use has come up to 80
-- or 100 percent of it, to the higher of these where it has come up to both, and only above the level
-- that was recorded. None is sent only where every meter with a positive limit is quiet: the
-- thresholds that it crosses are not above the level.
pub first_warning_lem :
    (limits : PlanLimits) (level : ℕ) (us : List (Meter × ℕ))
    → ((w : Warning) → first_warning limits level us ≡ some w → IsDue limits level us w)
      × (first_warning limits level us ≡ none → All (Quiet limits level) us)
unfolding first_warning
first_warning_lem limits level [] = ((λ w h. cc), (λ h. tt))
first_warning_lem limits level ((meter, used) ∷ us) =
    let (ih, ih') = first_warning_lem limits level us in
    elim (Option-cases (warn_at level meter used (get limits meter))) [
      | inl quiet ↦ rw quiet (
        (λ w h. IsDue-tail limits level (meter, used) us w (ih w h)),
        (λ h. ((λ limit g pos. warn_at-none level meter used limit pos (rw g at quiet)), ih' h)),
      )
      | inr (w', warned) ↦
          rw warned ((λ w h. IsDue-head limits level meter used us w (warned ∙ h)), (λ h. cc))
    ]

-- Where the level of a warning is the one that the next pass reads, no third pass has one due.
pub at_most_two :
    (limits limits' limits'' : PlanLimits) (level : ℕ) (us us' us'' : List (Meter × ℕ))
    (w w' : Warning)
    → first_warning limits level us ≡ some w
    → first_warning limits' w.highest us' ≡ some w'
    → first_warning limits'' w'.highest us'' ≡ none
at_most_two limits limits' limits'' level us us' us'' w w' h h' =
    elim (Option-cases (first_warning limits'' w'.highest us'')) [
      | inl quiet ↦ quiet
      | inr (w'', h'') ↦
          let a = ((first_warning_lem limits level us).0 w h).raised in
          let b = ((first_warning_lem limits' w.highest us').0 w' h').raised in
          let c = ((first_warning_lem limits'' w'.highest us'').0 w'' h'').raised in
          absurd (omega (arith, a, b, c))
    ]
