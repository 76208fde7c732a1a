-- ===== src/StateMachines/Base/Trace.antt =====
-- Runs of a machine: redelivered and reordered events, fired one after the other.
use greensecops.Common.{
  Option-cases, Bool-cases, sym, ◌⊎◌, inl, inr, ◌≡◌, refl, Bool, true, false, List, [], ◌∷◌, Memᴰ,
  none, some, arith,
}
use greensecops.StateMachines.Base.Defs.{Machine, value, Field, Engine, try_advance, next_state}

-- A way from one state to another along legal events.
pub data Reach {S E : Type 0} (d : Discrete S) (machine : Machine S E) (s : S) : S → Type 0 where
  here : Reach d machine s s
  after :
      {t u : S}
      → Reach d machine s t
      → (e : E) → next_state d machine e t ≡ some u
      → Reach d machine s u

-- What python-statemachine requires of a definition.
pub record IsWellFormed {S E : Type 0} (d : Discrete S) (machine : Machine S E) : Type 0 where
  pub connected : (s : S) → Reach d machine machine.initial s
  pub final_stuck : (s : S) (e : E) → machine.final s ≡ true → next_state d machine e s ≡ none
  pub live :
      (s : S) → machine.final s ≡ false → (e : E) × (t : S) × (next_state d machine e s ≡ some t)

module _ {M S E : Type 0} {d : Discrete S} (engine : Engine d) (machine : Machine S E)
    (field : Field M S) where
  -- Every event in turn, each a no-op where it is illegal.
  unfoldable pub try_all : M → List E → M
  try_all model [] = model
  try_all model (e ∷ es) = try_all (try_advance engine machine field model e).0 es

  pub try_advance-next_state :
      (model : M) (e : E) (s : S)
      → field.get model ≡ value s
      → try_advance engine machine field model e ≡ elim (next_state d machine e s) [
        | none ↦ (model, false)
        | some t ↦ (field.set t model, true)
      ]
  unfolding try_advance next_state
  try_advance-next_state model e s h = ground (arith, engine.send_lem (machine.transitions e) s)

  try_advance-stays :
      (model : M) (e : E) (s : S)
      → field.get model ≡ value s
      → (t : S) × (field.get (try_advance engine machine field model e).0 ≡ value t)
        × ((next_state d machine e s ≡ some t) ⊎ (t ≡ s))
  try_advance-stays model e s h = elim (Option-cases (next_state d machine e s)) [
    | inl refused ↦ (s, rw (try_advance-next_state model e s h) (rw refused h), inr refl)
    | inr (t, moved) ↦
        (t, rw (try_advance-next_state model e s h) (rw moved (field.get-set t model)), inl moved)
  ]

  try_all-Reach_from :
      (start : S) (model : M) (s : S) (es : List E)
      → field.get model ≡ value s
      → Reach d machine start s
      → (t : S) × (field.get (try_all model es) ≡ value t) × Reach d machine start t
  unfolding try_all
  try_all-Reach_from start model s [] h r = (s, h, r)
  try_all-Reach_from start model s (e ∷ es) h r =
      let (t, now, how) = try_advance-stays model e s h in
      try_all-Reach_from start (try_advance engine machine field model e).0 t es now (extend how)
    where
      extend : {t : S} → (next_state d machine e s ≡ some t) ⊎ (t ≡ s) → Reach d machine start t
      extend (inl moved) = after r e moved
      extend (inr same) = rw same r

  -- Whatever events arrive, a model in a state is afterwards in one that its machine reaches by
  -- legal events.
  pub try_all-Reach :
      (model : M) (s : S) (es : List E)
      → field.get model ≡ value s
      → (t : S) × (field.get (try_all model es) ≡ value t) × Reach d machine s t
  try_all-Reach model s es h = try_all-Reach_from s model s es h here

  -- A set of states that only one event enters is not reached without that event.
  pub try_all-needs_event :
      (In : S → Bool) (gate : E)
      → ((s t : S) (e : E)
          → In s ≡ false
          → next_state d machine e s ≡ some t
          → In t ≡ true
          → e ≡ gate)
      → (model : M) (s t : S) (es : List E) → field.get model ≡ value s
      → In s ≡ false
      → field.get (try_all model es) ≡ value t
      → In t ≡ true
      → Memᴰ gate es
  unfolding try_all
  try_all-needs_event In gate only model s t [] h out final inside = cc
  try_all-needs_event In gate only model s t (e ∷ es) h out final inside =
      let (u, now, how) = try_advance-stays model e s h in
      let model' = (try_advance engine machine field model e).0 in
      elim (Bool-cases (In u)) [
        | inl entered ↦ Memᴰ.head (sym (step u how entered))
        | inr still ↦
            Memᴰ.tail (try_all-needs_event In gate only model' u t es now still final inside)
      ]
    where
      step : (u : S) → (next_state d machine e s ≡ some u) ⊎ (u ≡ s) → In u ≡ true → e ≡ gate
      step u (inl moved) entered = only s u e out moved entered
      step u (inr same) entered = cc
