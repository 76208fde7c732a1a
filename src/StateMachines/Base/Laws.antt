-- ===== src/StateMachines/Base/Laws.antt =====
-- What `advance`, `try_advance` and `force_to` do on every branch.
use Prim.Native.String.{String}
use greensecops.Common.{◌↔◌, ◌≡◌, ◌⊎◌, inl, inr, refl, Bool, true, false, arith}
use greensecops.StateMachines.Base.Defs.{
  Machine, Column, null, unknown, value, Field, Engine, Error, invalid_state_value, Result, ok,
  raise, advance, try_advance,
}

column_cases :
    {S : Type 0} (c : Column S)
    → ((c ≡ null) ⊎ ((v : String) × (c ≡ unknown v))) ⊎ ((s : S) × (c ≡ value s))
column_cases null = inl (inl refl)
column_cases (unknown v) = inl (inr (v, refl))
column_cases (value s) = inr (s, refl)

abbrev pub succeeds : {A : Type 0} → Result A → Bool
succeeds (ok _) = true
succeeds (raise _) = false

module _ {M S E : Type 0} {d : Discrete S} (engine : Engine d) (machine : Machine S E)
    (field : Field M S) where
  -- `try_advance` leaves the model exactly as `advance` does, reports true exactly when `advance`
  -- returns, and `advance` returns the state that the model then has.
  pub try_advance-advance :
      (model : M) (event : E)
      → let (after, result) = advance engine machine field model event in
        (try_advance engine machine field model event ≡ (after, succeeds result))
        × ((s : Column S) → result ≡ ok s → s ≡ field.get after)
  unfolding advance try_advance
  try_advance-advance model event = ground (arith, field.get-set)

  -- A refused event leaves the model as it was, and the error tells a column that is no state of the
  -- machine (`InvalidStateValue`) from a NULL column and from an illegal event (`IllegalTransition`).
  pub advance-raise :
      (model : M) (event : E) (e : Error)
      → (advance engine machine field model event).1 ≡ raise e
      → ((advance engine machine field model event).0 ≡ model)
        × ((e ≡ invalid_state_value) ↔ ((v : String) × (field.get model ≡ unknown v)))
  unfolding advance
  advance-raise model event e h = elim (column_cases (field.get model)) [
    | inl (inl n) ↦ ground (arith, n)
    | inl (inr (v, u)) ↦ ground (arith, u)
    | inr (s, known) ↦ ground (arith, known)
  ]
