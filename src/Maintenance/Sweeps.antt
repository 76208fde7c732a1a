-- ===== src/Maintenance/Sweeps.antt =====
-- What a sweep does to the tables.
use greensecops.Maintenance.{StuckRow, is_stuck, status_column, sweep_rows, value}
use greensecops.Common.{
  sym, Bool, Bool-cases, List, [], ap, arith, false, if◌then◌else◌, inl, inr, refl, some, true, ℕ,
  ◌+◌, ◌∙◌, ◌∷◌, ◌≡◌,
}
use greensecops.StateMachines.Base.{Engine, Machine, advance, next_state, ok}

stuck-in_transit :
    {S : Type 0} (in_transit : S → Bool) (cutoff : ℕ) (row : StuckRow S)
    → is_stuck in_transit cutoff row ≡ true
    → in_transit row.status ≡ true
unfolding is_stuck
stuck-in_transit in_transit cutoff row h = ground arith

-- What becomes of a table whose rows fail where a test selects them.
module _ {S : Type 0} (timed_out : StuckRow S → Bool) (fail : StuckRow S → StuckRow S) where
  unfoldable pub settle_all : List (StuckRow S) → List (StuckRow S)
  settle_all [] = []
  settle_all (row ∷ rows) = (if timed_out row then fail row else row) ∷ settle_all rows

  unfoldable pub stuck_count : List (StuckRow S) → ℕ
  stuck_count [] = 0
  stuck_count (row ∷ rows) = let rest = stuck_count rows in if timed_out row then rest + 1 else rest

  pub settle_twice :
      ((row : StuckRow S) → timed_out (fail row) ≡ false)
      → (rows : List (StuckRow S))
      → (settle_all (settle_all rows) ≡ settle_all rows) × (stuck_count (settle_all rows) ≡ 0)
  unfolding settle_all stuck_count
  settle_twice out [] = (refl, refl)
  settle_twice out (row ∷ rows) =
      let (same, none_left) = settle_twice out rows in
      elim (Bool-cases (timed_out row)) [
        | inl stuck ↦ rw stuck (rw (out row) (ap (λ rs. fail row ∷ rs) same, none_left))
        | inr free ↦ rw free (rw free (ap (λ rs. row ∷ rs) same, none_left))
      ]

module _ {S E : Type 0} {d : Discrete S} (engine : Engine d) (machine : Machine S E) (swept : E)
    (in_transit : S → Bool) (failed : S) (cutoff : ℕ) (change : StuckRow S → StuckRow S)
    (legal : (s : S) → in_transit s ≡ true → next_state d machine swept s ≡ some failed)
    (timed_out : StuckRow S → Bool)
    (same : (row : StuckRow S) → is_stuck in_transit cutoff row ≡ timed_out row) where
  advance-swept :
      (row : StuckRow S)
      → in_transit row.status ≡ true
      → advance engine machine status_column row swept
        ≡ (record row { status = failed }, ok (value failed))
  unfolding advance next_state
  advance-swept row h =
      ground (arith, engine.send_lem (machine.transitions swept) row.status, legal row.status h)

  pub sweep_rows_lem :
      (rows : List (StuckRow S))
      → sweep_rows engine machine swept in_transit cutoff change rows
        ≡ ok (
          settle_all timed_out (λ row. change (record row { status = failed })) rows,
          stuck_count timed_out (λ row. change (record row { status = failed })) rows,
        )
  unfolding sweep_rows settle_all stuck_count
  sweep_rows_lem [] = refl
  sweep_rows_lem (row ∷ rows) = elim (Bool-cases (is_stuck in_transit cutoff row)) [
    | inl stuck ↦
        let selected : timed_out row ≡ true = sym (same row) ∙ stuck in
        rw
          (
            stuck,
            selected,
            sweep_rows_lem rows,
            advance-swept row (stuck-in_transit in_transit cutoff row stuck),
          )
          refl
    | inr free ↦
        let kept : timed_out row ≡ false = sym (same row) ∙ free in
        rw (free, kept, sweep_rows_lem rows) (ground arith)
  ]
