-- ===== src/Billing/Calendar/Months.antt =====
-- The walk over the months.
use greensecops.Common.{
  inr, inl, lt_cases, le→ltb, lt→ltb, ℕ, zero, suc, ◌+◌, ◌≤◌, ◌<◌, ◌≡◌, refl, arith,
}
use greensecops.Billing.Calendar.{next_month, next_year, days_in_month, locate}

pub days_in_month_bounds :
    (year month : ℕ) → (28 ≤ days_in_month year month) × (days_in_month year month ≤ 31)
unfolding days_in_month
days_in_month_bounds year month = ground arith

module _ (fuel first year month day : ℕ) where
  abbrev after_month : ℕ × ℕ
  after_month =
      locate fuel (first + days_in_month year month) (next_year year month) (next_month month) day

  locate_here :
      day < first + days_in_month year month
      → locate (suc fuel) first year month day ≡ (first, days_in_month year month)
  unfolding locate
  locate_here h = rw (lt→ltb day (first + days_in_month year month) h)

  locate_later :
      first + days_in_month year month ≤ day → locate (suc fuel) first year month day ≡ after_month
  unfolding locate
  locate_later h = rw (le→ltb day (first + days_in_month year month) h)

-- A walk with enough fuel ends in a month that holds the day.
abbrev pub IsMonthOf : ℕ → ℕ → ℕ × ℕ → Type 0
IsMonthOf first day m = (first ≤ m.0) × (m.0 ≤ day) × (day < m.0 + m.1) × (28 ≤ m.1) × (m.1 ≤ 31)

pub locate_holds :
    (fuel first year month day : ℕ)
    → first ≤ day
    → day < first + fuel
    → IsMonthOf first day (locate fuel first year month day)
locate_holds zero first year month day h k = absurd (omega arith)
locate_holds (suc fuel) first year month day h k =
    let (short, long) = days_in_month_bounds year month in
    elim (lt_cases day (first + days_in_month year month)) [
      | inl here ↦ rw (locate_here fuel first year month day here) (omega arith)
      | inr later ↦
          let ih =
            locate_holds fuel (first + days_in_month year month) (next_year year month)
              (next_month month) day later (omega arith) in
          rw (locate_later fuel first year month day later) (omega (arith, ih))
    ]

-- Every day of a month is located in that month.
pub locate_stable :
    (fuel fuel' first year month day day' : ℕ)
    → first ≤ day
    → day < first + fuel
    → first ≤ day'
    → day' < first + fuel'
    → (locate fuel first year month day).0 ≤ day'
    → day' < (locate fuel first year month day).0 + (locate fuel first year month day).1
    → locate fuel' first year month day' ≡ locate fuel first year month day
locate_stable zero fuel' first year month day day' h k h' k' lo hi = absurd (omega arith)
locate_stable (suc fuel) zero first year month day day' h k h' k' lo hi = absurd (omega arith)
locate_stable (suc fuel) (suc fuel') first year month day day' h k h' k' lo hi =
    let (short, long) = days_in_month_bounds year month in
    elim (lt_cases day (first + days_in_month year month)) [
      | inl here ↦
          let e = locate_here fuel first year month day here in
          let hi' : day' < first + days_in_month year month = rw e at hi in
          rw (e, locate_here fuel' first year month day' hi') refl
      | inr later ↦
          let e = locate_later fuel first year month day later in
          let ih =
            locate_holds fuel (first + days_in_month year month) (next_year year month)
              (next_month month) day later (omega arith) in
          let lo' : (after_month fuel first year month day).0 ≤ day' = rw e at lo in
          let hi' : day'
              < (after_month fuel first year month day).0
                + (after_month fuel first year month day).1 =
            rw e at hi in
          let later' : first + days_in_month year month ≤ day' = omega (arith, ih) in
          rw (e, locate_later fuel' first year month day' later')
            (locate_stable fuel fuel' (first + days_in_month year month) (next_year year month)
              (next_month month) day day' later (omega arith) later' (omega arith) lo' hi')
    ]
