-- ===== src/Billing/Calendar/Windows.antt =====
-- The windows that `month_bounds` answers.
use greensecops.Common.{
  inr, ◌∙◌, ◌∙◌, sym, ap, ◌-◌, inl, lt_cases, ℕ, ◌+◌, ◌*◌, ◌/◌, ◌%◌, ◌≤◌, ◌<◌, ◌≡◌, arith,
}
use greensecops.Billing.Calendar.{day_us, month_bounds}
use greensecops.Billing.Calendar.Months.{locate_holds, locate_stable}

-- The window holds the instant, begins and ends at a midnight, and is 28 to 31 days long.
pub month_bounds_hold :
    (now : ℕ)
    → let (start, end') = month_bounds now in
      (start ≤ now)
      × (now < end')
      × (start % day_us ≡ 0)
      × (end' % day_us ≡ 0)
      × (start + 28 * day_us ≤ end')
      × (end' ≤ start + 31 * day_us)
unfolding month_bounds
month_bounds_hold now =
    omega
      (arith, locate_holds (now / day_us + 1) 0 1970 1 (now / day_us) (omega arith) (omega arith))

-- Every instant of a window has that window, so that all reads within it agree.
pub month_bounds_stable :
    (now later : ℕ)
    → (month_bounds now).0 ≤ later
    → later < (month_bounds now).1
    → month_bounds later ≡ month_bounds now
unfolding month_bounds
month_bounds_stable now later lo hi = rw (
    locate_stable (now / day_us + 1) (later / day_us + 1) 0 1970 1 (now / day_us) (later / day_us)
      (omega arith) (omega arith) (omega arith) (omega arith) (omega arith) (omega arith))

-- The next window begins where this one ends.
pub month_bounds_next : (now : ℕ) → (month_bounds (month_bounds now).1).0 ≡ (month_bounds now).1
month_bounds_next now =
    let end' = (month_bounds now).1 in
    let holds = month_bounds_hold now in
    let next = month_bounds_hold end' in
    elim (lt_cases (month_bounds end').0 end') [
      | inl before ↦
          let in_next = month_bounds_stable end' (end' - 1) (omega arith) (omega arith) in
          let in_this = month_bounds_stable now (end' - 1) (omega arith) (omega arith) in
          absurd (omega (arith, ap (λ (w : ℕ × ℕ). w.1) (sym in_next ∙ in_this)))
      | inr behind ↦ omega arith
    ]
