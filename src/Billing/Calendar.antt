-- ===== src/Billing/Calendar.antt =====
-- `month_bounds` of backend/app/services/billing/lifecycle.py, with the calendar of the standard
-- library that it reads: an instant is the microseconds since 1970 in UTC.
mod Months
pub mod Windows
use greensecops.Common.{
  ℕ, zero, suc, ◌+◌, ◌*◌, ◌/◌, ◌%◌, Bool, true, false, ◌&&◌, ◌||◌, not, if◌then◌else◌, ◌==◌, ltb,
}

-- The microseconds of a day.
abbrev pub day_us : ℕ
day_us = 86400000000

unfoldable pub is_leap : ℕ → Bool
is_leap year = year % 4 == 0 && (not (year % 100 == 0) || year % 400 == 0)

unfoldable pub days_in_month : ℕ → ℕ → ℕ
unfolding is_leap
days_in_month year month =
    if month == 2
    then (if is_leap year then 29 else 28)
    else if month == 4 || month == 6 || month == 9 || month == 11
    then 30
    else 31

-- The month behind a month.
unfoldable pub next_year : ℕ → ℕ → ℕ
next_year year month = if month == 12 then year + 1 else year

unfoldable pub next_month : ℕ → ℕ
next_month month = if month == 12 then 1 else month + 1

-- The first day and the length of the month that holds a day, counted on from a month and its first
-- day. The fuel is one more than the days between.
unfoldable pub locate : ℕ → ℕ → ℕ → ℕ → ℕ → ℕ × ℕ
unfolding days_in_month next_year next_month
locate zero first year month day = (first, 0)
locate (suc fuel) first year month day =
    let length = days_in_month year month in
    let later = locate fuel (first + length) (next_year year month) (next_month month) day in
    if ltb day (first + length) then (first, length) else later

unfoldable pub month_bounds : ℕ → ℕ × ℕ
unfolding locate
month_bounds now =
    let day = now / day_us in
    let (first, length) = locate (day + 1) 0 1970 1 day in
    (first * day_us, (first + length) * day_us)
