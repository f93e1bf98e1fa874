-- ===== src/Calendar.antt =====
-- The calendar of JavaScript's `Date`, in UTC: a time is its milliseconds since 1970, a day the number of
-- days since then. The lengths of the months are a parameter.
use gas_guard.Prelude.{ℕ, suc, ◌+◌, ◌-◌, ◌*◌, ◌/◌, ◌%◌, ◌≤◌, ◌<◌, arith, ◌≡◌, refl}

abbrev pub day_length : ℕ
day_length = 24 * 60 * 60 * 1000

abbrev pub day_of : ℕ → ℕ
day_of t = t / day_length

-- The day of the week, from Sunday, 0; the first of January 1970 was a Thursday.
abbrev pub week_day : ℕ → ℕ
week_day t = (day_of t + 4) % 7

-- The last millisecond of a day.
abbrev pub day_end : ℕ → ℕ
day_end d = d * day_length + (day_length - 1)

pub record Months : Type 0 where
  -- the month of a day, counted from January 1970, and the first day of a month
  pub month_of : ℕ → ℕ
  pub first_day : ℕ → ℕ
  pub month_of-zero : month_of 0 ≡ 0
  pub first_day-le : (d : ℕ) → first_day (month_of d) ≤ d
  pub lt-first_day : (d : ℕ) → d < first_day (suc (month_of d))
  pub first_day_mono : (m n : ℕ) → m ≤ n → first_day m ≤ first_day n

-- Months of thirty days, for the examples.
pub thirty-le : (d : ℕ) → d / 30 * 30 ≤ d
thirty-le d = omega arith

pub lt-thirty : (d : ℕ) → d < suc (d / 30) * 30
lt-thirty d = omega arith

abbrev pub thirty_days : Months
thirty_days = record {
  month_of = λ d. d / 30;
  first_day = λ m. m * 30;
  month_of-zero = refl;
  first_day-le = thirty-le;
  lt-first_day = lt-thirty;
  first_day_mono = λ m n h. omega arith;
}
