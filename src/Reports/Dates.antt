-- ===== src/Reports/Dates.antt =====
-- The periods of reports: getPreviousWeekStart, getPreviousWeekEnd, getPreviousMonthStart and
-- getPreviousMonthEnd of apps/api-service/src/reports/services/scheduling.service.ts.
use gas_guard.Prelude.{
  ℕ, suc, ◌+◌, ◌-◌, ◌*◌, ◌%◌, ◌≤◌, ◌<◌, ◌≡◌, ◌==◌, ltb, Bool-cases, inl, inr, arith, if◌then◌else◌,
}
use gas_guard.Calendar.{Months, day_length, day_of, week_day, day_end}

-- The days since Monday: `-dayOfWeek + (dayOfWeek === 0 ? -6 : 1)`, with its sign changed.
abbrev pub since_monday : ℕ → ℕ
since_monday now = if week_day now == 0 then 6 else week_day now - 1

unfoldable pub previous_week_start : ℕ → ℕ
previous_week_start now = (day_of now - (since_monday now + 7)) * day_length

unfoldable pub previous_week_end : ℕ → ℕ
unfolding previous_week_start
previous_week_end now = day_end (day_of (previous_week_start now) + 6)

since_monday_lem : (now : ℕ) → (since_monday now ≤ 6) × ((since_monday now + 1) % 7 ≡ week_day now)
since_monday_lem now = elim (Bool-cases (week_day now == 0)) [
  | inl sunday ↦ rw sunday (omega arith, ground arith)
  | inr other ↦ rw other (omega arith, ground arith)
]

-- The week before the one of day `d`, which is `k` days after a Monday.
week_before :
    (now k : ℕ)
    → 13 ≤ day_of now
    → k ≤ 6
    → (k + 1) % 7 ≡ week_day now
    → (week_day ((day_of now - (k + 7)) * day_length) ≡ 1)
      × (day_end (day_of ((day_of now - (k + 7)) * day_length) + 6) + 1
          ≡ (day_of now - (k + 7)) * day_length + 7 * day_length)
      × (day_end (day_of ((day_of now - (k + 7)) * day_length) + 6) < now)
      × (now ≤ day_end (day_of ((day_of now - (k + 7)) * day_length) + 6) + 7 * day_length)
week_before now k late l h = omega arith

-- The previous week is a week: it begins with a Monday and ends with the last millisecond of the Sunday after it, and
-- now is in the week that follows. Times are after the 13th of January 1970.
pub previous_week_lem :
    (now : ℕ)
    → 13 ≤ day_of now
    → (week_day (previous_week_start now) ≡ 1)
      × (previous_week_end now + 1 ≡ previous_week_start now + 7 * day_length)
      × (previous_week_end now < now)
      × (now ≤ previous_week_end now + 7 * day_length)
unfolding previous_week_end
previous_week_lem now late =
    week_before now (since_monday now) late (since_monday_lem now).0 (since_monday_lem now).1

module _ (months : Months) where
  open months use {month_of, first_day, first_day-le, lt-first_day, first_day_mono, month_of-zero}

  unfoldable pub previous_month_start : ℕ → ℕ
  previous_month_start now = first_day (month_of (day_of now) - 1) * day_length

  unfoldable pub previous_month_end : ℕ → ℕ
  previous_month_end now = day_end (first_day (month_of (day_of now)) - 1)

  -- A day from the first of a month up to the next first is of that month.
  month_of_unique : (m d : ℕ) → first_day m ≤ d → d < first_day (suc m) → month_of d ≡ m
  month_of_unique m d l h = elim (Bool-cases (ltb (month_of d) m)) [
    | inl before ↦
        let le : suc (month_of d) ≤ m = ground arith in
        absurd (omega (arith, lt-first_day d, first_day_mono (suc (month_of d)) m le))
    | inr from ↦ elim (Bool-cases (ltb m (month_of d))) [
      | inl after ↦
          let le : suc m ≤ month_of d = ground arith in
          absurd (omega (arith, first_day-le d, first_day_mono (suc m) (month_of d) le))
      | inr same ↦ ground arith
    ]
  ]

  -- Only the first month begins on day 0.
  first_day_pos : (m : ℕ) → 0 < m → 0 < first_day m
  first_day_pos m p =
      let first : 0 < first_day (suc (month_of 0)) = lt-first_day 0 in
      omega (arith, rw month_of-zero at first, first_day_mono 1 m p)

  -- The previous month is a month: the times from its start to its end are those of the month before the one of now.
  pub previous_month_lem :
      (now t : ℕ)
      → 0 < month_of (day_of now)
      → previous_month_start now ≤ t
      → t ≤ previous_month_end now
      → month_of (day_of t) + 1 ≡ month_of (day_of now)
  unfolding previous_month_start previous_month_end
  previous_month_lem now t m l h =
      let before : ℕ = month_of (day_of now) - 1 in
      let next : suc before ≡ month_of (day_of now) = omega arith in
      let start : first_day before ≤ day_of t = omega arith in
      let end : day_of t < first_day (suc before) =
        rw next (omega (arith, first_day_pos (month_of (day_of now)) m)) in
      omega (arith, month_of_unique before (day_of t) start end)
