-- ===== src/Subsidy/Store.antt =====
-- What GasSubsidyService keeps and is given, and the period of a cap: calculatePeriod of
-- apps/api-service/src/gas-subsidy/services/gas-subsidy.service.ts.
use gas_guard.Prelude.{ℕ, ◌+◌, ◌-◌, ◌*◌, ◌%◌, String, Bool}
use gas_guard.Numbers.{Arithmetic}
use gas_guard.Calendar.{Months, day_length, day_of, week_day, day_end}
use gas_guard.Exec.{Exec}
use gas_guard.Storage.Repository.{Repository}
use gas_guard.Storage.Ordered.{Ordered}
use gas_guard.Subsidy.Entity.{
  SubsidyCapType, daily, weekly, monthly, lifetime, GasSubsidyCap, GasSubsidyUsageLog,
  GasSubsidyAlert, SuspiciousUsageFlag, stored_cap, stored_log, stored_alert, stored_flag, cap_id,
  log_id, alert_id, flag_id,
}

-- The four tables, the months, what a decimal column keeps, and the order of two of its texts.
pub record Setting : Type 1 where
  pub ar : Arithmetic
  pub months : Months
  pub column : ℕ → Arithmetic.Number ar → Arithmetic.Number ar
  -- `a <= b` where both are texts of a decimal column
  pub text_le : Arithmetic.Number ar → Arithmetic.Number ar → Bool
  pub caps : Repository (GasSubsidyCap (Arithmetic.Number ar)) cap_id (stored_cap column)
  pub caps_ordered : Ordered caps
  pub logs : Repository (GasSubsidyUsageLog (Arithmetic.Number ar)) log_id (stored_log column)
  pub logs_ordered : Ordered logs
  pub alerts : Repository (GasSubsidyAlert (Arithmetic.Number ar)) alert_id (stored_alert column)
  pub alerts_ordered : Ordered alerts
  pub flags : Repository SuspiciousUsageFlag flag_id stored_flag
  pub flags_ordered : Ordered flags

module _ (g : Setting) where
  pub record Store : Type 0 where
    pub caps : Repository.Db g.caps
    pub logs : Repository.Db g.logs
    pub alerts : Repository.Db g.alerts
    pub flags : Repository.Db g.flags

  -- An `Error` with its text.
  abbrev pub Action : Type 0 → Type 0
  Action A = Exec String Store A

-- The end of a period that starts now. `setDate` and `setMonth` carry a day that the month does not
-- have over into the next month.
module _ (months : Months) where
  open months use {month_of, first_day}

  -- The day of the month, counted from 0.
  abbrev pub day_in_month : ℕ → ℕ
  day_in_month d = d - first_day (month_of d)

  -- `setMonth(getMonth() + n)`: the day.
  abbrev pub months_later : ℕ → ℕ → ℕ
  months_later n d = first_day (month_of d + n) + day_in_month d

  unfoldable pub period_end : SubsidyCapType → ℕ → ℕ
  period_end daily now = (day_of now + 1) * day_length
  period_end weekly now = day_end (day_of now + (7 - week_day now))
  period_end monthly now = day_end (first_day (month_of (months_later 1 (day_of now))) - 1)
  period_end lifetime now = months_later 1200 (day_of now) * day_length + now % day_length
