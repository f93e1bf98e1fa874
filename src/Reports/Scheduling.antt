-- ===== src/Reports/Scheduling.antt =====
-- The scheduled reports: handleWeeklyReportSchedule, handleMonthlyReportSchedule and
-- processScheduledReport of apps/api-service/src/reports/services/scheduling.service.ts.
use gas_guard.Prelude.{
  ℕ, ◌+◌, ◌*◌, ◌/◌, ◌%◌, String, str_eq, str_append, ◌==◌, Bool, true, false, not, ◌||◌, Option,
  none, some, List, [], ◌∷◌, ltb, if◌then◌else◌,
}
use gas_guard.Exec.{Outcome, ok, throw}
use gas_guard.Calendar.{Months, day_of, week_day}
use gas_guard.Storage.Repository.{Repository}
use gas_guard.Reports.Dates.{
  previous_week_start, previous_week_end, previous_month_start, previous_month_end,
}
use gas_guard.Reports.Report.{
  Period, weekly, monthly, pending, processing, completed, failed, scheduled, Report, Merchant,
  Setting, Store, send_gas_report_email, send_failure_notification,
}

module _ (g : Setting) where
  abbrev pub start_of : Period → ℕ → ℕ
  start_of weekly now = previous_week_start now
  start_of monthly now = previous_month_start g.months now

  abbrev pub end_of : Period → ℕ → ℕ
  end_of weekly now = previous_week_end now
  end_of monthly now = previous_month_end g.months now

  abbrev pub new_report : Period → ℕ → String → String → Report g.Data
  new_report period now id merchant_id = record {
    id = id;
    kind = scheduled;
    period = period;
    merchant_id = merchant_id;
    status = pending;
    report_url = none;
    report_data = none;
    start_date = start_of period now;
    end_date = end_of period now;
    created_at = now;
    updated_at = now;
    scheduled_at = some now;
    sent_at = none;
  }

  abbrev pub update_report : ℕ → String → (Report g.Data → Report g.Data) → Store g → Store g
  update_report now id f s = record s { reports = Repository.update g.reports now id f s.reports }

  abbrev pub set_failed : Report g.Data → Report g.Data
  set_failed r = record r { status = failed }

  abbrev pub set_completed : ℕ → Report g.Data → Report g.Data
  set_completed now r = record r { status = completed; sent_at = some now }

  abbrev pub set_processing : Report g.Data → Report g.Data
  set_processing r = record r { status = processing }

  abbrev pub set_file : String → g.Data → Report g.Data → Report g.Data
  set_file url usage r = record r { report_url = some url; report_data = some usage }

  -- The usage of the merchant and the file: what was made, or the error's message.
  abbrev file_of : Outcome String String → g.Data → Outcome String (g.Data × String)
  file_of (ok url) usage = ok (usage, url)
  file_of (throw message) usage = throw message

  abbrev made_of : Outcome String g.Data → String → Outcome String (g.Data × String)
  made_of (ok usage) file = file_of (g.generate_csv usage file) usage
  made_of (throw message) file = throw message

  abbrev pub make_file : String → Period → ℕ → String → Outcome String (g.Data × String)
  make_file file period now merchant_id = made_of (g.gather period now merchant_id) file

  abbrev pub period_name : Period → String
  period_name weekly = "weekly"
  period_name monthly = "monthly"

  abbrev pub named_for : String → String → ℕ → String
  named_for start_of_name merchant_id start =
      str_append start_of_name
        (str_append merchant_id (str_append "-" (str_append (g.date_of start) ".csv")))

  unfoldable pub make : Period → ℕ → String → ℕ → Outcome String (g.Data × String)
  make period now merchant_id start =
      make_file (named_for (str_append (period_name period) "-gas-report-") merchant_id start)
        period now merchant_id

  -- `if (emailSent)` and its two branches
  abbrev pub after_email : ℕ → String → String → String → Bool × Store g → Store g
  after_email now id to name (true, s) = update_report now id (set_completed now) s
  after_email now id to name (false, s) =
      (send_failure_notification g to name "Email delivery failed"
        (update_report now id set_failed s)).1

  -- The inner `try` of a schedule.
  abbrev pub after_make :
      ℕ → String → String → String → Period → Outcome String (g.Data × String) → Store g → Store g
  after_make now id to name period (ok (usage, url)) s =
      let saved = update_report now id (λ r. set_file url usage (set_processing r)) s in
      after_email now id to name (send_gas_report_email g to name period url usage saved)
  after_make now id to name period (throw message) s =
      (send_failure_notification g to name message (update_report now id set_failed s)).1

  abbrev pub report_to : Period → ℕ → String → Merchant → String → Store g → Store g
  report_to period now id m to s =
      let saved : Store g = record s {
        reports = Repository.save g.reports now (new_report period now id m.id) s.reports;
      } in
      after_make now id to m.name period (make period now m.id (start_of period now)) saved

  abbrev pub with_email : Option String → (String → Store g → Store g) → Store g → Store g
  with_email none f s = s
  with_email (some to) f s = if str_eq to "" then s else f to s

  -- One turn of the loop; the merchant is skipped without an email.
  unfoldable pub report_for : Period → ℕ → String → Merchant → Store g → Store g
  report_for period now id m = with_email m.email (report_to period now id m)

  -- The loop. `ids n` is the id drawn in turn `n`.
  abbrev pub report_for_all : Period → ℕ → (ℕ → String) → ℕ → List Merchant → Store g → Store g
  report_for_all period now ids n [] s = s
  report_for_all period now ids n (m ∷ ms) s =
      report_for_all period now ids (n + 1) ms (report_for period now (ids n) m s)

  abbrev pub is_active : Merchant → Bool
  is_active m = str_eq m.status "active"

  abbrev pub hour_of : ℕ → ℕ
  hour_of now = (now / (60 * 60 * 1000)) % 24

  -- `hour < 7 || hour > 9`
  abbrev pub out_of_hours : ℕ → Bool
  out_of_hours now = ltb (hour_of now) 7 || ltb 9 (hour_of now)

  unfoldable pub handle_weekly_report_schedule : ℕ → (ℕ → String) → Store g → Store g
  handle_weekly_report_schedule now ids s =
      if not (week_day now == 1) || out_of_hours now
      then s
      else report_for_all weekly now ids 0 (Repository.find g.merchants is_active s.merchants) s

  -- `getUTCDate() !== 1`
  abbrev pub not_first : ℕ → Bool
  not_first now =
      not (day_of now == Months.first_day g.months (Months.month_of g.months (day_of now)))

  unfoldable pub handle_monthly_report_schedule : ℕ → (ℕ → String) → Store g → Store g
  handle_monthly_report_schedule now ids s =
      if not_first now || out_of_hours now
      then s
      else report_for_all monthly now ids 0 (Repository.find g.merchants is_active s.merchants) s

  abbrev pub given_email : Option String → Merchant → Option (Merchant × String)
  given_email none m = none
  given_email (some to) m = if str_eq to "" then none else some (m, to)

  -- The merchant with its email: none for `!merchant || !merchant.email`.
  abbrev pub recipient : Option Merchant → Option (Merchant × String)
  recipient none = none
  recipient (some m) = given_email m.email m

  abbrev pub recipient_of : String → Store g → Option (Merchant × String)
  recipient_of merchant_id s = recipient (Repository.find_by_id g.merchants merchant_id s.merchants)

  abbrev pub notify : Option (Merchant × String) → String → Store g → Store g
  notify none message s = s
  notify (some (m, to)) message s = (send_failure_notification g to m.name message s).1

  abbrev pub after_work :
      ℕ → Report g.Data → Merchant × String → Outcome String (g.Data × String) → Store g → Store g
  after_work now r (m, to) (ok (usage, url)) s = after_email now r.id to m.name (
      send_gas_report_email g to m.name r.period url usage
        (update_report now r.id (set_file url usage) s))
  after_work now r (m, to) (throw message) s =
      let marked = update_report now r.id set_failed s in
      notify (recipient_of r.merchant_id marked) message marked

  abbrev pub processed : ℕ → Report g.Data → Option (Merchant × String) → Store g → Store g
  processed now r none s = update_report now r.id set_failed s
  processed now r (some to) s =
      after_work now r to (make r.period now r.merchant_id r.start_date)
        (update_report now r.id set_processing s)

  unfoldable pub process_scheduled_report : ℕ → Report g.Data → Store g → Store g
  process_scheduled_report now r s = processed now r (recipient_of r.merchant_id s) s
