-- ===== src/Reports/Adhoc.antt =====
-- Reports on demand: generateAdhocReport and processReportAsync of
-- apps/api-service/src/reports/services/report.service.ts. The caller does not wait for the second.
use gas_guard.Prelude.{ℕ, String, str_append, Option, none, some}
use gas_guard.Exec.{Outcome, ok, throw, Exec, write, query, found_or, ◌>>=◌, ◌>>◌}
use gas_guard.Storage.Repository.{Repository}
use gas_guard.Reports.Report.{
  Period, adhoc, Report, Merchant, Setting, Store, send_gas_report_email,
}
use gas_guard.Reports.Scheduling.{
  new_report, make_file, named_for, period_name, update_report, set_failed, set_completed,
  set_processing, set_file, after_email, recipient, recipient_of, notify,
}

module _ (g : Setting) where
  abbrev pub adhoc_report : Period → ℕ → String → String → Report g.Data
  adhoc_report period now id merchant_id = record (new_report g period now id merchant_id) {
    kind = adhoc;
  }

  abbrev pub merchant_of : String → Store g → Option Merchant
  merchant_of id s = Repository.find_by_id g.merchants id s.merchants

  abbrev pub report_of : String → Store g → Option (Report g.Data)
  report_of id s = Repository.find_by_id g.reports id s.reports

  unfoldable pub generate_adhoc_report : ℕ → String → String → Period → Exec String (Store g) String
  generate_adhoc_report now id merchant_id period =
      (query (merchant_of merchant_id) >>= found_or "Merchant not found")
      >> write
          (λ s. record s {
            reports =
                Repository.save g.reports now (adhoc_report period now id merchant_id) s.reports;
          })
          id

  unfoldable pub make_adhoc : ℕ → Report g.Data → Outcome String (g.Data × String)
  make_adhoc now r =
      let file_start = str_append "gas-report-" (str_append (period_name g r.period) "-") in
      make_file g (named_for g file_start r.merchant_id r.start_date) r.period now r.merchant_id

  -- `if (merchant.email)`: the report is mailed, or completed without a mail.
  abbrev pub deliver :
      ℕ → String → Period → Option (Merchant × String) → g.Data × String → Store g → Store g
  deliver now id period none made s = update_report g now id (set_completed g now) s
  deliver now id period (some (m, to)) (usage, url) s =
      after_email g now id to m.name (send_gas_report_email g to m.name period url usage s)

  -- The notice of the `catch`, to the merchant of the report where both are found.
  abbrev pub notify_of : Option (Report g.Data) → String → Store g → Store g
  notify_of none message s = s
  notify_of (some r) message s = notify g (recipient_of g r.merchant_id s) message s

  abbrev pub after_adhoc :
      ℕ → String → Report g.Data → Merchant → Outcome String (g.Data × String) → Store g → Store g
  after_adhoc now id r m (ok (usage, url)) s =
      deliver now id r.period (recipient g (some m)) (usage, url)
        (update_report g now id (λ e. set_file g url usage (set_processing g e)) s)
  after_adhoc now id r m (throw message) s =
      let marked = update_report g now id (set_failed g) s in
      notify_of (report_of id marked) message marked

  abbrev pub with_report_merchant : ℕ → String → Report g.Data → Option Merchant → Store g → Store g
  with_report_merchant now id r none s = update_report g now id (set_failed g) s
  with_report_merchant now id r (some m) s = after_adhoc now id r m (make_adhoc now r) s

  abbrev pub with_report : ℕ → String → Option (Report g.Data) → Store g → Store g
  with_report now id none s = s
  with_report now id (some r) s =
      let s1 = update_report g now id (set_processing g) s in
      with_report_merchant now id r (merchant_of r.merchant_id s1) s1

  unfoldable pub process_report_async : ℕ → String → Store g → Store g
  process_report_async now id s = with_report now id (report_of id s) s
