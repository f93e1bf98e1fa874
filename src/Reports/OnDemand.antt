-- ===== src/Reports/OnDemand.antt =====
-- What becomes of a report on demand.
use mathlib.Core.Option
use gas_guard.Prelude.{ℕ, String, eq_refl, ◌≡◌, refl, ◌∙◌, ap, true, false, Option, none, some}
use gas_guard.Exec.{Outcome, ok, throw}
use gas_guard.Storage.Repository.{Repository}
use gas_guard.Reports.Report.{
  Period, completed, failed, ReportStatus, Report, Merchant, gas_report, Setting, Store,
}
use gas_guard.Reports.Scheduling.{set_failed, set_completed, set_processing, set_file, recipient}
use gas_guard.Reports.Settled.{
  row, summary, seen, result, delivers, row-update_own, row-email, seen-final, summary-changed,
}
use gas_guard.Reports.Pending.{row-notify}
use gas_guard.Reports.Adhoc.{
  adhoc_report, merchant_of, generate_adhoc_report, make_adhoc, deliver, notify_of, after_adhoc,
  with_report_merchant, with_report, process_report_async,
}

module _ (g : Setting) where
  row-notify_of :
      (i : String) (o : Option (Report g.Data)) (message : String) (s : Store g)
      → row g i (notify_of g o message s) ≡ row g i s
  row-notify_of i none message s = refl
  row-notify_of i (some r) message s = row-notify g i _ message s

  -- Without an email, a report that is made is completed.
  abbrev end_of_delivery : Period → Option (Merchant × String) → g.Data × String → ReportStatus
  end_of_delivery period none made = completed
  end_of_delivery period (some (m, to)) made = result g to m.name period (ok made)

  abbrev end_of_work : Report g.Data → Merchant → Outcome String (g.Data × String) → ReportStatus
  end_of_work r m (ok made) = end_of_delivery r.period (recipient g (some m)) made
  end_of_work r m (throw message) = failed

  abbrev pub end_of_adhoc : ℕ → Report g.Data → Option Merchant → ReportStatus
  end_of_adhoc now r none = failed
  end_of_adhoc now r (some m) = end_of_work r m (make_adhoc g now r)

  row-deliver :
      (now : ℕ) (id : String) (period : Period) (to : Option (Merchant × String))
      (made : g.Data × String) (s : Store g)
      → Option.map (seen g) (row g id (deliver g now id period to made s))
        ≡ Option.map (summary g (end_of_delivery period to made)) (row g id s)
  row-deliver now id period none made s =
      ap (Option.map (seen g)) (row-update_own g id now (set_completed g now) s (λ e. refl))
      ∙ seen-final g true now (row g id s)
  row-deliver now id period (some (m, to)) (usage, url) s =
      let mail = gas_report to m.name period url usage in
      ap (Option.map (seen g)) (row-email g id id to m.name now mail s ∙ rw (eq_refl id) refl)
      ∙ seen-final g (delivers g g.transport mail) now (row g id s)

  row-after_adhoc :
      (now : ℕ) (id : String) (r : Report g.Data) (m : Merchant)
      (o : Outcome String (g.Data × String)) (s : Store g)
      → Option.map (seen g) (row g id (after_adhoc g now id r m o s))
        ≡ Option.map (summary g (end_of_work r m o)) (row g id s)
  row-after_adhoc now id r m (ok (usage, url)) s =
      let f : Report g.Data → Report g.Data = λ e. set_file g url usage (set_processing g e) in
      row-deliver now id r.period (recipient g (some m)) (usage, url) _
      ∙ ap (Option.map (summary g _)) (row-update_own g id now f s (λ e. refl))
      ∙ summary-changed g _ f now (row g id s) (λ e. refl)
  row-after_adhoc now id r m (throw message) s =
      ap (Option.map (seen g))
        (row-notify_of id _ message _ ∙ row-update_own g id now (set_failed g) s (λ e. refl))
      ∙ seen-final g false now (row g id s)

  row-with_report_merchant :
      (now : ℕ) (id : String) (r : Report g.Data) (m : Option Merchant) (s : Store g)
      → Option.map (seen g) (row g id (with_report_merchant g now id r m s))
        ≡ Option.map (summary g (end_of_adhoc now r m)) (row g id s)
  row-with_report_merchant now id r none s =
      ap (Option.map (seen g)) (row-update_own g id now (set_failed g) s (λ e. refl))
      ∙ seen-final g false now (row g id s)
  row-with_report_merchant now id r (some m) s = row-after_adhoc now id r m (make_adhoc g now r) s

  row-with_report :
      (now : ℕ) (id : String) (r : Report g.Data) (s : Store g)
      → Option.map (seen g) (row g id (with_report g now id (some r) s))
        ≡ Option.map (summary g (end_of_adhoc now r (merchant_of g r.merchant_id s))) (row g id s)
  row-with_report now id r s =
      row-with_report_merchant now id r (merchant_of g r.merchant_id s) _
      ∙ ap (Option.map (summary g _)) (row-update_own g id now (set_processing g) s (λ e. refl))
      ∙ summary-changed g _ (set_processing g) now (row g id s) (λ e. refl)

  row-process_report_async :
      (now : ℕ) (id : String) (r : Report g.Data) (s : Store g)
      → row g id s ≡ some r
      → Option.map (seen g) (row g id (process_report_async g now id s))
        ≡ some (summary g (end_of_adhoc now r (merchant_of g r.merchant_id s)) r)
  unfolding process_report_async
  row-process_report_async now id r s here =
      ap (λ o. Option.map (seen g) (row g id (with_report g now id o s))) here
      ∙ row-with_report now id r s
      ∙ ap (Option.map (summary g _)) here

  -- A request for a report of a merchant that exists, with an unused id, returns that id; the report, once it has been
  -- processed, is of the merchant and of the period before the request, and is completed where its file was made and,
  -- if the merchant has an email, its mail goes out; else it is failed.
  pub generate_adhoc_report-process_report_async :
      (now later : ℕ) (id merchant_id : String) (period : Period) (m : Merchant) (s : Store g)
      → merchant_of g merchant_id s ≡ some m
      → row g id s ≡ none
      → ((generate_adhoc_report g now id merchant_id period s).0 ≡ ok id)
        × (Option.map (seen g) (
              row g id (
                process_report_async g later id
                  (generate_adhoc_report g now id merchant_id period s).1))
            ≡ some (
                summary g
                  (end_of_adhoc later (adhoc_report g period now id merchant_id) (some m))
                  (adhoc_report g period now id merchant_id)))
  unfolding generate_adhoc_report
  generate_adhoc_report-process_report_async now later id merchant_id period m s known new =
      let r = adhoc_report g period now id merchant_id in
      let saved : Store g = record s { reports = Repository.save g.reports now r s.reports } in
      let done : generate_adhoc_report g now id merchant_id period s ≡ (ok id, saved) =
        rw known refl in
      let here : row g id saved ≡ some r =
        Repository.find_by_id-save g.reports id now r s.reports ∙ rw (eq_refl id, new) refl in
      (
        ap (λ p. p.0) done,
        ap (λ p. Option.map (seen g) (row g id (process_report_async g later id p.1))) done
            ∙ row-process_report_async later id r saved here
            ∙ ap (λ o. some (summary g (end_of_adhoc later r o) r)) known,
      )
