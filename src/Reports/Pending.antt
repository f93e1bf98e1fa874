-- ===== src/Reports/Pending.antt =====
-- A scheduled report that is processed by itself.
use mathlib.Core.Option
use gas_guard.Prelude.{ℕ, String, str_eq, eq_refl, ◌≡◌, refl, ◌∙◌, ap, false, Option, none, some}
use gas_guard.Exec.{Outcome, ok, throw}
use gas_guard.Reports.Report.{failed, ReportStatus, Report, Merchant, gas_report, Setting, Store}
use gas_guard.Reports.Scheduling.{
  make, update_report, set_failed, set_processing, set_file, after_work, processed, recipient_of,
  notify, process_scheduled_report,
}
use gas_guard.Reports.Settled.{
  row, summary, seen, result, delivers, row-update, row-update_own, row-notice, row-email,
  seen-final, summary-changed,
}

module _ (g : Setting) where
  pub row-notify :
      (i : String) (to : Option (Merchant × String)) (message : String) (s : Store g)
      → row g i (notify g to message s) ≡ row g i s
  row-notify i none message s = refl
  row-notify i (some (m, to)) message s = row-notice g i to m.name message s

  -- The status that a report ends with: failed where the merchant is gone or has no email.
  abbrev pub end_of_report : ℕ → Report g.Data → Option (Merchant × String) → ReportStatus
  end_of_report now r none = failed
  end_of_report now r (some (m, to)) =
      result g to m.name r.period (make g r.period now r.merchant_id r.start_date)

  row-after_work-own :
      (now : ℕ) (r : Report g.Data) (m : Merchant) (to : String)
      (o : Outcome String (g.Data × String)) (s : Store g)
      → Option.map (seen g) (row g r.id (after_work g now r (m, to) o s))
        ≡ Option.map (summary g (result g to m.name r.period o)) (row g r.id s)
  row-after_work-own now r m to (ok (usage, url)) s =
      let mail = gas_report to m.name r.period url usage in
      let f : Report g.Data → Report g.Data = set_file g url usage in
      ap (Option.map (seen g)) (
        row-email g r.id r.id to m.name now mail (update_report g now r.id f s)
        ∙ rw (eq_refl r.id) refl)
      ∙ seen-final g (delivers g g.transport mail) now _
      ∙ ap (Option.map (summary g _)) (row-update_own g r.id now f s (λ e. refl))
      ∙ summary-changed g _ f now (row g r.id s) (λ e. refl)
  row-after_work-own now r m to (throw message) s =
      ap (Option.map (seen g))
        (row-notify r.id _ message _ ∙ row-update_own g r.id now _ s (λ e. refl))
      ∙ seen-final g false now (row g r.id s)

  row-after_work-other :
      (i : String) (now : ℕ) (r : Report g.Data) (m : Merchant) (to : String)
      (o : Outcome String (g.Data × String)) (s : Store g)
      → str_eq r.id i ≡ false
      → row g i (after_work g now r (m, to) o s) ≡ row g i s
  row-after_work-other i now r m to (ok (usage, url)) s other =
      row-email g i r.id to m.name now _ _
      ∙ rw other (row-update g i r.id now _ s (λ e. refl) ∙ rw other refl)
  row-after_work-other i now r m to (throw message) s other =
      row-notify i _ message _ ∙ row-update g i r.id now _ s (λ e. refl) ∙ rw other refl

  row-processed-own :
      (now : ℕ) (r : Report g.Data) (to : Option (Merchant × String)) (s : Store g)
      → Option.map (seen g) (row g r.id (processed g now r to s))
        ≡ Option.map (summary g (end_of_report now r to)) (row g r.id s)
  row-processed-own now r none s =
      ap (Option.map (seen g)) (row-update_own g r.id now (set_failed g) s (λ e. refl))
      ∙ seen-final g false now (row g r.id s)
  row-processed-own now r (some (m, to)) s =
      row-after_work-own now r m to _ _
      ∙ ap (Option.map (summary g _)) (row-update_own g r.id now (set_processing g) s (λ e. refl))
      ∙ summary-changed g _ (set_processing g) now (row g r.id s) (λ e. refl)

  row-processed-other :
      (i : String) (now : ℕ) (r : Report g.Data) (to : Option (Merchant × String)) (s : Store g)
      → str_eq r.id i ≡ false
      → row g i (processed g now r to s) ≡ row g i s
  row-processed-other i now r none s other =
      row-update g i r.id now (set_failed g) s (λ e. refl) ∙ rw other refl
  row-processed-other i now r (some (m, to)) s other =
      row-after_work-other i now r m to _ _ other
      ∙ row-update g i r.id now (set_processing g) s (λ e. refl)
      ∙ rw other refl

  -- A report that is processed keeps its merchant and its period, and ends completed where the merchant has an email,
  -- the file was made and the mail goes out, else failed. The other reports stay.
  pub process_scheduled_report_lem :
      (now : ℕ) (r : Report g.Data) (s : Store g)
      → (Option.map (seen g) (row g r.id (process_scheduled_report g now r s))
          ≡ Option.map
              (summary g (end_of_report now r (recipient_of g r.merchant_id s)))
              (row g r.id s))
        × ((i : String)
            → str_eq r.id i ≡ false
            → row g i (process_scheduled_report g now r s) ≡ row g i s)
  unfolding process_scheduled_report
  process_scheduled_report_lem now r s = (
    row-processed-own now r (recipient_of g r.merchant_id s) s,
    λ i other. row-processed-other i now r (recipient_of g r.merchant_id s) s other,
  )
