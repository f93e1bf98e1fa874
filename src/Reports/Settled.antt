-- ===== src/Reports/Settled.antt =====
-- A report that is made is sent or failed: what the schedules leave in the table of reports.
use mathlib.Core.Option
use gas_guard.Prelude.{
  ℕ, String, str_eq, eq_refl, ◌≡◌, refl, ◌∙◌, ap, Bool, true, false, Option, none, some,
  if◌then◌else◌, Bool-cases, inl, inr,
}
use gas_guard.Exec.{Outcome, ok, throw}
use gas_guard.Storage.Repository.{Repository}
use gas_guard.Reports.Report.{
  Period, ReportStatus, completed, failed, Report, Merchant, Mail, gas_report, failure_notice,
  Setting, Store, send_failure_notification, send_by, send_by-tables, stored_report,
}
use gas_guard.Reports.Scheduling.{
  new_report, start_of, end_of, update_report, set_failed, set_completed, set_processing, set_file,
  after_email, after_make, make, report_to, with_email, report_for,
}

module _ (g : Setting) where
  abbrev pub row : String → Store g → Option (Report g.Data)
  row i s = Repository.find_by_id g.reports i s.reports

  -- The table after `update(id, partial)`.
  abbrev pub changed :
      (Report g.Data → Report g.Data) → ℕ → Option (Report g.Data) → Option (Report g.Data)
  changed f now o = Option.map (λ e. stored_report now (some e) (f e)) o

  abbrev pub delivers : Option (Mail g.Data → Bool) → Mail g.Data → Bool
  delivers none mail = false
  delivers (some t) mail = t mail

  pub row-update :
      (i id : String) (now : ℕ) (f : Report g.Data → Report g.Data) (s : Store g)
      → ((e : Report g.Data) → Report.id (f e) ≡ e.id)
      → row i (update_report g now id f s)
        ≡ (if str_eq id i then changed f now (row i s) else row i s)
  row-update i id now f s keeps = Repository.find_by_id-update g.reports i now id f s.reports keeps

  pub row-update_own :
      (id : String) (now : ℕ) (f : Report g.Data → Report g.Data) (s : Store g)
      → ((e : Report g.Data) → Report.id (f e) ≡ e.id)
      → row id (update_report g now id f s) ≡ changed f now (row id s)
  row-update_own id now f s keeps = row-update id id now f s keeps ∙ rw (eq_refl id) refl

  pub row-notice :
      (i to name text : String) (s : Store g)
      → row i (send_failure_notification g to name text s).1 ≡ row i s
  row-notice i to name text s =
      ap (Repository.find_by_id g.reports i)
        (send_by-tables g g.transport (failure_notice to name text) s).0

  abbrev pub final : Bool → ℕ → Report g.Data → Report g.Data
  final true now r = set_completed g now r
  final false now r = set_failed g r

  row-after_email :
      (i id to name : String) (now : ℕ) (b : Bool) (s : Store g)
      → row i (after_email g now id to name (b, s))
        ≡ (if str_eq id i then changed (final b now) now (row i s) else row i s)
  row-after_email i id to name now true s = row-update i id now _ s (λ e. refl)
  row-after_email i id to name now false s =
      row-notice i to name _ _ ∙ row-update i id now _ s (λ e. refl)

  -- What a report is about, and a status.
  abbrev pub Summary : Type 0
  Summary = String × Period × ℕ × ℕ × ReportStatus

  abbrev pub summary : ReportStatus → Report g.Data → Summary
  summary x r = (r.merchant_id, r.period, r.start_date, r.end_date, x)

  abbrev pub seen : Report g.Data → Summary
  seen r = summary r.status r

  -- The status that fits what was made, and whether its mail goes out.
  abbrev pub result : String → String → Period → Outcome String (g.Data × String) → ReportStatus
  result to name period (ok (usage, url)) =
      if delivers g.transport (gas_report to name period url usage) then completed else failed
  result to name period (throw message) = failed

  pub seen-final :
      (b : Bool) (now : ℕ) (o : Option (Report g.Data))
      → Option.map seen (changed (final b now) now o)
        ≡ Option.map (summary (if b then completed else failed)) o
  seen-final true now none = refl
  seen-final true now (some r) = refl
  seen-final false now none = refl
  seen-final false now (some r) = refl

  -- A change that keeps what the report is about.
  pub summary-changed :
      (x : ReportStatus) (f : Report g.Data → Report g.Data) (now : ℕ) (o : Option (Report g.Data))
      → ((e : Report g.Data) → summary x (stored_report now (some e) (f e)) ≡ summary x e)
      → Option.map (summary x) (changed f now o) ≡ Option.map (summary x) o
  summary-changed x f now none keeps = refl
  summary-changed x f now (some r) keeps = ap some (keeps r)

  send_by-sent :
      (t : Option (Mail g.Data → Bool)) (mail : Mail g.Data) (s : Store g)
      → (send_by g t mail s).0 ≡ delivers t mail
  send_by-sent none mail s = refl
  send_by-sent (some t) mail s = elim (Bool-cases (t mail)) [
    | inl out ↦ rw out refl
    | inr back ↦ rw back refl
  ]

  -- The end of a report: its mail, then its status.
  pub row-email :
      (i id to name : String) (now : ℕ) (mail : Mail g.Data) (s : Store g)
      → row i (after_email g now id to name (send_by g g.transport mail s)) ≡ (
          if str_eq id i
          then changed (final (delivers g.transport mail) now) now (row i s)
          else row i s)
  row-email i id to name now mail s =
      let p = send_by g g.transport mail s in
      let same : row i p.1 ≡ row i s =
        ap (Repository.find_by_id g.reports i) (send_by-tables g g.transport mail s).0 in
      row-after_email i id to name now p.0 p.1 ∙ rw (same, send_by-sent g.transport mail s) refl

  pub row-after_make-own :
      (id to name : String) (now : ℕ) (period : Period) (o : Outcome String (g.Data × String))
      (s : Store g)
      → Option.map seen (row id (after_make g now id to name period o s))
        ≡ Option.map (summary (result to name period o)) (row id s)
  row-after_make-own id to name now period (ok (usage, url)) s =
      let mail = gas_report to name period url usage in
      let f : Report g.Data → Report g.Data = λ r. set_file g url usage (set_processing g r) in
      ap (Option.map seen)
        (row-email id id to name now mail (update_report g now id f s) ∙ rw (eq_refl id) refl)
      ∙ seen-final (delivers g.transport mail) now _
      ∙ ap (Option.map (summary _)) (row-update_own id now f s (λ e. refl))
      ∙ summary-changed _ f now (row id s) (λ e. refl)
  row-after_make-own id to name now period (throw message) s =
      ap (Option.map seen) (row-notice id to name message _ ∙ row-update_own id now _ s (λ e. refl))
      ∙ seen-final false now (row id s)

  pub row-after_make-other :
      (i id to name : String) (now : ℕ) (period : Period) (o : Outcome String (g.Data × String))
      (s : Store g)
      → str_eq id i ≡ false
      → row i (after_make g now id to name period o s) ≡ row i s
  row-after_make-other i id to name now period (ok (usage, url)) s other =
      row-email i id to name now _ _
      ∙ rw other (row-update i id now _ s (λ e. refl) ∙ rw other refl)
  row-after_make-other i id to name now period (throw message) s other =
      row-notice i to name message _ ∙ row-update i id now _ s (λ e. refl) ∙ rw other refl

  report_to_lem :
      (period : Period) (now : ℕ) (id : String) (m : Merchant) (to : String) (s : Store g)
      → row id s ≡ none
      → (Option.map seen (row id (report_to g period now id m to s))
          ≡ some (
            m.id,
            period,
            start_of g period now,
            end_of g period now,
            result to m.name period (make g period now m.id (start_of g period now)),
          ))
        × ((i : String) → str_eq id i ≡ false → row i (report_to g period now id m to s) ≡ row i s)
  report_to_lem period now id m to s new =
      let r = new_report g period now id m.id in
      let o = make g period now m.id (start_of g period now) in
      let saved : Store g = record s { reports = Repository.save g.reports now r s.reports } in
      let here : row id saved ≡ some (stored_report now none r) =
        Repository.find_by_id-save g.reports id now r s.reports ∙ rw (eq_refl id, new) refl in
      (
        row-after_make-own id to m.name now period o saved ∙ ap (Option.map (summary _)) here,
        λ i other.
            row-after_make-other i id to m.name now period o saved other
            ∙ Repository.find_by_id-save g.reports i now r s.reports
            ∙ rw other refl,
      )

  pub report_for-report_to :
      (period : Period) (now : ℕ) (id : String) (m : Merchant) (to : String) (s : Store g)
      → m.email ≡ some to
      → str_eq to "" ≡ false
      → report_for g period now id m s ≡ report_to g period now id m to s
  unfolding report_for
  report_for-report_to period now id m to s address given =
      ap (λ e. with_email g e (report_to g period now id m) s) address ∙ rw given refl

  -- A merchant with an email, where the id is unused, gets a report with that id: it is of the merchant and of the
  -- period before now, and ends completed where its file was made and its mail goes out, else failed. The other
  -- reports stay.
  pub report_for_lem :
      (period : Period) (now : ℕ) (id : String) (m : Merchant) (to : String) (s : Store g)
      → m.email ≡ some to
      → str_eq to "" ≡ false
      → row id s ≡ none
      → (Option.map seen (row id (report_for g period now id m s))
          ≡ some (
            m.id,
            period,
            start_of g period now,
            end_of g period now,
            result to m.name period (make g period now m.id (start_of g period now)),
          ))
        × ((i : String) → str_eq id i ≡ false → row i (report_for g period now id m s) ≡ row i s)
  report_for_lem period now id m to s address given new =
      rw (report_for-report_to period now id m to s address given)
        (report_to_lem period now id m to s new)
