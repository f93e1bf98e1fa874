-- ===== src/Reports/Sweeps.antt =====
-- The sweeps over all merchants leave no report half done.
use mathlib.Core.Option
use gas_guard.Prelude.{
  ℕ, ◌+◌, String, str_eq, eq_iff, eq_refl, ◌≡◌, ◌==◌, refl, sym, ◌∙◌, ap, Bool, true, false, ◌||◌,
  not, Option, none, some, List, [], ◌∷◌, if◌then◌else◌, Bool-cases, inl, inr, ◌⊎◌,
}
use gas_guard.Exec.{Outcome, ok, throw}
use gas_guard.Calendar.{week_day}
use gas_guard.Storage.Repository.{Repository}
use gas_guard.Reports.Report.{
  Period, weekly, monthly, ReportStatus, completed, failed, Report, Merchant, gas_report, Setting,
  Store, stored_report,
}
use gas_guard.Reports.Scheduling.{
  new_report, start_of, make, report_to, with_email, report_for, report_for_all,
  handle_weekly_report_schedule, handle_monthly_report_schedule, is_active, out_of_hours, not_first,
}
use gas_guard.Reports.Settled.{
  row, Summary, summary, seen, result, delivers, row-after_make-own, row-after_make-other,
}

module _ (g : Setting) where
  abbrev ended : ReportStatus → Bool
  ended completed = true
  ended failed = true
  ended _ = false

  abbrev ended_summary : Option (Summary g) → Bool
  ended_summary none = false
  ended_summary (some (m, p, a, b, x)) = ended x

  -- The report is there, and is completed or failed.
  abbrev pub is_settled : Option (Report g.Data) → Bool
  is_settled o = ended_summary (Option.map (seen g) o)

  -- What a call may do to the report of each key.
  abbrev pub Settles : Store g → Store g → Type 0
  Settles s after = (i : String) → (row g i after ≡ row g i s) ⊎ (is_settled (row g i after) ≡ true)

  ended-result :
      (to name : String) (period : Period) (o : Outcome String (g.Data × String))
      → ended (result g to name period o) ≡ true
  ended-result to name period (ok (usage, url)) =
      elim (Bool-cases (delivers g g.transport (gas_report to name period url usage))) [
        | inl out ↦ rw out refl
        | inr back ↦ rw back refl
      ]
  ended-result to name period (throw message) = refl

  ended_stored :
      (old : Option (Report g.Data)) (r : Report g.Data) (now : ℕ) (x : ReportStatus)
      → ended_summary (some (summary g x (stored_report now old r))) ≡ ended x
  ended_stored none r now x = refl
  ended_stored (some e) r now x = refl

  -- The new report.
  settled-report_to :
      (period : Period) (now : ℕ) (id : String) (m : Merchant) (to : String) (s : Store g)
      → is_settled (row g id (report_to g period now id m to s)) ≡ true
  settled-report_to period now id m to s =
      let r = new_report g period now id m.id in
      let o = make g period now m.id (start_of g period now) in
      let old = row g id s in
      let saved : Store g = record s { reports = Repository.save g.reports now r s.reports } in
      let here : row g id saved ≡ some (stored_report now old r) =
        Repository.find_by_id-save g.reports id now r s.reports ∙ rw (eq_refl id) refl in
      ap ended_summary
        (row-after_make-own g id to m.name now period o saved ∙ ap (Option.map (summary g _)) here)
      ∙ ended_stored old r now (result g to m.name period o)
      ∙ ended-result to m.name period o

  Settles-report_to :
      (period : Period) (now : ℕ) (id : String) (m : Merchant) (to : String) (s : Store g)
      → Settles s (report_to g period now id m to s)
  Settles-report_to period now id m to s i =
      let r = new_report g period now id m.id in
      let o = make g period now m.id (start_of g period now) in
      let saved : Store g = record s { reports = Repository.save g.reports now r s.reports } in
      let there = Repository.find_by_id-save g.reports i now r s.reports in
      elim (Bool-cases (str_eq id i)) [
        | inl own ↦ inr (
            ap (λ k. is_settled (row g k (report_to g period now id m to s)))
              (sym ((eq_iff id i).0 own))
            ∙ settled-report_to period now id m to s)
        | inr other ↦
            inl (
              row-after_make-other g i id to m.name now period o saved other
              ∙ there
              ∙ rw other refl)
      ]

  Settles-with_email :
      (e : Option String) (period : Period) (now : ℕ) (id : String) (m : Merchant) (s : Store g)
      → Settles s (with_email g e (report_to g period now id m) s)
  Settles-with_email none period now id m s i = inl refl
  Settles-with_email (some to) period now id m s i = elim (Bool-cases (str_eq to "")) [
    | inl empty ↦ rw empty (inl refl)
    | inr given ↦ rw given (Settles-report_to period now id m to s i)
  ]

  Settles-trans : (s t u : Store g) → Settles s t → Settles t u → Settles s u
  Settles-trans s t u first second i = elim (second i) [
    | inr done ↦ inr done
    | inl same ↦ elim (first i) [
      | inl kept ↦ inl (same ∙ kept)
      | inr done ↦ inr (ap is_settled same ∙ done)
    ]
  ]

  Settles-report_for_all :
      (period : Period) (now : ℕ) (ids : ℕ → String) (n : ℕ) (ms : List Merchant) (s : Store g)
      → Settles s (report_for_all g period now ids n ms s)
  unfolding report_for
  Settles-report_for_all period now ids n [] s = λ i. inl refl
  Settles-report_for_all period now ids n (m ∷ ms) s =
      Settles-trans s (report_for g period now (ids n) m s)
        (report_for_all g period now ids (n + 1) ms (report_for g period now (ids n) m s))
        (Settles-with_email m.email period now (ids n) m s)
        (Settles-report_for_all period now ids (n + 1) ms (report_for g period now (ids n) m s))

  Settles-sweep :
      (b : Bool) (period : Period) (now : ℕ) (ids : ℕ → String) (ms : List Merchant) (s : Store g)
      → Settles s (if b then s else report_for_all g period now ids 0 ms s)
  Settles-sweep true period now ids ms s = λ i. inl refl
  Settles-sweep false period now ids ms s = Settles-report_for_all period now ids 0 ms s

  -- After a weekly or a monthly sweep, each report is as it was before, or it is completed or failed: no sweep leaves a
  -- report of its own pending or processing, whatever fails in making or mailing it and whatever ids are drawn.
  pub schedules-Settles :
      (now : ℕ) (ids : ℕ → String) (s : Store g)
      → Settles s (handle_weekly_report_schedule g now ids s)
        × Settles s (handle_monthly_report_schedule g now ids s)
  unfolding handle_weekly_report_schedule handle_monthly_report_schedule
  schedules-Settles now ids s =
      let merchants = Repository.find g.merchants (is_active g) s.merchants in
      (
        Settles-sweep (not (week_day now == 1) || out_of_hours g now) weekly now ids merchants s,
        Settles-sweep (not_first g now || out_of_hours g now) monthly now ids merchants s,
      )
