-- ===== src/Reports/Report.antt =====
-- The table of reports, the merchants and the mails: entities/report.entity.ts and
-- services/email-notification.service.ts of apps/api-service/src/reports.
use gas_guard.Prelude.{
  ℕ, String, ◌≡◌, refl, Bool, true, false, Bool-cases, inl, inr, Option, none, some, List, ◌∷◌,
  if◌then◌else◌,
}
use gas_guard.Exec.{Outcome}
use gas_guard.Calendar.{Months}
use gas_guard.Storage.Repository.{Repository}

pub data Period : Type 0 where
  weekly monthly : Period

pub data ReportStatus : Type 0 where
  pending processing completed failed : ReportStatus

pub data ReportType : Type 0 where
  scheduled adhoc : ReportType

-- `Data` is the gas usage with its anomalies. No code sets the columns chainId and metadata.
pub record Report (Data : Type 0) : Type 0 where
  pub id : String
  pub kind : ReportType
  pub period : Period
  pub merchant_id : String
  pub status : ReportStatus
  pub report_url : Option String
  pub report_data : Option Data
  pub start_date : ℕ
  pub end_date : ℕ
  pub created_at : ℕ
  pub updated_at : ℕ
  pub scheduled_at : Option ℕ
  pub sent_at : Option ℕ

-- A property that is left undefined keeps its column.
abbrev set_or : {A : Type 0} → Option A → Option A → Option A
set_or none old = old
set_or (some x) old = some x

abbrev pub stored_report : {Data : Type 0} → ℕ → Option (Report Data) → Report Data → Report Data
stored_report now none r = record r { created_at = now; updated_at = now }
stored_report now (some old) r = record r {
  created_at = old.created_at;
  updated_at = now;
  report_url = set_or r.report_url old.report_url;
  report_data = set_or r.report_data old.report_data;
  scheduled_at = set_or r.scheduled_at old.scheduled_at;
  sent_at = set_or r.sent_at old.sent_at;
}

abbrev pub report_id : {Data : Type 0} → Report Data → String
report_id r = r.id

-- What is read of a merchant.
pub record Merchant : Type 0 where
  pub id : String
  pub name : String
  pub email : Option String
  pub status : String

abbrev pub merchant_id_of : Merchant → String
merchant_id_of m = m.id

abbrev pub stored_merchant : ℕ → Option Merchant → Merchant → Merchant
stored_merchant now old m = m

-- A mail: to whom, to which merchant, and what it says.
pub data Mail (Data : Type 0) : Type 0 where
  gas_report : String → String → Period → String → Data → Mail Data
  failure_notice : String → String → String → Mail Data

-- `gather` is getWeeklyGasUsage or getMonthlyGasUsage with detectAbnormalUsage, for a merchant;
-- `generate_csv` writes the file of a name and gives its path. Both may throw.
-- `date_of` is the date of a time as a text, `toISOString().split('T')[0]`.
-- `transport` tells whether a mail goes out, where the transporter is configured.
pub record Setting : Type 1 where
  pub Data : Type 0
  pub months : Months
  pub reports : Repository (Report Data) report_id stored_report
  pub merchants : Repository Merchant merchant_id_of stored_merchant
  pub gather : Period → ℕ → String → Outcome String Data
  pub generate_csv : Data → String → Outcome String String
  pub date_of : ℕ → String
  pub transport : Option (Mail Data → Bool)

module _ (g : Setting) where
  pub record Store : Type 0 where
    pub reports : Repository.Db g.reports
    pub merchants : Repository.Db g.merchants
    pub sent : List (Mail g.Data)

  -- `if (!this.transporter) return false`, and the `try` around `sendMail`
  abbrev pub send_by : Option (Mail g.Data → Bool) → Mail g.Data → Store → Bool × Store
  send_by none mail s = (false, s)
  send_by (some t) mail s = if t mail then (true, record s { sent = mail ∷ s.sent }) else (false, s)

  abbrev pub send_gas_report_email :
      String → String → Period → String → g.Data → Store → Bool × Store
  send_gas_report_email to name period url usage =
      send_by g.transport (gas_report to name period url usage)

  abbrev pub send_failure_notification : String → String → String → Store → Bool × Store
  send_failure_notification to name text = send_by g.transport (failure_notice to name text)

  -- A mail leaves the tables as they are.
  pub send_by-tables :
      (t : Option (Mail g.Data → Bool)) (mail : Mail g.Data) (s : Store)
      → (Store.reports (send_by t mail s).1 ≡ s.reports)
        × (Store.merchants (send_by t mail s).1 ≡ s.merchants)
  send_by-tables none mail s = (refl, refl)
  send_by-tables (some t) mail s = elim (Bool-cases (t mail)) [
    | inl out ↦ rw out (refl, refl)
    | inr back ↦ rw back (refl, refl)
  ]
