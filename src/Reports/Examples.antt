-- ===== src/Reports/Examples.antt =====
-- The theorems on reports at two merchants, of which one has an email, and three transactions on two chains.
use gas_guard.Prelude.{
  ℕ, ◌<◌, ◌≤◌, arith, ◌*◌, ◌-◌, ◌+◌, ◌==◌, not, length, filter, String, str_eq, ◌≡◌, refl, Bool,
  true, false, Option, none, some, List, [], ◌∷◌, if◌then◌else◌,
}
use mathlib.Core.Option
use gas_guard.Numbers.{fixed}
use gas_guard.Calendar.{thirty_days, day_length, week_day}
use gas_guard.Exec.{Outcome, ok, throw}
use gas_guard.Storage.Memory.{memory}
use gas_guard.Reports.Dates.{previous_week_lem, previous_week_start, previous_week_end}
use gas_guard.Reports.Aggregation.{Transaction, GasUsage, succeeded, aggregate_gas_usage_data}
use gas_guard.Reports.Breakdown.{
  is_on, data_of, all_listed, usage_on, usage_of, aggregate_gas_usage_data_lem,
}
use gas_guard.Reports.Report.{
  Period, weekly, monthly, completed, failed, Mail, gas_report, failure_notice, Report, Merchant,
  Setting, Store, stored_report, report_id, merchant_id_of, stored_merchant,
}
use gas_guard.Reports.Pending.{end_of_report, process_scheduled_report_lem}
use gas_guard.Reports.Scheduling.{
  process_scheduled_report, recipient_of, make, start_of, end_of, report_for,
  handle_weekly_report_schedule, handle_monthly_report_schedule,
}
use gas_guard.Reports.Settled.{row, summary, seen, result, report_for_lem}
use gas_guard.Reports.Sweeps.{Settles, schedules-Settles}
use gas_guard.Reports.Adhoc.{adhoc_report, make_adhoc, generate_adhoc_report, process_report_async}
use gas_guard.Reports.OnDemand.{end_of_adhoc, generate_adhoc_report-process_report_async}

-- The monthly usage cannot be read, and no mail goes out to "b".
abbrev gather : Period → ℕ → String → Outcome String ℕ
gather weekly now merchant_id = ok 7
gather monthly now merchant_id = throw "no data"

abbrev generate_csv : ℕ → String → Outcome String String
generate_csv usage file = ok file

abbrev goes_out : Mail ℕ → Bool
goes_out (gas_report to name period url usage) = not (str_eq to "b@x.org")
goes_out (failure_notice to name text) = true

stored_same_id :
    (now : ℕ) (old : Option (Report ℕ)) (r : Report ℕ)
    → report_id (stored_report now old r) ≡ report_id r
stored_same_id now none r = refl
stored_same_id now (some old) r = refl

abbrev setting : Setting
setting = record {
  Data = ℕ;
  months = thirty_days;
  reports = memory report_id stored_report stored_same_id;
  merchants = memory merchant_id_of stored_merchant (λ now old m. refl);
  gather = gather;
  generate_csv = generate_csv;
  date_of = λ t. "1970-02-01";
  transport = some goes_out;
}

abbrev merchant : String → Option String → Merchant
merchant id email = record { id = id; name = id; email = email; status = "active" }

abbrev store : Store setting
store = record {
  reports = [];
  merchants =
      merchant "a" (some "a@x.org") ∷ merchant "b" (some "b@x.org") ∷ merchant "c" none ∷ [];
  sent = [];
}

-- A Monday at eight.
abbrev monday : ℕ
monday = 32 * 86400000 + 8 * 3600000

abbrev ids : ℕ → String
ids n = if n == 0 then "r0" else "r1"

-- The sweep: one report is completed, one is failed, and the third merchant has none.
sweep_test :
    (Option.map
        (seen setting)
        (row setting "r0" (handle_weekly_report_schedule setting monday ids store))
      ≡ some ("a", weekly, 25 * 86400000, 32 * 86400000 - 1, completed))
    × (Option.map
          (seen setting)
          (row setting "r1" (handle_weekly_report_schedule setting monday ids store))
        ≡ some ("b", weekly, 25 * 86400000, 32 * 86400000 - 1, failed))
unfolding handle_weekly_report_schedule report_for make previous_week_end
sweep_test = (refl, refl)

abbrev transaction : String → Option ℕ → String → Transaction ℕ
transaction chain gas status = record {
  chain_id = chain;
  gas_used = gas;
  transaction_fee = none;
  status = status;
}

abbrev transactions : List (Transaction ℕ)
transactions =
    transaction "1" (some 5) "success"
    ∷ transaction "137" none "failed"
    ∷ transaction "1" (some 6) "success"
    ∷ []

abbrev usage : GasUsage ℕ
usage = aggregate_gas_usage_data fixed transactions (λ k. none)

aggregate_gas_usage_data_lem_example :
    (usage.successful_transactions ≡ length (filter succeeded transactions))
    × (usage.successful_transactions + usage.failed_transactions ≡ length transactions)
    × (all_listed fixed usage.chain_breakdown ≡ length transactions)
    × ((k : String)
        → usage_on fixed k usage.chain_breakdown
          ≡ usage_of fixed (λ i. none) k (data_of fixed none (filter (is_on fixed k) transactions)))
aggregate_gas_usage_data_lem_example = aggregate_gas_usage_data_lem fixed transactions (λ k. none)

two_of_three : usage.successful_transactions ≡ 2
unfolding aggregate_gas_usage_data
two_of_three = refl

abbrev first : Merchant
first = merchant "a" (some "a@x.org")

report_for_lem_example :
    (Option.map
        (seen setting)
        (row setting "r0" (report_for setting weekly monday "r0" first store))
      ≡ some (
        "a",
        weekly,
        start_of setting weekly monday,
        end_of setting weekly monday,
        result setting "a@x.org" "a" weekly
            (make setting weekly monday "a" (start_of setting weekly monday)),
      ))
    × ((i : String)
        → str_eq "r0" i ≡ false
        → row setting i (report_for setting weekly monday "r0" first store) ≡ row setting i store)
report_for_lem_example =
    report_for_lem setting weekly monday "r0" first "a@x.org" store refl refl refl

schedules-Settles_example :
    Settles setting store (handle_weekly_report_schedule setting monday ids store)
    × Settles setting store (handle_monthly_report_schedule setting monday ids store)
schedules-Settles_example = schedules-Settles setting monday ids store

abbrev asked : Report ℕ
asked = adhoc_report setting weekly monday "r0" "c"

abbrev asked_store : Store setting
asked_store = record store { reports = asked ∷ [] }

-- The third merchant has no email, and its report is completed without a mail.
generate_adhoc_report-process_report_async_example :
    ((generate_adhoc_report setting monday "r0" "c" weekly store).0 ≡ ok "r0")
    × (Option.map (seen setting) (
          row setting "r0" (
            process_report_async setting
              (monday + 5)
              "r0"
              (generate_adhoc_report setting monday "r0" "c" weekly store).1))
        ≡ some (
            summary setting
              (end_of_adhoc setting (monday + 5) asked (some (merchant "c" none)))
              asked))
generate_adhoc_report-process_report_async_example =
    generate_adhoc_report-process_report_async setting monday (monday + 5) "r0" "c" weekly
      (merchant "c" none) store refl refl

completed_without_mail :
    end_of_adhoc setting (monday + 5) asked (some (merchant "c" none)) ≡ completed
unfolding make_adhoc
completed_without_mail = refl

week_test :
    (previous_week_start monday ≡ 25 * 86400000) × (previous_week_end monday ≡ 32 * 86400000 - 1)
unfolding previous_week_end
week_test = (refl, refl)

process_scheduled_report_lem_example :
    (Option.map
        (seen setting)
        (row setting "r0" (process_scheduled_report setting monday asked asked_store))
      ≡ Option.map
          (summary setting
            (end_of_report setting monday asked (recipient_of setting "c" asked_store)))
          (row setting "r0" asked_store))
    × ((i : String)
        → str_eq "r0" i ≡ false
        → row setting i (process_scheduled_report setting monday asked asked_store)
          ≡ row setting i asked_store)
process_scheduled_report_lem_example = process_scheduled_report_lem setting monday asked asked_store

-- The merchant has no email.
failed_without_email :
    end_of_report setting monday asked (recipient_of setting "c" asked_store) ≡ failed
failed_without_email = refl

previous_week_lem_example :
    (week_day (previous_week_start monday) ≡ 1)
    × (previous_week_end monday + 1 ≡ previous_week_start monday + 7 * day_length)
    × (previous_week_end monday < monday)
    × (monday ≤ previous_week_end monday + 7 * day_length)
previous_week_lem_example = previous_week_lem monday (omega arith)
