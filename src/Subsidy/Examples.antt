-- ===== src/Subsidy/Examples.antt =====
-- The theorems on the gas subsidy at a concrete wallet: its cap is 1000, it has used 700, and its flags are grave.
use gas_guard.Prelude.{ℕ, suc, ◌≡◌, refl, true, false, none, List, [], ◌∷◌, leb, arith}
use gas_guard.Numbers.{fixed}
use gas_guard.Calendar.{thirty_days}
use gas_guard.Exec.{ok}
use gas_guard.Storage.Memory.{memory}
use gas_guard.Storage.OrderedMemory.{ordered_memory}
use gas_guard.Subsidy.Entity.{
  daily, active, GasSubsidyCap, SuspiciousUsageFlag, stored_cap, stored_log, stored_alert,
  stored_flag, cap_id, log_id, alert_id, flag_id,
}
use gas_guard.Subsidy.Store.{Setting, Store, period_end}
use gas_guard.Subsidy.Check.{SubsidyCheckResult, get_cap, check_from, check_subsidy}
use gas_guard.Subsidy.Usage.{counted, update_cap_usage, SubsidyUsageRecord, NewIds}
use gas_guard.Subsidy.Periods.{FoundAgain, check_subsidy-returns}
use gas_guard.Subsidy.Accepted.{reaches, is_due}
use gas_guard.Subsidy.Calls.{Call, checks, records, clears, run}
use gas_guard.Subsidy.Active.{AllActive}
use gas_guard.Subsidy.Summary.{Summary, get_realtime_summary}
use gas_guard.Subsidy.Counts.{get_realtime_summary-run}

-- The columns keep what they are given, and the texts are ordered as the numbers are.
abbrev keep : ℕ → ℕ → ℕ
keep scale n = n

abbrev setting : Setting
setting = record {
  ar = fixed;
  months = thirty_days;
  column = keep;
  text_le = leb;
  caps = memory cap_id (stored_cap keep) (λ now old c. refl);
  caps_ordered = ordered_memory cap_id (stored_cap keep) (λ now old c. refl);
  logs = memory log_id (stored_log keep) (λ now old l. refl);
  logs_ordered = ordered_memory log_id (stored_log keep) (λ now old l. refl);
  alerts = memory alert_id (stored_alert keep) (λ now old a. refl);
  alerts_ordered = ordered_memory alert_id (stored_alert keep) (λ now old a. refl);
  flags = memory flag_id stored_flag (λ now old f. refl);
  flags_ordered = ordered_memory flag_id stored_flag (λ now old f. refl);
}

abbrev whole : ℕ → ℕ
whole n = fixed.literal n 1

abbrev cap : GasSubsidyCap ℕ
cap = record {
  id = "cap-1";
  wallet_address = "0xab";
  user_id = none;
  cap_type = daily;
  max_subsidy_amount = whole 1000;
  current_usage = whole 700;
  usage_percentage = whole 70;
  status = active;
  warning_threshold = whole 80;
  hard_cap = whole 100;
  period_start = 0;
  period_end = 86400000;
  created_at = 0;
  last_usage_at = none;
  relayer_id = none;
  is_relayer_wallet = false;
}

abbrev grave : SuspiciousUsageFlag
grave = record {
  id = "flag-1";
  wallet_address = "0xab";
  flag_type = "unusual_amount";
  severity = 10;
  active = true;
  first_detected_at = 0;
  last_detected_at = 0;
  occurrence_count = 5;
  created_at = 0;
}

abbrev store : Store setting
store = record { caps = cap ∷ []; logs = []; alerts = []; flags = grave ∷ [] }

abbrev ids : NewIds
ids = record { log = "log-1"; rapid_flag = "flag-2"; amount_flag = "flag-3" }

abbrev usage : ℕ → SubsidyUsageRecord ℕ
usage n = record {
  wallet_address = "0xab";
  user_id = none;
  amount = whole n;
  transaction_hash = none;
  chain_id = none;
  description = none;
}

-- At ninety per cent an alert is due, at seventy-one none.
due_at_ninety : is_due setting "0xab" (counted setting 1000 ids (usage 200) store) ≡ true
unfolding update_cap_usage get_cap
due_at_ninety = refl

not_due : is_due setting "0xab" (counted setting 1000 ids (usage 10) store) ≡ false
unfolding update_cap_usage get_cap
not_due = refl

within_the_cap : reaches setting cap (whole 200) ≡ false
within_the_cap = refl

over_the_cap : reaches setting cap (whole 300) ≡ true
over_the_cap = refl

-- Two days later the period is over.
found_again : FoundAgain setting 172800000 "0xab" store
unfolding get_cap period_end
found_again c e = let same : cap ≡ c = ground arith in rw (← same) refl

check_subsidy-returns_example :
    (r : SubsidyCheckResult ℕ) × (s' : Store setting) × (check_subsidy setting 172800000 "0xab"
        (whole 900)
        store
      ≡ (ok r, s'))
    × ((turns : ℕ)
        → check_from setting (suc (suc turns)) 172800000 "0xab" (whole 900) store ≡ (ok r, s'))
check_subsidy-returns_example =
    check_subsidy-returns setting 172800000 "0xab" (whole 900) store found_again

abbrev calls : List (Call setting)
calls =
    records 4000 ids (usage 500)
    ∷ clears 3000 "flag-1"
    ∷ records 2000 ids (usage 200)
    ∷ checks 1000 "0xab" (whole 100)
    ∷ []

store-AllActive : AllActive setting store
store-AllActive i c e = ground arith

get_realtime_summary-run_example :
    (Summary.active_wallets (get_realtime_summary setting (run setting calls store))
      ≡ Summary.total_wallets (get_realtime_summary setting (run setting calls store)))
    × (Summary.exceeded_wallets (get_realtime_summary setting (run setting calls store)) ≡ 0)
get_realtime_summary-run_example = get_realtime_summary-run setting calls store store-AllActive
