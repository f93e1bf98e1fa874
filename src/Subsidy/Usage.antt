-- ===== src/Subsidy/Usage.antt =====
-- The record of a wallet's usage, its alerts and its flags: recordUsage and what it calls,
-- acknowledgeAlert, clearSuspiciousFlag and the queries of
-- apps/api-service/src/gas-subsidy/services/gas-subsidy.service.ts.
use gas_guard.Prelude.{
  ℕ, ◌+◌, ◌*◌, String, str_eq, Bool, true, false, not, ◌&&◌, Option, none, some, List, [], ◌∷◌, ltb,
  leb, filter, length, if◌then◌else◌,
}
use gas_guard.Exec.{ok, return, fail, write, throw_if, ◌>>=◌, ◌>>◌}
use gas_guard.Storage.Repository.{Repository}
use gas_guard.Storage.Ordered.{Ordered}
use gas_guard.Subsidy.Entity.{
  active, exceeded, AlertLevel, no_alert, warning, critical, GasSubsidyUsageLog, GasSubsidyAlert,
  SuspiciousUsageFlag, stored_alert, stored_flag,
}
use gas_guard.Subsidy.Store.{Setting, Store, Action}
use gas_guard.Subsidy.Check.{
  Cap, get_cap, save_cap, percentage, new_usage, SubsidyCheckResult, check_subsidy,
}

pub record SubsidyUsageRecord (Number : Type 0) : Type 0 where
  pub wallet_address : String
  pub user_id : Option String
  pub amount : Number
  pub transaction_hash : Option String
  pub chain_id : Option String
  pub description : Option String

-- The ids that the database gives to new rows.
pub record NewIds : Type 0 where
  pub log : String
  pub rapid_flag : String
  pub amount_flag : String

abbrev pub hour : ℕ
hour = 60 * 60 * 1000

-- `Math.min(10, n)`
abbrev at_most_ten : ℕ → ℕ
at_most_ten n = if leb n 10 then n else 10

abbrev pub new_flag : ℕ → String → String → String → ℕ → SuspiciousUsageFlag
new_flag now id wallet kind severity = record {
  id = id;
  wallet_address = wallet;
  flag_type = kind;
  severity = severity;
  active = true;
  first_detected_at = now;
  last_detected_at = now;
  occurrence_count = 1;
  created_at = now;
}

abbrev pub seen_again : ℕ → SuspiciousUsageFlag → SuspiciousUsageFlag
seen_again now f = record f {
  last_detected_at = now;
  occurrence_count = f.occurrence_count + 1;
  severity = at_most_ten (f.severity + 1);
}

module _ (g : Setting) where
  open g use {ar, text_le}
  open ar use {Number, literal, add, mul, div, le, lt}

  abbrev pub Log : Type 0
  Log = GasSubsidyUsageLog Number

  abbrev pub Alert : Type 0
  Alert = GasSubsidyAlert Number

  abbrev pub new_log : ℕ → String → SubsidyUsageRecord Number → Log
  new_log now id r = record {
    id = id;
    wallet_address = r.wallet_address;
    user_id = r.user_id;
    amount = r.amount;
    transaction_hash = r.transaction_hash;
    chain_id = r.chain_id;
    description = r.description;
    timestamp = now;
    created_at = now;
  }

  abbrev pub save_log : ℕ → Log → Store g → Store g
  save_log now l s = record s { logs = Repository.save g.logs now l s.logs }

  abbrev pub save_alert : ℕ → Alert → Store g → Store g
  save_alert now a s = record s { alerts = Repository.save g.alerts now a s.alerts }

  abbrev pub save_flag : ℕ → SuspiciousUsageFlag → Store g → Store g
  save_flag now f s = record s { flags = Repository.save g.flags now f s.flags }

  -- A cap after a usage.
  abbrev pub used : ℕ → Number → Cap g → Cap g
  used now amount c =
      let usage = new_usage g c amount in
      record c {
        current_usage = usage;
        usage_percentage = percentage g c usage;
        last_usage_at = some now;
        status =
            if le c.hard_cap (percentage g c usage)
            then exceeded
            else if le c.warning_threshold (percentage g c usage)
            then active
            else c.status;
      }

  abbrev pub update_found : ℕ → Number → Option (Cap g) → Store g → Store g
  update_found now amount none s = s
  update_found now amount (some c) s = save_cap g now (used now amount c) s

  unfoldable pub update_cap_usage : ℕ → String → Number → Store g → Store g
  update_cap_usage now wallet amount s = update_found now amount (get_cap g wallet s) s

  -- What is read back from the columns is compared as texts.
  abbrev pub alert_level : Cap g → AlertLevel
  alert_level c =
      if text_le c.hard_cap c.usage_percentage
      then critical
      else if text_le c.warning_threshold c.usage_percentage
      then warning
      else no_alert

  -- The message of an alert calls `toFixed` of the percentage, which was read back as a text: where an
  -- alert is due, a TypeError is thrown in its place.
  abbrev pub raise_alert : AlertLevel → Action g Unit
  raise_alert no_alert = return tt
  raise_alert level = fail "cap.usagePercentage.toFixed is not a function"

  -- An alert that waits at this percentage or above it.
  abbrev pub alerted : Cap g → Option Alert → Bool
  alerted c none = false
  alerted c (some a) = text_le c.usage_percentage a.usage_percentage

  abbrev pub waits_for : String → Alert → Bool
  waits_for wallet a = str_eq a.wallet_address wallet && not a.acknowledged

  abbrev pub alert_found : String → Option (Cap g) → Action g Unit
  alert_found wallet none s = (ok tt, s)
  alert_found wallet (some c) s =
      if alerted c
        (Ordered.find_latest g.alerts_ordered (waits_for wallet) (λ a. a.timestamp) s.alerts)
      then (ok tt, s)
      else raise_alert (alert_level c) s

  unfoldable pub check_and_create_alerts : String → Action g Unit
  check_and_create_alerts wallet s = alert_found wallet (get_cap g wallet s) s

  abbrev pub is_kind : String → String → SuspiciousUsageFlag → Bool
  is_kind wallet kind f = str_eq f.wallet_address wallet && (str_eq f.flag_type kind && f.active)

  abbrev pub flag_found :
      ℕ → String → String → String → ℕ → Option SuspiciousUsageFlag → Store g → Store g
  flag_found now id wallet kind severity none s =
      save_flag now (new_flag now id wallet kind severity) s
  flag_found now id wallet kind severity (some f) s = save_flag now (seen_again now f) s

  unfoldable pub flag_usage : ℕ → String → String → String → ℕ → Store g → Store g
  flag_usage now id wallet kind severity s =
      flag_found now id wallet kind severity
        (Repository.find_one g.flags (is_kind wallet kind) s.flags) s

  abbrev total : Number → List Log → Number
  total sum [] = sum
  total sum (l ∷ ls) = total (add sum l.amount) ls

  abbrev pub recent_count : ℕ → List Log → ℕ
  recent_count now ls = length (filter (λ l. ltb now (l.timestamp + hour)) ls)

  -- Ten times the average of the logs.
  abbrev pub ten_averages : List Log → Number
  ten_averages ls = mul (div (total (literal 0 1) ls) (literal (length ls) 1)) (literal 10 1)

  abbrev pub recent_logs : String → Store g → List Log
  recent_logs wallet s =
      Ordered.take_latest g.logs_ordered 10 (λ l. str_eq l.wallet_address wallet) (λ l. l.timestamp)
        s.logs

  abbrev pub flag_rapid : ℕ → String → String → List Log → Store g → Store g
  flag_rapid now id wallet ls s =
      if ltb 50 (recent_count now ls) then flag_usage now id wallet "rapid_transactions" 8 s else s

  abbrev pub flag_amount : ℕ → String → String → Number → List Log → Store g → Store g
  flag_amount now id wallet amount [] s = s
  flag_amount now id wallet amount (l ∷ ls) s =
      if lt (ten_averages (l ∷ ls)) amount then flag_usage now id wallet "unusual_amount" 6 s else s

  unfoldable pub analyze_and_flag : ℕ → NewIds → SubsidyUsageRecord Number → Store g → Store g
  analyze_and_flag now ids r s =
      let ls = recent_logs r.wallet_address s in
      flag_amount now ids.amount_flag r.wallet_address r.amount ls
        (flag_rapid now ids.rapid_flag r.wallet_address ls s)

  -- The log is saved and the cap counts the amount.
  abbrev pub counted : ℕ → NewIds → SubsidyUsageRecord Number → Store g → Store g
  counted now ids r s =
      update_cap_usage now r.wallet_address r.amount (save_log now (new_log now ids.log r) s)

  -- What follows the check.
  unfoldable pub recorded : ℕ → NewIds → SubsidyUsageRecord Number → Action g Log
  unfolding update_cap_usage check_and_create_alerts analyze_and_flag
  recorded now ids r = do
    write (counted now ids r) tt
    check_and_create_alerts r.wallet_address
    write (analyze_and_flag now ids r) (new_log now ids.log r)

  -- With the answer of the check.
  abbrev pub decide :
      ℕ → NewIds → SubsidyUsageRecord Number → SubsidyCheckResult Number → Action g Log
  decide now ids r result = do
    throw_if (not result.allowed) "Subsidy not available for wallet"
    recorded now ids r

  unfoldable pub record_usage : ℕ → NewIds → SubsidyUsageRecord Number → Action g Log
  unfolding recorded
  record_usage now ids r = do
    result ← check_subsidy g now r.wallet_address r.amount
    decide now ids r result

  abbrev acknowledged_alert : ℕ → String → Alert → Alert
  acknowledged_alert now by a = record a {
    acknowledged = true;
    acknowledged_at = some now;
    acknowledged_by = some by;
  }

  abbrev pub acknowledge_found : ℕ → String → Option Alert → Action g Alert
  acknowledge_found now by none = fail "Alert not found"
  acknowledge_found now by (some a) =
      let b = acknowledged_alert now by a in
      write (save_alert now b) (stored_alert g.column now (some a) b)

  unfoldable pub acknowledge_alert : ℕ → String → String → Action g Alert
  acknowledge_alert now id by s =
      acknowledge_found now by (Repository.find_by_id g.alerts id s.alerts) s

  abbrev pub clear_found : ℕ → Option SuspiciousUsageFlag → Action g SuspiciousUsageFlag
  clear_found now none = fail "Flag not found"
  clear_found now (some f) =
      let b = record f { active = false } in write (save_flag now b) (stored_flag now (some f) b)

  unfoldable pub clear_suspicious_flag : ℕ → String → Action g SuspiciousUsageFlag
  clear_suspicious_flag now id s = clear_found now (Repository.find_by_id g.flags id s.flags) s
