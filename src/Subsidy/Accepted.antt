-- ===== src/Subsidy/Accepted.antt =====
-- Which usages are recorded, and what a recorded usage does to the wallet's cap.
use gas_guard.Prelude.{
  ℕ, String, str_eq, ◌≡◌, Bool, true, false, not, ◌&&◌, Option, none, some, if◌then◌else◌,
}
use gas_guard.Storage.Repository.{Repository}
use gas_guard.Storage.Ordered.{Ordered}
use gas_guard.Subsidy.Entity.{AlertLevel, no_alert, stored_cap, stored_log}
use gas_guard.Subsidy.Store.{Setting, Store}
use gas_guard.Subsidy.Check.{Cap, get_cap, new_usage, percentage}
use gas_guard.Subsidy.Usage.{
  SubsidyUsageRecord, NewIds, new_log, used, counted as after_count, alerted, alert_level,
  waits_for,
}

module _ (g : Setting) where
  open g use {ar, column}
  open ar use {Number, le}

  -- The amount takes the wallet's cap to its hard limit or over it.
  abbrev pub reaches : Cap g → Number → Bool
  reaches c amount = le c.hard_cap (percentage g c (new_usage g c amount))

  -- What a recorded usage leaves: the cap counts the amount, the other caps stay, and the log is kept.
  abbrev pub Counted : ℕ → NewIds → SubsidyUsageRecord Number → Cap g → Store g → Store g → Type 0
  Counted now ids r c s s' =
      ((i : String)
        → Repository.find_by_id g.caps i s'.caps ≡ (
            if str_eq c.id i
            then some (stored_cap column now (some c) (used g now r.amount c))
            else Repository.find_by_id g.caps i s.caps))
      × (Repository.find_by_id g.logs ids.log s'.logs
          ≡ some (
              stored_log column now (Repository.find_by_id g.logs ids.log s.logs)
                (new_log g now ids.log r)))

  abbrev is_raised : AlertLevel → Bool
  is_raised no_alert = false
  is_raised level = true

  -- The wallet's cap is at its warning threshold or above, as texts, and no alert waits at its
  -- percentage or above.
  abbrev due_for : String → Option (Cap g) → Store g → Bool
  due_for wallet none s = false
  due_for wallet (some c) s =
      not (
        alerted g c
          (Ordered.find_latest g.alerts_ordered (waits_for g wallet) (λ a. a.timestamp) s.alerts))
      && is_raised (alert_level g c)

  abbrev pub is_due : String → Store g → Bool
  is_due wallet s = due_for wallet (get_cap g wallet s) s
