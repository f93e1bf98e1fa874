-- ===== src/Subsidy/Summary.antt =====
-- The queries of GasSubsidyService: getActiveAlerts, getUsageLogs, getAllCaps and getRealtimeSummary.
use gas_guard.Prelude.{
  ℕ, String, str_eq, Bool, true, false, not, ◌&&◌, ◌||◌, Option, none, some, List, [], ◌∷◌, map,
  filter, length, take, or_else, if◌then◌else◌,
}
use gas_guard.Storage.Repository.{Repository}
use gas_guard.Storage.Ordered.{Ordered}
use gas_guard.Subsidy.Entity.{SubsidyStatus, active, suspended, exceeded, flagged}
use gas_guard.Subsidy.Store.{Setting, Store}
use gas_guard.Subsidy.Check.{Cap}
use gas_guard.Subsidy.Usage.{Log, Alert}

abbrev pub same_status : SubsidyStatus → SubsidyStatus → Bool
same_status active active = true
same_status suspended suspended = true
same_status exceeded exceeded = true
same_status flagged flagged = true
same_status _ _ = false

pub record TopConsumer (Number : Type 0) : Type 0 where
  pub wallet_address : String
  pub usage : Number
  pub percentage : Number

pub record Summary (Number : Type 0) : Type 0 where
  pub total_wallets : ℕ
  pub active_wallets : ℕ
  pub warned_wallets : ℕ
  pub exceeded_wallets : ℕ
  pub flagged_wallets : ℕ
  pub total_usage : Number
  pub top_consumers : List (TopConsumer Number)

-- `if (walletAddress) where.walletAddress = walletAddress`, and the like
abbrev asked : Option String → String → Bool
asked none wallet = true
asked (some w) wallet = str_eq w "" || str_eq wallet w

module _ (g : Setting) where
  open g use {ar, text_le}
  open ar use {Number, literal, add, lt}

  unfoldable pub get_active_alerts : Option String → Store g → List (Alert g)
  get_active_alerts wallet s =
      Ordered.find_sorted g.alerts_ordered
        (λ a. not a.acknowledged && asked wallet a.wallet_address) (λ a. a.timestamp) s.alerts

  unfoldable pub get_usage_logs : String → Option ℕ → Store g → List (Log g)
  get_usage_logs wallet limit s =
      Ordered.take_latest g.logs_ordered (or_else limit 100) (λ l. str_eq l.wallet_address wallet)
        (λ l. l.timestamp) s.logs

  abbrev has_status : Option SubsidyStatus → Cap g → Bool
  has_status none c = true
  has_status (some t) c = same_status c.status t

  unfoldable pub get_all_caps : Option SubsidyStatus → Store g → List (Cap g)
  get_all_caps status s =
      Ordered.find_sorted g.caps_ordered (has_status status) (λ c. c.created_at) s.caps

  abbrev total_from : Number → List (Cap g) → Number
  total_from sum [] = sum
  total_from sum (c ∷ cs) = total_from (add sum c.current_usage) cs

  -- `sort((a, b) => Number(b.currentUsage) - Number(a.currentUsage))`, the greatest usage first
  abbrev insert : Cap g → List (Cap g) → List (Cap g)
  insert c [] = c ∷ []
  insert c (d ∷ ds) = if lt c.current_usage d.current_usage then d ∷ insert c ds else c ∷ d ∷ ds

  abbrev by_usage : List (Cap g) → List (Cap g)
  by_usage [] = []
  by_usage (c ∷ cs) = insert c (by_usage cs)

  abbrev consumer : Cap g → TopConsumer Number
  consumer c = record {
    wallet_address = c.wallet_address;
    usage = c.current_usage;
    percentage = c.usage_percentage;
  }

  -- The columns are compared as texts.
  abbrev is_warned : Cap g → Bool
  is_warned c =
      text_le c.warning_threshold c.usage_percentage && not (text_le c.hard_cap c.usage_percentage)

  abbrev pub summary_of : List (Cap g) → ℕ → Summary Number
  summary_of caps flagged_count = record {
    total_wallets = length caps;
    active_wallets = length (filter (λ (c : Cap g). same_status c.status active) caps);
    warned_wallets = length (filter is_warned caps);
    exceeded_wallets = length (filter (λ (c : Cap g). same_status c.status exceeded) caps);
    flagged_wallets = flagged_count;
    total_usage = total_from (literal 0 1) caps;
    top_consumers = map consumer (take 10 (by_usage caps));
  }

  unfoldable pub get_realtime_summary : Store g → Summary Number
  get_realtime_summary s =
      summary_of (Repository.find g.caps (λ c. true) s.caps)
        (Repository.count g.flags (λ f. f.active) s.flags)
