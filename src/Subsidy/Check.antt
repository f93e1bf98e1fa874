-- ===== src/Subsidy/Check.antt =====
-- The check of a wallet's subsidy: createCap, getCap, checkSubsidy, resetCapPeriod and
-- checkSuspiciousUsage of apps/api-service/src/gas-subsidy/services/gas-subsidy.service.ts.
use gas_guard.Prelude.{
  ℕ, zero, suc, String, str_eq, Bool, true, false, ◌&&◌, ◌||◌, Option, none, some, List, [], ◌∷◌,
  max, ltb, leb, or_else, if◌then◌else◌,
}
use gas_guard.Exec.{ok, return, fail, query, write, ◌>>◌}
use gas_guard.Storage.Repository.{Repository}
use gas_guard.Storage.Ordered.{Ordered}
use gas_guard.Subsidy.Entity.{
  SubsidyCapType, active, AlertLevel, no_alert, warning, critical, blocked, GasSubsidyCap,
  SuspiciousUsageFlag, stored_cap,
}
use gas_guard.Subsidy.Store.{Setting, Store, Action, period_end}

pub record CreateCapDto (Number : Type 0) : Type 0 where
  pub wallet_address : String
  pub user_id : Option String
  pub cap_type : SubsidyCapType
  pub max_subsidy_amount : Number
  pub warning_threshold : Option Number
  pub hard_cap : Option Number
  pub relayer_id : Option String
  pub is_relayer_wallet : Option Bool

pub record SubsidyCheckResult (Number : Type 0) : Type 0 where
  pub allowed : Bool
  pub remaining_subsidy : Number
  pub current_usage : Number
  pub max_subsidy : Number
  pub usage_percentage : Number
  pub alert_level : AlertLevel
  pub message : String

-- The answer of checkSuspiciousUsage.
pub record Suspicion : Type 0 where
  pub is_suspicious : Bool
  pub is_blocked : Bool
  pub highest : ℕ

abbrev highest_severity : List SuspiciousUsageFlag → ℕ
highest_severity [] = 0
highest_severity (f ∷ fs) = max f.severity (highest_severity fs)

abbrev suspicion_of : List SuspiciousUsageFlag → Suspicion
suspicion_of [] = record { is_suspicious = false; is_blocked = false; highest = 0 }
suspicion_of (f ∷ fs) = record {
  is_suspicious = true;
  is_blocked = leb 8 (highest_severity (f ∷ fs));
  highest = highest_severity (f ∷ fs);
}

module _ (g : Setting) where
  open g use {ar}
  open ar use {Number, literal, add, sub, mul, div, le, same}

  abbrev pub Cap : Type 0
  Cap = GasSubsidyCap Number

  -- `o || d`
  abbrev unless_zero : Option Number → Number → Number
  unless_zero none d = d
  unless_zero (some n) d = if same n (literal 0 1) then d else n

  abbrev pub new_cap : ℕ → String → CreateCapDto Number → Cap
  new_cap now id dto = record {
    id = id;
    wallet_address = dto.wallet_address;
    user_id = dto.user_id;
    cap_type = dto.cap_type;
    max_subsidy_amount = dto.max_subsidy_amount;
    current_usage = literal 0 1;
    usage_percentage = literal 0 1;
    status = active;
    warning_threshold = unless_zero dto.warning_threshold (literal 80 1);
    hard_cap = unless_zero dto.hard_cap (literal 100 1);
    period_start = now;
    period_end = period_end g.months dto.cap_type now;
    created_at = now;
    last_usage_at = none;
    relayer_id = dto.relayer_id;
    is_relayer_wallet = or_else dto.is_relayer_wallet false;
  }

  abbrev pub save_cap : ℕ → Cap → Store g → Store g
  save_cap now c s = record s { caps = Repository.save g.caps now c s.caps }

  -- The row that `save` leaves.
  abbrev pub kept_cap : ℕ → Cap → Store g → Cap
  kept_cap now c s = stored_cap g.column now (Repository.find_by_id g.caps c.id s.caps) c

  unfoldable pub create_cap : ℕ → String → CreateCapDto Number → Action g Cap
  create_cap now id dto s = let c = new_cap now id dto in (ok (kept_cap now c s), save_cap now c s)

  abbrev is_of : String → Cap → Bool
  is_of wallet c = str_eq c.wallet_address wallet

  -- `getCap(walletAddress)`; no call of the service names a type.
  unfoldable pub get_cap : String → Store g → Option Cap
  get_cap wallet s = Ordered.find_latest g.caps_ordered (is_of wallet) (λ c. c.created_at) s.caps

  abbrev pub reset : ℕ → Cap → Cap
  reset now c = record c {
    period_start = now;
    period_end = period_end g.months c.cap_type now;
    current_usage = literal 0 1;
    usage_percentage = literal 0 1;
    status = active;
  }

  unfoldable pub reset_cap_period : ℕ → Cap → Action g Unit
  reset_cap_period now c = write (save_cap now (reset now c)) tt

  abbrev is_active_of : String → SuspiciousUsageFlag → Bool
  is_active_of wallet f = str_eq f.wallet_address wallet && f.active

  unfoldable pub check_suspicious_usage : String → Store g → Suspicion
  check_suspicious_usage wallet s =
      suspicion_of (
        Ordered.find_sorted g.flags_ordered (is_active_of wallet) (λ f. f.last_detected_at) s.flags)

  abbrev pub new_usage : Cap → Number → Number
  new_usage c amount = add c.current_usage amount

  abbrev pub percentage : Cap → Number → Number
  percentage c usage = mul (div usage c.max_subsidy_amount) (literal 100 1)

  abbrev pub result_of : Cap → Number → Bool → AlertLevel → String → SubsidyCheckResult Number
  result_of c usage allowed level message =
      let left = sub c.max_subsidy_amount usage in
      record {
        allowed = allowed;
        remaining_subsidy = if le (literal 0 1) left then left else literal 0 1;
        current_usage = usage;
        max_subsidy = c.max_subsidy_amount;
        usage_percentage = percentage c usage;
        alert_level = level;
        message = message;
      }

  -- What the flags of a wallet change: `allowed` was true.
  abbrev with_suspicion : Suspicion → Bool × AlertLevel → Bool × AlertLevel
  with_suspicion u (allowed, level) =
      if u.is_suspicious
      then (u.is_blocked || allowed, if leb 7 u.highest then critical else level)
      else (allowed, level)

  unfoldable pub check_cap : String → Number → Cap → Store g → SubsidyCheckResult Number
  unfolding check_suspicious_usage
  check_cap wallet amount c s =
      let usage = new_usage c amount in
      let u = check_suspicious_usage wallet s in
      if le c.hard_cap (percentage c usage)
      then result_of c usage false blocked "Subsidy cap exceeded"
      else if le c.warning_threshold (percentage c usage)
      then (let (allowed, level) = with_suspicion u (true, warning) in
          result_of c usage allowed level "Approaching subsidy cap")
      else (let (allowed, level) = with_suspicion u (true, no_alert) in
          result_of c usage allowed level "Subsidy available")

  abbrev pub no_cap : SubsidyCheckResult Number
  no_cap = record {
    allowed = true;
    remaining_subsidy = literal 0 1;
    current_usage = literal 0 1;
    max_subsidy = literal 0 1;
    usage_percentage = literal 0 1;
    alert_level = no_alert;
    message = "No subsidy cap defined";
  }

  -- With the cap that was found, and the check that starts again after a reset.
  abbrev pub check_found :
      ℕ
      → String
      → Number
      → Action g (SubsidyCheckResult Number)
      → Option Cap
      → Action g (SubsidyCheckResult Number)
  check_found now wallet amount again none = return no_cap
  check_found now wallet amount again (some c) =
      if ltb c.period_end now
      then reset_cap_period now c >> again
      else query (check_cap wallet amount c)

  -- The first argument bounds how often the method calls itself.
  unfoldable pub check_from : ℕ → ℕ → String → Number → Action g (SubsidyCheckResult Number)
  unfolding reset_cap_period check_cap
  check_from zero now wallet amount s = fail "checkSubsidy calls itself without end" s
  check_from (suc turns) now wallet amount s =
      check_found now wallet amount (check_from turns now wallet amount) (get_cap wallet s) s

  -- Two turns: one may reset the period, the next finds it reset.
  unfoldable pub check_subsidy : ℕ → String → Number → Action g (SubsidyCheckResult Number)
  unfolding check_from
  check_subsidy now wallet amount = check_from 2 now wallet amount
