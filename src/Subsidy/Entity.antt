-- ===== src/Subsidy/Entity.antt =====
-- The tables of the gas subsidy: apps/api-service/src/gas-subsidy/entities/gas-subsidy.entity.ts. A decimal
-- column is kept by `column scale`, which may round; PostgreSQL gives it back as a text, which
-- `Number(…)` and a comparison with a number read as that number.
use gas_guard.Prelude.{ℕ, String, Bool, Option, none, some}

pub data SubsidyCapType : Type 0 where
  daily weekly monthly lifetime : SubsidyCapType

pub data SubsidyStatus : Type 0 where
  active suspended exceeded flagged : SubsidyStatus

pub data AlertLevel : Type 0 where
  no_alert warning critical blocked : AlertLevel

module _ (Number : Type 0) where
  pub record GasSubsidyCap : Type 0 where
    pub id : String
    pub wallet_address : String
    pub user_id : Option String
    pub cap_type : SubsidyCapType
    pub max_subsidy_amount : Number
    pub current_usage : Number
    pub usage_percentage : Number
    pub status : SubsidyStatus
    pub warning_threshold : Number
    pub hard_cap : Number
    pub period_start : ℕ
    pub period_end : ℕ
    pub created_at : ℕ
    pub last_usage_at : Option ℕ
    pub relayer_id : Option String
    pub is_relayer_wallet : Bool

  pub record GasSubsidyUsageLog : Type 0 where
    pub id : String
    pub wallet_address : String
    pub user_id : Option String
    pub amount : Number
    pub transaction_hash : Option String
    pub chain_id : Option String
    pub description : Option String
    pub timestamp : ℕ
    pub created_at : ℕ

  -- The text of an alert tells its percentage, and is left out.
  pub record GasSubsidyAlert : Type 0 where
    pub id : String
    pub wallet_address : String
    pub user_id : Option String
    pub alert_level : AlertLevel
    pub current_usage : Number
    pub max_subsidy : Number
    pub usage_percentage : Number
    pub acknowledged : Bool
    pub acknowledged_at : Option ℕ
    pub acknowledged_by : Option String
    pub timestamp : ℕ
    pub created_at : ℕ

-- What a flag is for, without its description.
pub record SuspiciousUsageFlag : Type 0 where
  pub id : String
  pub wallet_address : String
  pub flag_type : String
  pub severity : ℕ
  pub active : Bool
  pub first_detected_at : ℕ
  pub last_detected_at : ℕ
  pub occurrence_count : ℕ
  pub created_at : ℕ

-- A new row is made now; another keeps its date.
abbrev pub creation : {E : Type 0} → (E → ℕ) → ℕ → Option E → ℕ
creation date now none = now
creation date now (some old) = date old

-- What the tables keep of a row that is saved.
module _ {Number : Type 0} (column : ℕ → Number → Number) where
  abbrev pub stored_cap :
      ℕ → Option (GasSubsidyCap Number) → GasSubsidyCap Number → GasSubsidyCap Number
  stored_cap now old c = record c {
    max_subsidy_amount = column 0 c.max_subsidy_amount;
    current_usage = column 0 c.current_usage;
    usage_percentage = column 2 c.usage_percentage;
    warning_threshold = column 2 c.warning_threshold;
    hard_cap = column 2 c.hard_cap;
    created_at = creation (λ (o : GasSubsidyCap Number). o.created_at) now old;
  }

  abbrev pub stored_log :
      ℕ → Option (GasSubsidyUsageLog Number) → GasSubsidyUsageLog Number → GasSubsidyUsageLog Number
  stored_log now old l = record l {
    amount = column 0 l.amount;
    created_at = creation (λ (o : GasSubsidyUsageLog Number). o.created_at) now old;
  }

  abbrev pub stored_alert :
      ℕ → Option (GasSubsidyAlert Number) → GasSubsidyAlert Number → GasSubsidyAlert Number
  stored_alert now old a = record a {
    current_usage = column 0 a.current_usage;
    max_subsidy = column 0 a.max_subsidy;
    usage_percentage = column 2 a.usage_percentage;
    created_at = creation (λ (o : GasSubsidyAlert Number). o.created_at) now old;
  }

abbrev pub stored_flag : ℕ → Option SuspiciousUsageFlag → SuspiciousUsageFlag → SuspiciousUsageFlag
stored_flag now old f = record f {
  created_at = creation (λ (o : SuspiciousUsageFlag). o.created_at) now old;
}

abbrev pub flag_id : SuspiciousUsageFlag → String
flag_id f = f.id

module _ {Number : Type 0} where
  abbrev pub cap_id : GasSubsidyCap Number → String
  cap_id c = c.id

  abbrev pub log_id : GasSubsidyUsageLog Number → String
  log_id l = l.id

  abbrev pub alert_id : GasSubsidyAlert Number → String
  alert_id a = a.id
