-- ===== src/Spikes/Config.antt =====
-- The data of the alerts: severity.enum.ts, gas-spike.interface.ts and thresholds.ts. `N` is the type
-- of numbers.
use gas_guard.Prelude.{ℕ, String, Bool, Option, List}
use gas_guard.Numbers.{Arithmetic}

pub data Severity : Type 0 where
  info warning critical : Severity

pub data SpikeType : Type 0 where
  base_fee_percentage absolute_threshold volatility_index priority_fee_surge : SpikeType

-- A place in `[Severity.INFO, Severity.WARNING, Severity.CRITICAL]`.
abbrev pub severity_order : Severity → ℕ
severity_order info = 0
severity_order warning = 1
severity_order critical = 2

pub record GasSnapshot (N : Type 0) : Type 0 where
  pub chain_id : ℕ
  pub base_fee_gwei : N
  pub priority_fee_gwei : N
  pub timestamp : ℕ

pub record EnrichedSnapshot (N : Type 0) : Type 0 where
  pub snapshot : GasSnapshot N
  pub moving_average_base_fee : N
  pub moving_average_priority_fee : N
  pub volatility : N
  pub base_fee_percentage_change : N
  pub priority_fee_percentage_change : N

pub record ThresholdResult (N : Type 0) : Type 0 where
  pub spike_type : SpikeType
  pub severity : Severity
  pub value : N
  pub threshold : N
  pub percentage_increase : Option N

pub record AlertPayload (N : Type 0) : Type 0 where
  pub chain_id : ℕ
  pub severity : Severity
  pub spike_types : List SpikeType
  pub previous_base_fee : String
  pub current_base_fee : String
  pub previous_priority_fee : String
  pub current_priority_fee : String
  pub percentage_increase : N
  pub volatility : N
  pub timestamp : ℕ
  pub recommendation : String

pub record WebhookSubscription : Type 0 where
  pub id : String
  pub url : String
  pub chain_ids : List ℕ
  pub min_severity : Severity
  pub secret : String
  pub created_at : ℕ
  pub active : Bool

pub record Bands (A : Type 0) : Type 0 where
  pub info_from : A
  pub warning_from : A
  pub critical_from : A

pub record Thresholds (A : Type 0) : Type 0 where
  pub base_fee_percentage_bands : Bands A
  pub absolute_gwei_bands : Bands A
  pub volatility_bands : Bands A
  pub priority_fee_bands : Bands A

-- The bounds that a user overrides, for a chain or for all.
pub record CustomThresholdConfig (N : Type 0) : Type 0 where
  pub chain_id : Option ℕ
  pub bounds : Thresholds (Option N)

module _ (ar : Arithmetic) where
  open ar use {Number, literal}

  abbrev whole : ℕ → Number
  whole n = literal n 1

  unfoldable pub default_thresholds : Thresholds Number
  default_thresholds = record {
    base_fee_percentage_bands = record {
      info_from = whole 15;
      warning_from = whole 30;
      critical_from = whole 40;
    };
    absolute_gwei_bands = record {
      info_from = whole 50;
      warning_from = whole 80;
      critical_from = whole 100;
    };
    volatility_bands = record {
      info_from = literal 40 100;
      warning_from = literal 60 100;
      critical_from = literal 75 100;
    };
    priority_fee_bands = record {
      info_from = whole 30;
      warning_from = whole 70;
      critical_from = whole 100;
    };
  }

abbrev pub recommendation_for : Severity → String
recommendation_for info = "Monitor gas prices closely. Minor fluctuation detected."
recommendation_for warning = "Consider delaying non-urgent transactions or use dynamic gas pricing."
recommendation_for critical = "Pause automated transactions or switch to High tier pricing."

abbrev pub moving_average_window : ℕ
moving_average_window = 10

abbrev pub max_history_points : ℕ
max_history_points = 100

abbrev pub webhook_max_retries : ℕ
webhook_max_retries = 3

abbrev pub webhook_backoff_base_ms : ℕ
webhook_backoff_base_ms = 1000
