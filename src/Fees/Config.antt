-- ===== src/Fees/Config.antt =====
-- The data of the fee configuration:
-- apps/api-service/src/gas-estimation/interfaces/fee-config.interface.ts. `N` is the type of numbers.
-- A field that a request may leave out is an `Option`. Times are milliseconds.
use gas_guard.Prelude.{ℕ, String, Bool, Option, List}

pub record Tiers (A : Type 0) : Type 0 where
  pub starter : A
  pub developer : A
  pub professional : A
  pub enterprise : A

pub record FeeConfiguration (N : Type 0) : Type 0 where
  pub id : String
  pub name : String
  pub description : String
  pub base_price_per_request : N
  pub currency : String
  pub tier_multipliers : Tiers N
  pub discount_percentages : Tiers N
  pub minimum_fee : N
  pub maximum_fee : N
  pub rate_limits : Tiers N
  pub request_limits : Tiers N
  pub is_active : Bool
  pub created_at : ℕ
  pub updated_at : ℕ
  pub created_by : String
  pub version : ℕ

pub record FeeUpdateRequest (N : Type 0) : Type 0 where
  pub base_price_per_request : Option N
  pub tier_multipliers : Option (Tiers (Option N))
  pub discount_percentages : Option (Tiers (Option N))
  pub minimum_fee : Option N
  pub maximum_fee : Option N
  pub rate_limits : Option (Tiers (Option N))
  pub request_limits : Option (Tiers (Option N))
  pub reason : String
  pub effective_date : Option ℕ
  pub notify_users : Option Bool

pub data EventType : Type 0 where
  fee_updated fee_created : EventType

pub record FeeChange (N : Type 0) : Type 0 where
  pub field : String
  pub tier : Option String
  pub old_value : N
  pub new_value : N

pub record ChangeMetadata : Type 0 where
  pub updated_by : String
  pub reason : String
  pub effective_date : ℕ
  pub notify_users : Bool
  pub version : ℕ

pub record FeeChangeEvent (N : Type 0) : Type 0 where
  pub id : String
  pub configuration_id : String
  pub event_type : EventType
  pub timestamp : ℕ
  pub old_configuration : Option (FeeConfiguration N)
  pub new_configuration : FeeConfiguration N
  pub changes : List (FeeChange N)
  pub metadata : ChangeMetadata

pub record Impact (N : Type 0) : Type 0 where
  pub affected_users : ℕ
  pub price_increase_percentage : N
  pub price_decrease_percentage : N

pub record FeeValidationResult (N : Type 0) : Type 0 where
  pub is_valid : Bool
  pub errors : List String
  pub warnings : List String
  pub impact : Impact N

pub data ApprovalStatus : Type 0 where
  pending approved rejected : ApprovalStatus

pub record ApprovalRequest (N : Type 0) : Type 0 where
  pub id : String
  pub configuration_id : String
  pub requested_by : String
  pub request : FeeUpdateRequest N
  pub required_signers : List String
  pub approvals : List String
  pub rejections : List String
  pub threshold : ℕ
  pub status : ApprovalStatus
  pub created_at : ℕ
  pub updated_at : ℕ
  pub reason : String
  pub effective_date : ℕ
  pub notify_users : Bool

pub data ScheduledStatus : Type 0 where
  scheduled executed cancelled : ScheduledStatus

pub record ScheduledUpdate (N : Type 0) : Type 0 where
  pub id : String
  pub configuration_id : String
  pub request : FeeUpdateRequest N
  pub created_by : String
  pub scheduled_at : ℕ
  pub status : ScheduledStatus
  pub created_at : ℕ
  pub updated_at : ℕ

pub record HistoryEntry (N : Type 0) : Type 0 where
  pub id : String
  pub configuration_id : String
  pub version : ℕ
  pub configuration : FeeConfiguration N
  pub change_event : FeeChangeEvent N
  pub created_at : ℕ
  pub created_by : String

pub record AdminFeeSettings (N : Type 0) : Type 0 where
  pub allow_fee_updates : Bool
  pub require_approval_for_large_changes : Bool
  pub large_change_threshold : N
  pub approval_required_users : List String
  pub multisig_signers : List String
  pub multisig_approval_threshold : ℕ
  pub timelock_delay_minutes : ℕ
  pub default_grace_period : ℕ
  pub enable_user_notifications : Bool
  pub notification_channels : List String
  pub enable_audit_log : Bool
  pub audit_retention_days : ℕ
  pub max_fee_changes_per_day : ℕ
  pub max_fee_changes_per_hour : ℕ

-- A number of minutes that an administrator sends.
pub data Minutes : Type 0 where
  minutes : ℕ → Minutes
  negative : Minutes

-- `Partial<AdminFeeSettings>`. A threshold below zero acts as zero.
pub record SettingsUpdate (N : Type 0) : Type 0 where
  pub allow_fee_updates : Option Bool
  pub require_approval_for_large_changes : Option Bool
  pub large_change_threshold : Option N
  pub approval_required_users : Option (List String)
  pub multisig_signers : Option (List String)
  pub multisig_approval_threshold : Option ℕ
  pub timelock_delay_minutes : Option Minutes
  pub default_grace_period : Option ℕ
  pub enable_user_notifications : Option Bool
  pub notification_channels : Option (List String)
  pub enable_audit_log : Option Bool
  pub audit_retention_days : Option ℕ
  pub max_fee_changes_per_day : Option ℕ
  pub max_fee_changes_per_hour : Option ℕ
