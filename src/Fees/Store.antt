-- ===== src/Fees/Store.antt =====
-- The state of FeeConfigurationService, its first value, and the two writes that others share.
use gas_guard.Prelude.{
  ℕ, ◌+◌, ◌*◌, String, Bool, true, ◌&&◌, some, List, [], ◌∷◌, ◌++◌, Dict, put, or_else, length, ltb,
  if◌then◌else◌,
}
use gas_guard.Numbers.{Arithmetic}
use gas_guard.Exec.{Exec, ok}
use gas_guard.Http.{HttpException}
use gas_guard.Fees.Config.{
  FeeConfiguration, FeeUpdateRequest, FeeChangeEvent, fee_updated, HistoryEntry, ApprovalRequest,
  ScheduledUpdate, scheduled, AdminFeeSettings,
}
use gas_guard.Fees.Rules.{apply_update_request, detect_changes, check_if_approval_required}

-- An entry is changed in place, and set again under the id that it carries.
abbrev pub replace : {V : Type 0} → String → String → V → Dict V → Dict V
replace key id v m = put id v (put key v m)

module _ (ar : Arithmetic) where
  open ar use {Number, literal}

  pub record Store : Type 0 where
    pub configurations : Dict (FeeConfiguration Number)
    pub history : List (HistoryEntry Number)
    pub fee_events : List (FeeChangeEvent Number)
    pub pending_approvals : Dict (ApprovalRequest Number)
    pub scheduled_updates : Dict (ScheduledUpdate Number)
    pub settings : AdminFeeSettings Number

  abbrev pub Action : Type 0 → Type 0
  Action A = Exec HttpException Store A

  abbrev pub modify : (Store → Store) → Action Unit
  modify f s = (ok tt, f s)

  abbrev whole : ℕ → Number
  whole n = literal n 1

  unfoldable pub default_configuration : ℕ → FeeConfiguration Number
  default_configuration now = record {
    id = "default";
    name = "Default GasGuard Pricing";
    description = "Default fee configuration for GasGuard services";
    base_price_per_request = literal 1 100000;
    currency = "XLM";
    tier_multipliers = record {
      starter = whole 1;
      developer = literal 8 10;
      professional = literal 6 10;
      enterprise = literal 4 10;
    };
    discount_percentages = record {
      starter = whole 0;
      developer = whole 20;
      professional = whole 40;
      enterprise = whole 60;
    };
    minimum_fee = literal 1 1000000;
    maximum_fee = whole 0;
    rate_limits = record {
      starter = whole 10;
      developer = whole 30;
      professional = whole 100;
      enterprise = whole 1000;
    };
    request_limits = record {
      starter = whole 1000;
      developer = whole 10000;
      professional = whole 100000;
      enterprise = ar.sub (whole 0) (whole 1);
    };
    is_active = true;
    created_at = now;
    updated_at = now;
    created_by = "system";
    version = 1;
  }

  unfoldable pub initial_settings : AdminFeeSettings Number
  initial_settings = record {
    allow_fee_updates = true;
    require_approval_for_large_changes = true;
    large_change_threshold = whole 25;
    approval_required_users = [];
    multisig_signers = [];
    multisig_approval_threshold = 2;
    timelock_delay_minutes = 60;
    default_grace_period = 7;
    enable_user_notifications = true;
    notification_channels = "email" ∷ "in-app" ∷ [];
    enable_audit_log = true;
    audit_retention_days = 365;
    max_fee_changes_per_day = 10;
    max_fee_changes_per_hour = 2;
  }

  -- The constructor.
  unfoldable pub initial : ℕ → Store
  unfolding default_configuration initial_settings
  initial now = record {
    configurations = ("default", default_configuration now) ∷ [];
    history = [];
    fee_events = [];
    pending_approvals = [];
    scheduled_updates = [];
    settings = initial_settings;
  }

  unfoldable pub is_multisig_enabled : AdminFeeSettings Number → Bool
  is_multisig_enabled st =
      st.require_approval_for_large_changes
      && (ltb 0 (length st.multisig_signers) && ltb 1 st.multisig_approval_threshold)

  unfoldable pub is_multisig_approval_required :
      AdminFeeSettings Number → FeeConfiguration Number → FeeUpdateRequest Number → Bool
  unfolding is_multisig_enabled
  is_multisig_approval_required st c u =
      is_multisig_enabled st && check_if_approval_required ar st c u

  -- The date that was asked for, but no sooner than the timelock.
  abbrev later_of : ℕ → ℕ → ℕ
  later_of minimum requested = if ltb requested minimum then minimum else requested

  unfoldable pub get_effective_date_with_delay :
      ℕ → AdminFeeSettings Number → FeeUpdateRequest Number → ℕ
  get_effective_date_with_delay now st u =
      let minimum = now + st.timelock_delay_minutes * 60 * 1000 in
      later_of minimum (or_else u.effective_date minimum)

  -- The event of an update; `id` is its generated id.
  unfoldable pub update_event :
      ℕ
      → String
      → String
      → FeeConfiguration Number
      → FeeConfiguration Number
      → FeeUpdateRequest Number
      → String
      → FeeChangeEvent Number
  update_event now id config_id old new u admin = record {
    id = id;
    configuration_id = config_id;
    event_type = fee_updated;
    timestamp = now;
    old_configuration = some old;
    new_configuration = new;
    changes = detect_changes ar old new;
    metadata = record {
      updated_by = admin;
      reason = u.reason;
      effective_date = or_else u.effective_date now;
      notify_users = or_else u.notify_users true;
      version = new.version;
    };
  }

  unfoldable pub updated_configuration :
      ℕ → FeeConfiguration Number → FeeUpdateRequest Number → FeeConfiguration Number
  updated_configuration now c u = record (apply_update_request c u) {
    updated_at = now;
    version = c.version + 1;
  }

  -- A configuration is stored with its entry of the history and its event.
  abbrev pub publish :
      ℕ → String → String → FeeConfiguration Number → FeeChangeEvent Number → String → Store → Store
  publish now id config_id c event admin s = record s {
    configurations = put config_id c s.configurations;
    history =
        s.history
        ++ record {
          id = id;
          configuration_id = config_id;
          version = c.version;
          configuration = c;
          change_event = event;
          created_at = now;
          created_by = admin;
        }
          ∷ [];
    fee_events = s.fee_events ++ event ∷ [];
  }

  -- `ids` are the ids that `generateId` gives, in order.
  unfoldable pub apply_fee_update :
      ℕ
      → (ℕ → String)
      → String
      → FeeConfiguration Number
      → FeeUpdateRequest Number
      → String
      → Store
      → Store
  unfolding updated_configuration update_event
  apply_fee_update now ids config_id c u admin s =
      let new = updated_configuration now c u in
      publish now (ids 1) config_id new (update_event now (ids 0) config_id c new u admin) admin s

  unfoldable pub schedule_fee_update :
      ℕ → String → String → FeeUpdateRequest Number → String → ℕ → Store → Store
  schedule_fee_update now id config_id u admin at s = record s {
    scheduled_updates =
        put id
          (record {
            id = id;
            configuration_id = config_id;
            request = u;
            created_by = admin;
            scheduled_at = at;
            status = scheduled;
            created_at = now;
            updated_at = now;
          })
          s.scheduled_updates;
  }
