-- ===== src/Fees/Updates.antt =====
-- The requests of FeeConfigurationService that change a fee, at once or on a date, and the settings.
use gas_guard.Prelude.{
  ℕ, ◌+◌, String, str_append, Bool, true, false, not, ◌&&◌, Option, none, some, List, [], ◌∷◌, ◌++◌,
  Dict, get, or_else, length, ltb, leb, if◌then◌else◌,
}
use gas_guard.Numbers.{Arithmetic}
use gas_guard.Exec.{return, query, found_or, throw_if, ◌>>=◌, ◌>>◌}
use gas_guard.Http.{HttpException, bad_request, not_found}
use gas_guard.Fees.Config.{
  FeeConfiguration, FeeUpdateRequest, FeeChangeEvent, fee_created, ScheduledUpdate, ScheduledStatus,
  scheduled, executed, AdminFeeSettings, Minutes, minutes, negative, SettingsUpdate,
}
use gas_guard.Fees.Rules.{validate_fee_update, validate_new_configuration}
use gas_guard.Fees.Store.{
  Store, Action, modify, is_multisig_approval_required, get_effective_date_with_delay, publish,
  updated_configuration, apply_fee_update, schedule_fee_update, replace,
}

-- `errors.join(", ")`
unfoldable pub join : List String → String
join [] = ""
join (x ∷ []) = x
join (x ∷ y ∷ xs) = str_append x (str_append ", " (join (y ∷ xs)))

abbrev pub config_not_found : String → HttpException
config_not_found config_id =
    not_found (str_append "Fee configuration " (str_append config_id " not found"))

module _ (ar : Arithmetic) where
  open ar use {Number}

  abbrev pub find_config : String → Action ar (FeeConfiguration Number)
  find_config config_id = do
    found ← query (λ s. get config_id s.configurations)
    found_or (config_not_found config_id) found

  -- What an update passes first, by either way.
  unfoldable pub checked_config :
      String → FeeUpdateRequest Number → Action ar (FeeConfiguration Number)
  unfolding validate_fee_update join get
  checked_config config_id u = do
    settings ← query (λ s. s.settings)
    throw_if (not settings.allow_fee_updates) (bad_request "Fee updates are currently disabled")
    c ← find_config config_id
    let validation = validate_fee_update ar c u
    throw_if (not validation.is_valid)
        (bad_request (str_append "Invalid fee update: " (join validation.errors)))
    return c

  -- Where the update waits, the configuration is given back as it is.
  unfoldable pub update_configuration :
      ℕ
      → (ℕ → String)
      → String
      → FeeUpdateRequest Number
      → String
      → Action ar (FeeConfiguration Number)
  unfolding checked_config is_multisig_approval_required get_effective_date_with_delay
      apply_fee_update schedule_fee_update
  update_configuration now ids config_id u admin = do
    c ← checked_config config_id u
    settings ← query (λ s. s.settings)
    throw_if (is_multisig_approval_required ar settings c u)
        (bad_request "Large fee changes must be submitted through the multisig approval workflow.")
    let effective = get_effective_date_with_delay ar now settings u
    if ltb now effective
        then (do
          modify ar (schedule_fee_update ar now (ids 0) config_id u admin effective)
          return c)
        else (do
          modify ar (apply_fee_update ar now ids config_id c u admin)
          return (updated_configuration ar now c u))

  -- `c` has what the caller sends; its id, dates, version and creator are overwritten.
  unfoldable pub new_configuration :
      ℕ → String → FeeConfiguration Number → String → FeeConfiguration Number
  new_configuration now id c admin = record c {
    id = id;
    created_at = now;
    updated_at = now;
    version = 1;
    created_by = admin;
  }

  unfoldable pub creation_event :
      ℕ → String → FeeConfiguration Number → String → FeeChangeEvent Number
  creation_event now id c admin = record {
    id = id;
    configuration_id = c.id;
    event_type = fee_created;
    timestamp = now;
    old_configuration = none;
    new_configuration = c;
    changes = [];
    metadata = record {
      updated_by = admin;
      reason = "Initial configuration creation";
      effective_date = now;
      notify_users = false;
      version = 1;
    };
  }

  unfoldable pub create_configuration :
      ℕ → (ℕ → String) → FeeConfiguration Number → String → Action ar (FeeConfiguration Number)
  unfolding validate_new_configuration join new_configuration creation_event
  create_configuration now ids c admin = do
    let validation = validate_new_configuration ar c
    throw_if (not validation.is_valid)
        (bad_request (str_append "Invalid fee configuration: " (join validation.errors)))
    let new = new_configuration now (ids 0) c admin
    modify ar (publish ar now (ids 2) new.id new (creation_event now (ids 1) new admin) admin)
    return new

  abbrev pub is_scheduled : ScheduledStatus → Bool
  is_scheduled scheduled = true
  is_scheduled _ = false

  abbrev pub is_due : ℕ → ScheduledUpdate Number → Bool
  is_due now u = is_scheduled u.status && leb u.scheduled_at now

  abbrev pub mark_executed : ℕ → ScheduledUpdate Number → ScheduledUpdate Number
  mark_executed now u = record u { status = executed; updated_at = now }

  abbrev pub execute_found :
      ℕ
      → (ℕ → String)
      → String
      → ScheduledUpdate Number
      → Option (FeeConfiguration Number)
      → Store ar
      → List (ScheduledUpdate Number) × Store ar
  execute_found now ids key u none s = ([], s)
  execute_found now ids key u (some c) s =
      let after = apply_fee_update ar now ids u.configuration_id c u.request u.created_by s in
      let done = mark_executed now u in
      (
        done ∷ [],
        record after { scheduled_updates = replace key done.id done after.scheduled_updates },
      )

  -- One turn of the loop; the updates that were executed are listed after it.
  unfoldable pub process_one :
      ℕ
      → (ℕ → String)
      → String
      → ScheduledUpdate Number
      → Store ar
      → List (ScheduledUpdate Number) × Store ar
  unfolding get
  process_one now ids key u s =
      execute_found now ids key u (get u.configuration_id s.configurations) s

  unfoldable pub process_all :
      ℕ
      → (ℕ → String)
      → Dict (ScheduledUpdate Number)
      → Store ar
      → List (ScheduledUpdate Number) × Store ar
  unfolding process_one
  process_all now ids [] s = ([], s)
  process_all now ids ((key, u) ∷ us) s =
      let here = if is_due now u then process_one now ids key u s else ([], s) in
      let rest = process_all now (λ n. ids (n + 2)) us here.1 in (here.0 ++ rest.0, rest.1)

  unfoldable pub process_pending_scheduled_updates :
      ℕ → (ℕ → String) → Store ar → List (ScheduledUpdate Number) × Store ar
  unfolding process_all
  process_pending_scheduled_updates now ids s = process_all now ids s.scheduled_updates s

  abbrev pub minutes_of : Option Minutes → ℕ → ℕ
  minutes_of (some (minutes n)) d = n
  minutes_of _ d = d

  abbrev pub is_negative : Option Minutes → Bool
  is_negative (some negative) = true
  is_negative _ = false

  -- `{ ...this.adminSettings, ...settings }`
  unfoldable pub patched_settings :
      AdminFeeSettings Number → SettingsUpdate Number → AdminFeeSettings Number
  patched_settings old p = record {
    allow_fee_updates = or_else p.allow_fee_updates old.allow_fee_updates;
    require_approval_for_large_changes =
        or_else p.require_approval_for_large_changes old.require_approval_for_large_changes;
    large_change_threshold = or_else p.large_change_threshold old.large_change_threshold;
    approval_required_users = or_else p.approval_required_users old.approval_required_users;
    multisig_signers = or_else p.multisig_signers old.multisig_signers;
    multisig_approval_threshold =
        or_else p.multisig_approval_threshold old.multisig_approval_threshold;
    timelock_delay_minutes = minutes_of p.timelock_delay_minutes old.timelock_delay_minutes;
    default_grace_period = or_else p.default_grace_period old.default_grace_period;
    enable_user_notifications = or_else p.enable_user_notifications old.enable_user_notifications;
    notification_channels = or_else p.notification_channels old.notification_channels;
    enable_audit_log = or_else p.enable_audit_log old.enable_audit_log;
    audit_retention_days = or_else p.audit_retention_days old.audit_retention_days;
    max_fee_changes_per_day = or_else p.max_fee_changes_per_day old.max_fee_changes_per_day;
    max_fee_changes_per_hour = or_else p.max_fee_changes_per_hour old.max_fee_changes_per_hour;
  }

  abbrev pub is_unreachable : AdminFeeSettings Number → Bool
  is_unreachable st =
      ltb 0 st.multisig_approval_threshold
      && ltb (length st.multisig_signers) st.multisig_approval_threshold

  unfoldable pub update_admin_settings : SettingsUpdate Number → Action ar (AdminFeeSettings Number)
  unfolding patched_settings
  update_admin_settings p = do
    old ← query (λ s. s.settings)
    let new = patched_settings old p
    throw_if (is_unreachable new)
        (bad_request "Multisig approval threshold cannot exceed the number of configured signers.")
    throw_if (is_negative p.timelock_delay_minutes)
        (bad_request "Timelock delay must be zero or a positive number of minutes.")
    modify ar (λ s. record s { settings = new })
    return new
