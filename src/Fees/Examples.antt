-- ===== src/Fees/Examples.antt =====
-- The theorems on fees at a concrete service: two signers, a delay of an hour, and a price that is
-- doubled.
use mathlib.Core.List.{Perm}
use gas_guard.Prelude.{
  ℕ, String, ◌≡◌, refl, Option, none, some, List, [], ◌∷◌, ◌++◌, get, put, arith, Every,
}
use gas_guard.Numbers.{fixed}
use gas_guard.Fees.Config.{
  FeeConfiguration, FeeUpdateRequest, SettingsUpdate, ApprovalRequest, HistoryEntry, approved,
}
use gas_guard.Fees.Store.{
  Store, initial, initial_settings, default_configuration, get_effective_date_with_delay,
}
use gas_guard.Fees.Rules.{check_if_approval_required, apply_update_request}
use gas_guard.Fees.Updates.{
  process_pending_scheduled_updates, update_admin_settings, update_configuration,
}
use gas_guard.Fees.Approvals.{new_request, approve_approval_request, create_approval_request}
use gas_guard.Fees.Steps.{
  Request, step, creates, reads_history, updates, asks, approves, processes, configures,
}
use gas_guard.Fees.Runs.{Turn, run}
use gas_guard.Fees.Quorum.{IsSound, run-quorum}
use gas_guard.Fees.Audit.{replay, events_of, run-replay, run-Reordered}
use gas_guard.Fees.Prices.{HasPrice}
use gas_guard.Fees.Priced.{run-HasPrice}
use gas_guard.Fees.Timelock.{run-timelock}
use gas_guard.Fees.Approval.{signings, signings-approve}

abbrev doubled : FeeUpdateRequest ℕ
doubled = record {
  base_price_per_request = some 200;
  tier_multipliers = none;
  discount_percentages = none;
  minimum_fee = none;
  maximum_fee = none;
  rate_limits = none;
  request_limits = none;
  reason = "costs";
  effective_date = none;
  notify_users = none;
}

abbrev dated : FeeUpdateRequest ℕ
dated = record doubled { effective_date = some 2000 }

abbrev two_signers : SettingsUpdate ℕ
two_signers = record {
  allow_fee_updates = none;
  require_approval_for_large_changes = none;
  large_change_threshold = none;
  approval_required_users = none;
  multisig_signers = some ("ann" ∷ "bob" ∷ []);
  multisig_approval_threshold = none;
  timelock_delay_minutes = none;
  default_grace_period = none;
  enable_user_notifications = none;
  notification_channels = none;
  enable_audit_log = none;
  audit_retention_days = none;
  max_fee_changes_per_day = none;
  max_fee_changes_per_hour = none;
}

abbrev turn : ℕ → String → Request ℕ → Turn ℕ
turn now id request = record { now = now; ids = λ n. id; request = request }

abbrev first_hour : List (Turn ℕ)
first_hour =
    turn 1000 "a" (updates "default" dated "ann")
    ∷ turn 2000 "b" processes
    ∷ turn 3000 "c" (configures two_signers)
    ∷ turn 4000 "d" (asks "default" dated "ann")
    ∷ turn 5000 "e" (approves "d" "bob")
    ∷ []

abbrev two_days : List (Turn ℕ)
two_days = first_hour ++ turn 90000000 "f" processes ∷ []

run-replay_example :
    let s = run fixed two_days (initial fixed 0) in
    (s.configurations ≡ replay s.history (initial fixed 0).configurations)
    × (s.fee_events ≡ events_of s.history)
run-replay_example = run-replay fixed 0 two_days (refl, (refl, (refl, (refl, (refl, (refl, tt))))))

-- The history is read without a filter, and is sorted.
abbrev read_and_changed : List (Turn ℕ)
read_and_changed =
    two_days
    ++ turn 90000001 "g" (creates (default_configuration fixed 0) "ann")
      ∷ turn 90000002 "h" (reads_history none)
      ∷ []

run-Reordered_example :
    let s = run fixed read_and_changed (initial fixed 0) in
    (hs : List (HistoryEntry ℕ)) × (s.configurations ≡ replay hs (initial fixed 0).configurations)
    × Perm s.history hs
    × Perm s.fee_events (events_of hs)
run-Reordered_example = run-Reordered fixed 0 read_and_changed

run-quorum_example : Every (IsSound fixed) (run fixed two_days (initial fixed 0)).pending_approvals
run-quorum_example = run-quorum fixed 0 two_days

run-timelock_example :
    get "default" (run fixed first_hour (initial fixed 0)).configurations
    ≡ get "default" (initial fixed 0).configurations
unfolding initial initial_settings
run-timelock_example =
    run-timelock fixed 0 60 "default" first_hour (initial fixed 0) (omega arith, tt, tt)
      (
        ((2000, refl), tt, omega arith, omega arith),
        (
          (tt, tt, omega arith, omega arith),
          (
            (tt, tt, omega arith, omega arith),
            (
              ((2000, refl), tt, omega arith, omega arith),
              ((tt, tt, omega arith, omega arith), tt),
            ),
          ),
        ),
      )

abbrev service : Store fixed
service = record (initial fixed 0) {
  settings = record (initial_settings fixed) { multisig_signers = "ann" ∷ "bob" ∷ "cy" ∷ [] };
}

abbrev request : ApprovalRequest ℕ
request = new_request fixed 0 "d" "default" doubled "ann" service.settings

abbrev asked : Store fixed
asked = record service { pending_approvals = ("d", request) ∷ [] }

signings-approve_example :
    (r : ApprovalRequest ℕ) × (get "d"
        (run fixed (signings fixed 9000 (λ n. "u") "d" ("bob" ∷ "cy" ∷ [])) asked).pending_approvals
      ≡ some r)
    × (r.status ≡ approved)
unfolding initial initial_settings default_configuration new_request get_effective_date_with_delay
    get
signings-approve_example =
    signings-approve fixed 9000 (λ n. "u") "d" ("bob" ∷ "cy" ∷ []) request asked
      (refl, refl, refl, omega arith, (default_configuration fixed 0, refl)) (refl, (refl, tt)) refl
      (omega arith)

abbrev price_of : Option (FeeConfiguration ℕ) → ℕ × ℕ
price_of none = (0, 0)
price_of (some c) = (c.base_price_per_request, c.version)

-- The price and the version that are in force after two days: both updates were executed.
two_days-doubled :
    price_of (get "default" (run fixed two_days (initial fixed 0)).configurations) ≡ (200, 3)
unfolding initial initial_settings default_configuration run step get put
    process_pending_scheduled_updates approve_approval_request create_approval_request
    update_admin_settings update_configuration check_if_approval_required apply_update_request
two_days-doubled = refl

run-HasPrice_example : Every (HasPrice fixed) (run fixed two_days (initial fixed 0)).configurations
run-HasPrice_example = run-HasPrice fixed 0 two_days refl
