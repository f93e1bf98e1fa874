-- ===== src/Spikes/Examples.antt =====
-- The theorems on alerts at a concrete chain, whose base fee goes from 20 gwei to 90 and back.
use gas_guard.Prelude.{
  if◌then◌else◌, ◌==◌, leb, ℕ, String, ◌≡◌, refl, true, false, ◌||◌, ◌⊎◌, ◌≤◌, none, some, List, [],
  ◌∷◌, length,
}
use gas_guard.Numbers.{fixed}
use gas_guard.Spikes.Config.{
  Severity, warning, critical, GasSnapshot, AlertPayload, WebhookSubscription, max_history_points,
  webhook_max_retries,
}
use gas_guard.Spikes.Classifier.{
  Classifier, add_snapshot, enrich, classify_severity, get_history, last_of,
}
use gas_guard.Spikes.Engine.{evaluate, highest_severity}
use gas_guard.Spikes.Webhooks.{
  Answer, responded, network_error, is_ok, dispatch_one, dispatch_all, sign, signature_header,
  verify,
}
use gas_guard.Spikes.Monitor.{Monitor, process_chain}
use gas_guard.Spikes.Severities.{highest_severity-evaluate}
use gas_guard.Spikes.Delivery.{sum, dispatch_one-bounds}
use gas_guard.Spikes.History.{add_all, of_chain, get_history-add_all}
use gas_guard.Spikes.Alerts.{process_chain-alert}

abbrev reading : ℕ → ℕ → GasSnapshot ℕ
reading chain fee = record {
  chain_id = chain;
  base_fee_gwei = fixed.literal fee 1;
  priority_fee_gwei = fixed.literal 1 1;
  timestamp = 0;
}

abbrev empty : Classifier fixed
empty = record { history = λ chain. none; custom_thresholds = λ chain. none }

abbrev readings : List (GasSnapshot ℕ)
readings = reading 1 20 ∷ reading 5 70 ∷ reading 1 20 ∷ []

abbrev seen : Classifier fixed
seen = add_all fixed readings empty

get_history-add_all_example :
    get_history fixed 1 (add_all fixed readings empty)
    ≡ last_of max_history_points (of_chain fixed 1 readings)
unfolding get_history
get_history-add_all_example = get_history-add_all fixed 1 readings empty refl

highest_severity-evaluate_example :
    highest_severity fixed (evaluate fixed (enrich fixed (reading 1 90) seen) seen)
    ≡ classify_severity fixed (enrich fixed (reading 1 90) seen) seen
highest_severity-evaluate_example =
    highest_severity-evaluate fixed (enrich fixed (reading 1 90) seen) seen

abbrev flaky : ℕ → Answer
flaky n = if n == 1 then network_error else responded (leb 3 n)

dispatch_one-bounds_example :
    let d = dispatch_one flaky in
    (d.delivered ≡ (is_ok (flaky 1) || (is_ok (flaky 2) || is_ok (flaky 3))))
    × (1 ≤ length d.attempts)
    × (length d.attempts ≤ webhook_max_retries)
    × (sum d.pauses ≤ 3000)
dispatch_one-bounds_example = dispatch_one-bounds flaky

abbrev keyed : String → String → String
keyed key text = key

-- A receiver has to take the prefix of the header off before it asks `verify`.
verify_test :
    (verify keyed "{}" "s3cret" (sign keyed "{}" "s3cret") ≡ true)
    × (verify keyed "{}" "s3cret" (signature_header keyed "{}" "s3cret") ≡ false)
unfolding verify signature_header
verify_test = (refl, refl)

abbrev gwei : ℕ → String
gwei n = "90.00 gwei"

abbrev rounded : ℕ → ℕ → ℕ
rounded n x = x

abbrev hook : WebhookSubscription
hook = record {
  id = "h";
  url = "https://example.org/h";
  chain_ids = 1 ∷ [];
  min_severity = warning;
  secret = "s3cret";
  created_at = 0;
  active = true;
}

abbrev monitor : Monitor fixed gwei rounded
monitor = record {
  classifier = seen;
  subscriptions = ("h", hook) ∷ [];
  last_alerts = λ chain. none;
  tracked_chains = 1 ∷ [];
}

process_chain-alert_example :
    let after = process_chain fixed gwei rounded (λ id. flaky) 1 (some (reading 1 90)) monitor in
    let found = classify_severity fixed (enrich fixed (reading 1 90) seen) seen in
    ((found ≡ none) × (after.0 ≡ []) × (after.1.last_alerts ≡ monitor.last_alerts))
    ⊎ ((severity : Severity) × ((p : AlertPayload ℕ) × (found ≡ some severity)
          × (p.severity ≡ severity)
          × (after.1.last_alerts 1 ≡ some p)
          × (after.0 ≡ dispatch_all (λ id. flaky) p monitor.subscriptions)))
process_chain-alert_example =
    process_chain-alert fixed gwei rounded (λ id. flaky) 1 (reading 1 90) monitor

-- The jump is critical, by its percentage.
reading-critical : classify_severity fixed (enrich fixed (reading 1 90) seen) seen ≡ some critical
unfolding classify_severity enrich get_history add_snapshot
reading-critical = refl
