-- ===== src/Spikes/Monitor.antt =====
-- GasMonitorService: src/modules/gas-spike-alert/gas-monitor.service.ts. What the fetcher gives for a
-- chain and what the endpoints answer are arguments; so are `toFixed` and `parseFloat`.
use gas_guard.Prelude.{
  NumberMap, set_number, ℕ, String, not, Option, none, some, List, [], ◌∷◌, ◌++◌, map, filter, any,
  or_else, ◌==◌, if◌then◌else◌,
}
use gas_guard.Numbers.{Arithmetic}
use gas_guard.Spikes.Config.{
  Severity, SpikeType, base_fee_percentage, absolute_threshold, volatility_index,
  priority_fee_surge, GasSnapshot, EnrichedSnapshot, ThresholdResult, AlertPayload,
  recommendation_for,
}
use gas_guard.Spikes.Classifier.{Classifier, add_snapshot, get_history, enrich}
use gas_guard.Spikes.Engine.{evaluate, highest_severity}
use gas_guard.Spikes.Webhooks.{Subscriptions, Answer, Delivery, dispatch_all}

abbrev type_code : SpikeType → ℕ
type_code base_fee_percentage = 0
type_code absolute_threshold = 1
type_code volatility_index = 2
type_code priority_fee_surge = 3

-- `[...new Set(types)]`
abbrev pub unique : List SpikeType → List SpikeType
unique [] = []
unique (x ∷ xs) = x ∷ filter (λ y. not (type_code x == type_code y)) (unique xs)

-- `history[history.length - 2]`
abbrev before_final : {A : Type 0} → List A → Option A
before_final [] = none
before_final (x ∷ []) = none
before_final (x ∷ y ∷ []) = some x
before_final (x ∷ y ∷ z ∷ xs) = before_final (y ∷ z ∷ xs)

-- `gwei x` is `${x.toFixed(2)} gwei`, and `rounded n x` is `parseFloat(x.toFixed(n))`.
module _ (ar : Arithmetic) (gwei : ar.Number → String) (rounded : ℕ → ar.Number → ar.Number) where
  open ar use {Number}

  pub record Monitor : Type 0 where
    pub classifier : Classifier ar
    pub subscriptions : Subscriptions
    pub last_alerts : NumberMap (AlertPayload Number)
    pub tracked_chains : List ℕ

  unfoldable pub build_alert_payload :
      EnrichedSnapshot Number → Number → Number → Severity → List SpikeType → AlertPayload Number
  build_alert_payload e previous_fee previous_priority severity types = record {
    chain_id = e.snapshot.chain_id;
    severity = severity;
    spike_types = unique types;
    previous_base_fee = gwei previous_fee;
    current_base_fee = gwei e.snapshot.base_fee_gwei;
    previous_priority_fee = gwei previous_priority;
    current_priority_fee = gwei e.snapshot.priority_fee_gwei;
    percentage_increase = rounded 2 e.base_fee_percentage_change;
    volatility = rounded 4 e.volatility;
    timestamp = e.snapshot.timestamp;
    recommendation = recommendation_for severity;
  }

  unfoldable pub payload_for :
      ℕ
      → GasSnapshot Number
      → EnrichedSnapshot Number
      → List (ThresholdResult Number)
      → Severity
      → Classifier ar
      → AlertPayload Number
  unfolding build_alert_payload get_history
  payload_for chain x e results severity c =
      let previous = or_else (before_final (get_history ar chain c)) x in
      build_alert_payload e previous.base_fee_gwei previous.priority_fee_gwei severity
        (map (λ r. r.spike_type) results)

  abbrev alert :
      (String → ℕ → Answer)
      → ℕ
      → GasSnapshot Number
      → EnrichedSnapshot Number
      → List (ThresholdResult Number)
      → Option Severity
      → Monitor
      → List (String × Delivery) × Monitor
  alert answers chain x e results none s = ([], s)
  alert answers chain x e results (some severity) s =
      let payload = payload_for chain x e results severity s.classifier in
      (
        dispatch_all answers payload s.subscriptions,
        record s { last_alerts = set_number chain payload s.last_alerts },
      )

  -- The snapshot is compared with the history before it is added.
  unfoldable pub process_snapshot :
      (String → ℕ → Answer) → ℕ → GasSnapshot Number → Monitor → List (String × Delivery) × Monitor
  unfolding enrich add_snapshot evaluate highest_severity payload_for dispatch_all
  process_snapshot answers chain x s =
      let e = enrich ar x s.classifier in
      let added = record s { classifier = add_snapshot ar x s.classifier } in
      let results = evaluate ar e added.classifier in
      alert answers chain x e results (highest_severity ar results) added

  -- Where the fetch fails, an error is logged.
  unfoldable pub process_chain :
      (String → ℕ → Answer)
      → ℕ
      → Option (GasSnapshot Number)
      → Monitor
      → List (String × Delivery) × Monitor
  unfolding process_snapshot
  process_chain answers chain none s = ([], s)
  process_chain answers chain (some x) s = process_snapshot answers chain x s

  process_each :
      (String → ℕ → Answer)
      → (ℕ → Option (GasSnapshot Number))
      → List ℕ
      → Monitor
      → List (String × Delivery) × Monitor
  unfolding process_chain
  process_each answers fetched [] s = ([], s)
  process_each answers fetched (chain ∷ chains) s =
      let here = process_chain answers chain (fetched chain) s in
      let rest = process_each answers fetched chains here.1 in (here.0 ++ rest.0, rest.1)

  -- The chains do not share state, so that their order does not matter.
  unfoldable pub tick :
      (String → ℕ → Answer)
      → (ℕ → Option (GasSnapshot Number))
      → Monitor
      → List (String × Delivery) × Monitor
  unfolding process_each
  tick answers fetched s = process_each answers fetched s.tracked_chains s

  unfoldable pub track_chain : ℕ → Monitor → Monitor
  track_chain chain s =
      if any (λ c. c == chain) s.tracked_chains
      then s
      else record s { tracked_chains = s.tracked_chains ++ chain ∷ [] }

  unfoldable pub untrack_chain : ℕ → Monitor → Monitor
  untrack_chain chain s = record s {
    tracked_chains = filter (λ c. not (c == chain)) s.tracked_chains;
  }
