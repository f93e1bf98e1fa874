-- ===== src/Spikes/Engine.antt =====
-- ThresholdEngineService: src/modules/gas-spike-alert/threshold-engine.service.ts.
use gas_guard.Prelude.{Option, none, some, List, [], ◌∷◌, ◌++◌, ltb, if◌then◌else◌}
use gas_guard.Numbers.{Arithmetic}
use gas_guard.Spikes.Config.{
  Severity, info, warning, critical, SpikeType, base_fee_percentage, absolute_threshold,
  volatility_index, priority_fee_surge, severity_order, EnrichedSnapshot, ThresholdResult, Bands,
}
use gas_guard.Spikes.Classifier.{Classifier, get_effective_thresholds}

module _ (ar : Arithmetic) where
  open ar use {Number, le}

  unfoldable pub resolve_severity : Number → Bands Number → Option Severity
  resolve_severity x t =
      if le t.critical_from x
      then some critical
      else if le t.warning_from x
      then some warning
      else if le t.info_from x
      then some info
      else none

  -- `thresholds[severityKey(severity)]`
  abbrev pub bound_of : Severity → Bands Number → Number
  bound_of info t = t.info_from
  bound_of warning t = t.warning_from
  bound_of critical t = t.critical_from

  abbrev pub result :
      SpikeType → Number → Bands Number → Option Number → Severity → ThresholdResult Number
  result type x t increase severity = record {
    spike_type = type;
    severity = severity;
    value = x;
    threshold = bound_of severity t;
    percentage_increase = increase;
  }

  -- One result or none.
  abbrev pub fired :
      (Severity → ThresholdResult Number) → Option Severity → List (ThresholdResult Number)
  fired f none = []
  fired f (some severity) = f severity ∷ []

  abbrev pub evaluate_percentage_rule :
      Number → Bands Number → SpikeType → Option Severity → List (ThresholdResult Number)
  evaluate_percentage_rule x t type found = fired (result type x t (some x)) found

  abbrev pub evaluate_plain_rule :
      Number → Bands Number → SpikeType → Option Severity → List (ThresholdResult Number)
  evaluate_plain_rule x t type found = fired (result type x t none) found

  unfoldable pub evaluate : EnrichedSnapshot Number → Classifier ar → List (ThresholdResult Number)
  unfolding get_effective_thresholds resolve_severity
  evaluate e s =
      let t = get_effective_thresholds ar e.snapshot.chain_id s in
      let increase = e.base_fee_percentage_change in
      let fee = e.snapshot.base_fee_gwei in
      let surge = e.priority_fee_percentage_change in
      evaluate_percentage_rule increase t.base_fee_percentage_bands base_fee_percentage
        (resolve_severity increase t.base_fee_percentage_bands)
      ++ (evaluate_plain_rule fee t.absolute_gwei_bands absolute_threshold
            (resolve_severity fee t.absolute_gwei_bands)
          ++ (evaluate_plain_rule e.volatility t.volatility_bands volatility_index
                (resolve_severity e.volatility t.volatility_bands)
              ++ evaluate_percentage_rule surge t.priority_fee_bands priority_fee_surge
                  (resolve_severity surge t.priority_fee_bands)))

  abbrev higher : Severity → Severity → Severity
  higher highest s = if ltb (severity_order highest) (severity_order s) then s else highest

  abbrev pub reduce : Severity → List (ThresholdResult Number) → Severity
  reduce highest [] = highest
  reduce highest (r ∷ rs) = reduce (higher highest r.severity) rs

  unfoldable pub highest_severity : List (ThresholdResult Number) → Option Severity
  highest_severity [] = none
  highest_severity (r ∷ rs) = some (reduce r.severity (r ∷ rs))
