-- ===== src/Spikes/Classifier.antt =====
-- SpikeClassifierService: src/modules/gas-spike-alert/spike-classifier.service.ts.
use gas_guard.Prelude.{
  NumberMap, set_number, ℕ, zero, suc, ◌-◌, Option, none, some, List, [], ◌∷◌, ◌++◌, map, or_else,
  length, ltb, leb, ◌==◌, if◌then◌else◌,
}
use gas_guard.Numbers.{Arithmetic}
use gas_guard.Spikes.Config.{
  Severity, info, warning, critical, SpikeType, base_fee_percentage, absolute_threshold,
  volatility_index, priority_fee_surge, severity_order, GasSnapshot, EnrichedSnapshot, Bands,
  Thresholds, CustomThresholdConfig, default_thresholds, moving_average_window, max_history_points,
}

abbrev pub drop : {A : Type 0} → ℕ → List A → List A
drop zero xs = xs
drop (suc n) [] = []
drop (suc n) (x ∷ xs) = drop n xs

-- `xs.slice(-n)`, for `n` other than 0
abbrev pub last_of : {A : Type 0} → ℕ → List A → List A
last_of n xs = drop (length xs - n) xs

-- `xs[xs.length - 1]`
abbrev pub final : {A : Type 0} → List A → Option A
final [] = none
final (x ∷ []) = some x
final (x ∷ y ∷ xs) = final (y ∷ xs)

-- `push`, and `shift` where the buffer is too long
unfoldable pub push_bounded : {A : Type 0} → A → List A → List A
push_bounded x buf =
    let buf' = buf ++ x ∷ [] in if ltb max_history_points (length buf') then drop 1 buf' else buf'

abbrev overriding : {A B C : Type 0} → (A → B → C) → Bands A → Bands B → Bands C
overriding f a b = record {
  info_from = f a.info_from b.info_from;
  warning_from = f a.warning_from b.warning_from;
  critical_from = f a.critical_from b.critical_from;
}

-- One set of bounds before another, bound for bound.
abbrev pub override : {A B C : Type 0} → (A → B → C) → Thresholds A → Thresholds B → Thresholds C
override f a b = record {
  base_fee_percentage_bands = overriding f a.base_fee_percentage_bands b.base_fee_percentage_bands;
  absolute_gwei_bands = overriding f a.absolute_gwei_bands b.absolute_gwei_bands;
  volatility_bands = overriding f a.volatility_bands b.volatility_bands;
  priority_fee_bands = overriding f a.priority_fee_bands b.priority_fee_bands;
}

abbrev first_of : {A : Type 0} → Option A → Option A → Option A
first_of none b = b
first_of (some a) b = some a

module _ (ar : Arithmetic) where
  open ar use {Number, literal, add, sub, mul, div, sqrt, lt, le, same}

  pub record Classifier : Type 0 where
    -- oldest first
    pub history : NumberMap (List (GasSnapshot Number))
    pub custom_thresholds : NumberMap (CustomThresholdConfig Number)

  unfoldable pub get_history : ℕ → Classifier → List (GasSnapshot Number)
  get_history chain s = or_else (s.history chain) []

  unfoldable pub add_snapshot : GasSnapshot Number → Classifier → Classifier
  unfolding push_bounded get_history
  add_snapshot x s = record s {
    history = set_number x.chain_id (push_bounded x (get_history x.chain_id s)) s.history;
  }

  unfoldable pub clear_history : ℕ → Classifier → Classifier
  clear_history chain s = record s {
    history = λ other. if chain == other then none else s.history other;
  }

  -- Without a chain the bounds are for all, under 0.
  unfoldable pub set_custom_thresholds : CustomThresholdConfig Number → Classifier → Classifier
  set_custom_thresholds c s = record s {
    custom_thresholds = set_number (or_else c.chain_id 0) c s.custom_thresholds;
  }

  abbrev none_set : Bands (Option Number)
  none_set = record { info_from = none; warning_from = none; critical_from = none }

  abbrev bounds_of : Option (CustomThresholdConfig Number) → Thresholds (Option Number)
  bounds_of none = record {
    base_fee_percentage_bands = none_set;
    absolute_gwei_bands = none_set;
    volatility_bands = none_set;
    priority_fee_bands = none_set;
  }
  bounds_of (some c) = c.bounds

  unfoldable pub get_effective_thresholds : ℕ → Classifier → Thresholds Number
  unfolding default_thresholds
  get_effective_thresholds chain s =
      let global = bounds_of (s.custom_thresholds 0) in
      let own = bounds_of (s.custom_thresholds chain) in
      override or_else (override first_of own global) (default_thresholds ar)

  abbrev sum : List Number → Number → Number
  sum [] acc = acc
  sum (x ∷ xs) acc = sum xs (add acc x)

  unfoldable pub mean : List Number → Number
  mean [] = literal 0 1
  mean (x ∷ xs) = div (sum (x ∷ xs) (literal 0 1)) (literal (length (x ∷ xs)) 1)

  -- `Math.pow(v - m, 2)` is the product.
  abbrev squares : Number → List Number → Number → Number
  squares m [] acc = acc
  squares m (v ∷ vs) acc = squares m vs (add acc (mul (sub v m) (sub v m)))

  unfoldable pub stddev : List Number → Number
  unfolding mean
  stddev xs =
      if ltb (length xs) 2
      then literal 0 1
      else sqrt (div (squares (mean xs) xs (literal 0 1)) (literal (length xs) 1))

  abbrev min_of : Number → Number → Number
  min_of a b = if lt b a then b else a

  unfoldable pub compute_volatility_index : List Number → Number
  unfolding mean stddev
  compute_volatility_index xs =
      if ltb (length xs) 2
      then literal 0 1
      else if same (mean xs) (literal 0 1)
      then literal 0 1
      else min_of (div (stddev xs) (mean xs)) (literal 1 1)

  abbrev percentage_change : Number → Number → Number
  percentage_change before after =
      if lt (literal 0 1) before
      then mul (div (sub after before) before) (literal 100 1)
      else literal 0 1

  unfoldable pub enrich : GasSnapshot Number → Classifier → EnrichedSnapshot Number
  unfolding get_history mean compute_volatility_index
  enrich x s =
      let buf = get_history x.chain_id s in
      let window = last_of moving_average_window buf in
      let base_fees = map (λ y. y.base_fee_gwei) window in
      let previous = or_else (final buf) x in
      record {
        snapshot = x;
        moving_average_base_fee = mean base_fees;
        moving_average_priority_fee = mean (map (λ y. y.priority_fee_gwei) window);
        volatility = compute_volatility_index base_fees;
        base_fee_percentage_change = percentage_change previous.base_fee_gwei x.base_fee_gwei;
        priority_fee_percentage_change =
            percentage_change previous.priority_fee_gwei x.priority_fee_gwei;
      }

  -- `highest === null || order.indexOf(s) > order.indexOf(highest)`
  abbrev pub elevate : Severity → Option Severity → Option Severity
  elevate s none = some s
  elevate s (some highest) =
      if ltb (severity_order highest) (severity_order s) then some s else some highest

  abbrev pub elevate_by : Number → Bands Number → Option Severity → Option Severity
  elevate_by x t highest =
      if le t.critical_from x
      then elevate critical highest
      else if le t.warning_from x
      then elevate warning highest
      else if le t.info_from x
      then elevate info highest
      else highest

  unfoldable pub classify_severity : EnrichedSnapshot Number → Classifier → Option Severity
  unfolding get_effective_thresholds
  classify_severity e s =
      let t = get_effective_thresholds e.snapshot.chain_id s in
      elevate_by e.priority_fee_percentage_change t.priority_fee_bands (
        elevate_by e.volatility t.volatility_bands (
          elevate_by e.snapshot.base_fee_gwei t.absolute_gwei_bands
            (elevate_by e.base_fee_percentage_change t.base_fee_percentage_bands none)))

  unfoldable pub value_to_severity : Number → Bands Number → Option Severity
  value_to_severity x t =
      if le t.critical_from x
      then some critical
      else if le t.warning_from x
      then some warning
      else if le t.info_from x
      then some info
      else none

  abbrev pub severity_value : Severity → ℕ
  severity_value info = 1
  severity_value warning = 2
  severity_value critical = 3

  abbrev pub at_least : Severity → Option Severity → SpikeType → List SpikeType
  at_least severity none type = []
  at_least severity (some s) type =
      if leb (severity_value severity) (severity_value s) then type ∷ [] else []

  unfoldable pub get_triggered_spike_types :
      EnrichedSnapshot Number → Severity → Classifier → List SpikeType
  unfolding get_effective_thresholds value_to_severity
  get_triggered_spike_types e severity s =
      let t = get_effective_thresholds e.snapshot.chain_id s in
      at_least severity (value_to_severity e.base_fee_percentage_change t.base_fee_percentage_bands)
        base_fee_percentage
      ++ (at_least severity (value_to_severity e.snapshot.base_fee_gwei t.absolute_gwei_bands)
            absolute_threshold
          ++ (at_least severity (value_to_severity e.volatility t.volatility_bands) volatility_index
              ++ at_least severity
                  (value_to_severity e.priority_fee_percentage_change t.priority_fee_bands)
                  priority_fee_surge))
