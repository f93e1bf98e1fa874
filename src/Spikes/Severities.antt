-- ===== src/Spikes/Severities.antt =====
-- The two ways in which the severity of a snapshot is found.
use gas_guard.Prelude.{
  ◌≡◌, refl, sym, ap, ◌∙◌, inl, inr, Bool, true, false, Option, none, some, List, [], ◌∷◌, ◌++◌,
  map, filter, filter-append, ltb, leb, if◌then◌else◌, arith, Bool-cases,
}
use gas_guard.Numbers.{Arithmetic}
use gas_guard.Spikes.Config.{
  Severity, info, warning, critical, SpikeType, base_fee_percentage, absolute_threshold,
  volatility_index, priority_fee_surge, severity_order, EnrichedSnapshot, ThresholdResult, Bands,
}
use gas_guard.Spikes.Classifier.{
  Classifier, get_effective_thresholds, elevate, elevate_by, classify_severity, value_to_severity,
  at_least, get_triggered_spike_types,
}
use gas_guard.Spikes.Engine.{resolve_severity, result, fired, evaluate, reduce, highest_severity}

map-append : {A B : Type 0} (f : A → B) (xs ys : List A) → map f (xs ++ ys) ≡ map f xs ++ map f ys
map-append f [] ys = refl
map-append f (x ∷ xs) ys = ap (λ zs. f x ∷ zs) (map-append f xs ys)

module _ (ar : Arithmetic) where
  open ar use {Number}

  if_same : {A : Type 0} (b : Bool) (x : A) → (if b then x else x) ≡ x
  if_same true x = refl
  if_same false x = refl

  -- Elevating by each result in turn.
  elevate_all : List (ThresholdResult Number) → Option Severity → Option Severity
  elevate_all [] highest = highest
  elevate_all (r ∷ rs) highest = elevate_all rs (elevate ar r.severity highest)

  elevate_all-append :
      (rs qs : List (ThresholdResult Number)) (highest : Option Severity)
      → elevate_all (rs ++ qs) highest ≡ elevate_all qs (elevate_all rs highest)
  unfolding elevate_all
  elevate_all-append [] qs highest = refl
  elevate_all-append (r ∷ rs) qs highest = elevate_all-append rs qs (elevate ar r.severity highest)

  reduce-elevate_all :
      (rs : List (ThresholdResult Number)) (highest : Severity)
      → some (reduce ar highest rs) ≡ elevate_all rs (some highest)
  unfolding elevate_all
  reduce-elevate_all [] highest = refl
  reduce-elevate_all (r ∷ rs) highest =
      elim (Bool-cases (ltb (severity_order highest) (severity_order r.severity))) [
        | inl above ↦ rw above (reduce-elevate_all rs r.severity)
        | inr below ↦ rw below (reduce-elevate_all rs highest)
      ]

  highest_severity-elevate_all :
      (rs : List (ThresholdResult Number)) → highest_severity ar rs ≡ elevate_all rs none
  unfolding highest_severity elevate_all
  highest_severity-elevate_all [] = refl
  highest_severity-elevate_all (r ∷ rs) =
      rw (if_same (ltb (severity_order r.severity) (severity_order r.severity)) r.severity)
        (reduce-elevate_all rs r.severity)

  -- One metric, by either service.
  elevate_by-fired :
      (x : Number) (t : Bands Number) (f : Severity → ThresholdResult Number)
      (highest : Option Severity)
      → ((s : Severity) → (f s).severity ≡ s)
      → elevate_by ar x t highest ≡ elevate_all (fired ar f (resolve_severity ar x t)) highest
  unfolding elevate_all resolve_severity
  elevate_by-fired x t f highest h = ground (arith, h info, h warning, h critical)

  elevate_all-four :
      (a b c d : List (ThresholdResult Number))
      → highest_severity ar (a ++ (b ++ (c ++ d)))
        ≡ elevate_all d (elevate_all c (elevate_all b (elevate_all a none)))
  elevate_all-four a b c d =
      rw
        (
          highest_severity-elevate_all (a ++ (b ++ (c ++ d))),
          elevate_all-append a (b ++ (c ++ d)) none,
          elevate_all-append b (c ++ d) (elevate_all a none),
          elevate_all-append c d (elevate_all b (elevate_all a none)),
        )
        refl

  -- For any snapshot and any thresholds, whatever the arithmetic: the highest severity among the results
  -- of the threshold engine is the severity that the classifier gives.
  pub highest_severity-evaluate :
      (e : EnrichedSnapshot Number) (s : Classifier ar)
      → highest_severity ar (evaluate ar e s) ≡ classify_severity ar e s
  unfolding evaluate classify_severity
  highest_severity-evaluate e s =
      let t = get_effective_thresholds ar e.snapshot.chain_id s in
      let rise = e.base_fee_percentage_change in
      let fee = e.snapshot.base_fee_gwei in
      let surge = e.priority_fee_percentage_change in
      let f1 = result ar base_fee_percentage rise t.base_fee_percentage_bands (some rise) in
      let f2 = result ar absolute_threshold fee t.absolute_gwei_bands none in
      let f3 = result ar volatility_index e.volatility t.volatility_bands none in
      let f4 = result ar priority_fee_surge surge t.priority_fee_bands (some surge) in
      let a = fired ar f1 (resolve_severity ar rise t.base_fee_percentage_bands) in
      let b = fired ar f2 (resolve_severity ar fee t.absolute_gwei_bands) in
      let c = fired ar f3 (resolve_severity ar e.volatility t.volatility_bands) in
      let d = fired ar f4 (resolve_severity ar surge t.priority_fee_bands) in
      elevate_all-four a b c d
      ∙ sym (
          elevate_by-fired surge t.priority_fee_bands f4 _ (λ s. refl)
          ∙ ap (elevate_all d) (
              elevate_by-fired e.volatility t.volatility_bands f3 _ (λ s. refl)
              ∙ ap (elevate_all c) (
                  elevate_by-fired fee t.absolute_gwei_bands f2 _ (λ s. refl)
                  ∙ ap (elevate_all b)
                      (elevate_by-fired rise t.base_fee_percentage_bands f1 none (λ s. refl)))))

  at_least-fired :
      (severity : Severity) (x : Number) (t : Bands Number) (type : SpikeType)
      (increase : Option Number)
      → at_least ar severity (value_to_severity ar x t) type
        ≡ map
            (λ r. r.spike_type)
            (filter
              (λ r. leb (severity_order severity) (severity_order r.severity))
              (fired ar (result ar type x t increase) (resolve_severity ar x t)))
  unfolding value_to_severity resolve_severity
  at_least-fired info x t type increase = ground arith
  at_least-fired warning x t type increase = ground arith
  at_least-fired critical x t type increase = ground arith

  abbrev reaches : Severity → ThresholdResult Number → Bool
  reaches severity r = leb (severity_order severity) (severity_order r.severity)

  abbrev types_from : Severity → List (ThresholdResult Number) → List SpikeType
  types_from severity rs = map (λ r. r.spike_type) (filter (reaches severity) rs)

  types_from-append :
      (severity : Severity) (rs qs : List (ThresholdResult Number))
      → types_from severity (rs ++ qs) ≡ types_from severity rs ++ types_from severity qs
  types_from-append severity rs qs =
      ap (map (λ r. r.spike_type)) (filter-append (reaches severity) rs qs)
      ∙ map-append (λ r. r.spike_type) (filter (reaches severity) rs) (filter (reaches severity) qs)

  types_from-four :
      (severity : Severity) (a b c d : List (ThresholdResult Number))
      → types_from severity (a ++ (b ++ (c ++ d)))
        ≡ types_from severity a
          ++ (types_from severity b ++ (types_from severity c ++ types_from severity d))
  types_from-four severity a b c d =
      rw
        (
          types_from-append severity a (b ++ (c ++ d)),
          types_from-append severity b (c ++ d),
          types_from-append severity c d,
        )
        refl

  -- For any snapshot, any thresholds and any severity, whatever the arithmetic: the kinds of spike that
  -- the classifier reports from that severity on are those of the threshold engine's results of that
  -- severity or a higher one, in order.
  pub get_triggered_spike_types-evaluate :
      (e : EnrichedSnapshot Number) (severity : Severity) (s : Classifier ar)
      → get_triggered_spike_types ar e severity s
        ≡ map
            (λ r. r.spike_type)
            (filter
              (λ r. leb (severity_order severity) (severity_order r.severity))
              (evaluate ar e s))
  unfolding evaluate get_triggered_spike_types
  get_triggered_spike_types-evaluate e severity s =
      let t = get_effective_thresholds ar e.snapshot.chain_id s in
      let rise = e.base_fee_percentage_change in
      let fee = e.snapshot.base_fee_gwei in
      let surge = e.priority_fee_percentage_change in
      rw
        (
          types_from-four severity _ _ _ _,
          at_least-fired severity rise t.base_fee_percentage_bands base_fee_percentage (some rise),
          at_least-fired severity fee t.absolute_gwei_bands absolute_threshold none,
          at_least-fired severity e.volatility t.volatility_bands volatility_index none,
          at_least-fired severity surge t.priority_fee_bands priority_fee_surge (some surge),
        )
        refl
