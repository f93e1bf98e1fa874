-- ===== src/Fees/Queries.antt =====
-- The queries of the history and of the events: getConfigurationHistory and getFeeEvents of
-- apps/api-service/src/gas-estimation/services/fee-configuration.service.ts. Where nothing is filtered,
-- `sort` is called on the service's own list, which is left sorted.
use gas_guard.Prelude.{
  ℕ, String, str_eq, ◌≡◌, refl, Bool, true, false, ◌&&◌, Option, none, some, List, [], ◌∷◌, filter,
  leb, inl, inr, ◌⊎◌, Bool-cases, if◌then◌else◌,
}
use gas_guard.Numbers.{Arithmetic}
use gas_guard.Fees.Config.{FeeChangeEvent, HistoryEntry}
use gas_guard.Fees.Store.{Store}

-- `sort((a, b) => time(b) - time(a))`, which keeps the order of those of one time.
abbrev pub insert : {A : Type 0} → (A → ℕ) → A → List A → List A
insert time x [] = x ∷ []
insert time x (y ∷ ys) = if leb (time y) (time x) then x ∷ y ∷ ys else y ∷ insert time x ys

abbrev pub latest_first : {A : Type 0} → (A → ℕ) → List A → List A
latest_first time [] = []
latest_first time (x ∷ xs) = insert time x (latest_first time xs)

-- `!id`
abbrev pub absent : Option String → Bool
absent none = true
absent (some id) = str_eq id ""

abbrev is_of : Option String → String → Bool
is_of none id = false
is_of (some given) id = str_eq id given

abbrev pub is_none : Option ℕ → Bool
is_none none = true
is_none (some t) = false

abbrev from_on : Option ℕ → ℕ → Bool
from_on none t = true
from_on (some start) t = leb start t

abbrev up_to : Option ℕ → ℕ → Bool
up_to none t = true
up_to (some end) t = leb t end

module _ (ar : Arithmetic) where
  open ar use {Number}

  unfoldable pub get_configuration_history :
      Option String → Store ar → List (HistoryEntry Number) × Store ar
  get_configuration_history id s =
      if absent id
      then (let sorted = latest_first (λ h. h.created_at) s.history in
          (sorted, record s { history = sorted }))
      else (
        latest_first (λ h. h.created_at) (filter (λ h. is_of id h.configuration_id) s.history),
        s,
      )

  abbrev pub of_configuration :
      Option String → List (FeeChangeEvent Number) → List (FeeChangeEvent Number)
  of_configuration id es = if absent id then es else filter (λ e. is_of id e.configuration_id) es

  unfoldable pub get_fee_events :
      Option String → Option ℕ → Option ℕ → Store ar → List (FeeChangeEvent Number) × Store ar
  get_fee_events id start end s =
      let events =
        filter (λ e. from_on start e.timestamp && up_to end e.timestamp)
          (of_configuration id s.fee_events) in
      let sorted = latest_first (λ e. e.timestamp) events in
      if absent id && (is_none start && is_none end)
      then (let all = latest_first (λ e. e.timestamp) s.fee_events in
          (all, record s { fee_events = all }))
      else (sorted, s)

  pub history_cases :
      (id : Option String) (s : Store ar)
      → let after = (get_configuration_history id s).1 in
        ((absent id ≡ true)
          × (after ≡ record s { history = latest_first (λ h. h.created_at) s.history }))
        ⊎ (after ≡ s)
  unfolding get_configuration_history
  history_cases id s = elim (Bool-cases (absent id)) [
    | inl all ↦ inl (all, rw all refl)
    | inr given ↦ inr (rw given refl)
  ]

  pub events_cases :
      (id : Option String) (start end : Option ℕ) (s : Store ar)
      → let after = (get_fee_events id start end s).1 in
        ((absent id && (is_none start && is_none end) ≡ true)
          × (after ≡ record s { fee_events = latest_first (λ e. e.timestamp) s.fee_events }))
        ⊎ (after ≡ s)
  unfolding get_fee_events
  events_cases id start end s = elim (Bool-cases (absent id && (is_none start && is_none end))) [
    | inl all ↦ inl (all, rw all refl)
    | inr given ↦ inr (rw given refl)
  ]
