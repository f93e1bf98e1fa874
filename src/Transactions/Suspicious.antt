-- ===== src/Transactions/Suspicious.antt =====
-- SuspiciousActivityService: apps/api-service/src/transection/suspicious-activity.service.ts. A window
-- is kept for each merchant and chain; of an alert the message and the metadata are left out.
use gas_guard.Prelude.{
  ℕ, zero, suc, ◌+◌, ◌-◌, String, str_eq, Bool, true, false, ◌&&◌, Option, none, some, List, [],
  ◌∷◌, ◌++◌, length, filter, ltb, leb, ◌==◌, if◌then◌else◌,
}
use gas_guard.Numbers.{Arithmetic}

pub data TxStatus : Type 0 where
  success failure reverted : TxStatus

pub data ActivityType : Type 0 where
  high_failure_rate burst_transactions gas_spike : ActivityType

pub data AlertSeverity : Type 0 where
  low medium high : AlertSeverity

pub record Alert : Type 0 where
  pub activity : ActivityType
  pub severity : AlertSeverity

abbrev drop_first : {A : Type 0} → List A → List A
drop_first [] = []
drop_first (x ∷ xs) = xs

abbrev drop : {A : Type 0} → ℕ → List A → List A
drop zero xs = xs
drop (suc n) [] = []
drop (suc n) (x ∷ xs) = drop n xs

-- `if (window.length > 50) window.shift()`
abbrev pub shifted : {A : Type 0} → List A → List A
shifted xs = if ltb 50 (length xs) then drop_first xs else xs

abbrev graded : Bool → Bool → AlertSeverity
graded is_high is_medium = if is_high then high else if is_medium then medium else low

module _ (ar : Arithmetic) where
  open ar use {Number, literal, add, div, le, same}

  pub record TxWindow : Type 0 where
    pub timestamp : ℕ
    pub status : TxStatus
    pub gas_used : Number

  -- By merchant and chain, oldest first.
  abbrev pub Windows : Type 0
  Windows = String → ℕ → List TxWindow

  abbrev pub is_within : ℕ → TxWindow → Bool
  is_within now w = leb now (w.timestamp + 10000)

  abbrev pub burst_alert : ℕ → Alert
  burst_alert burst = record {
    activity = burst_transactions;
    severity = graded (leb 15 burst) (leb 8 burst);
  }

  -- `now` is the time of the last transaction.
  unfoldable pub detect_burst : ℕ → List TxWindow → Option Alert
  detect_burst now window =
      let burst = length (filter (is_within now) window) in
      if leb 5 burst then some (burst_alert burst) else none

  abbrev is_failed : TxWindow → Bool
  is_failed w = elim w.status [ success ↦ false | failure ↦ true | reverted ↦ true ]

  unfoldable pub detect_high_failure_rate : List TxWindow → Option Alert
  detect_high_failure_rate window =
      let recent = drop (length window - 10) window in
      let rate = div (literal (length (filter is_failed recent)) 1) (literal (length recent) 1) in
      if le (literal 7 10) rate
      then some (record {
        activity = high_failure_rate;
        severity = graded (le (literal 9 10) rate) (le (literal 8 10) rate);
      })
      else none

  abbrev total : List TxWindow → Number → Number
  total [] acc = acc
  total (w ∷ ws) acc = total ws (add acc w.gas_used)

  -- `latest` is the last transaction, `prior` the others of the window.
  unfoldable pub detect_gas_spike : TxWindow → List TxWindow → Option Alert
  detect_gas_spike latest [] = none
  detect_gas_spike latest (w ∷ ws) =
      let average = div (total (w ∷ ws) (literal 0 1)) (literal (length (w ∷ ws)) 1) in
      let ratio = div latest.gas_used average in
      if same average (literal 0 1)
      then none
      else if le (literal 4 1) ratio
      then some (record {
        activity = gas_spike;
        severity = graded (le (literal 10 1) ratio) (le (literal 6 1) ratio);
      })
      else none

  -- `window.slice(0, -1)`
  abbrev without_last : List TxWindow → List TxWindow
  without_last [] = []
  without_last (w ∷ []) = []
  without_last (w ∷ v ∷ ws) = w ∷ without_last (v ∷ ws)

  abbrev pub or_next : Option Alert → Option Alert → Option Alert
  or_next none next = next
  or_next (some a) next = some a

  unfoldable pub detect : TxWindow → List TxWindow → Option Alert
  unfolding detect_burst detect_high_failure_rate detect_gas_spike
  detect x window =
      if ltb (length window) 5
      then none
      else or_next (detect_burst x.timestamp window)
          (or_next (detect_high_failure_rate window) (detect_gas_spike x (without_last window)))

  abbrev pub set_window : String → ℕ → List TxWindow → Windows → Windows
  set_window merchant chain window s other_merchant other_chain =
      if str_eq merchant other_merchant && chain == other_chain
      then window
      else s other_merchant other_chain

  unfoldable pub analyze : String → ℕ → TxWindow → Windows → Option Alert × Windows
  unfolding detect
  analyze merchant chain x s =
      let window = shifted (s merchant chain ++ x ∷ []) in
      (detect x window, set_window merchant chain window s)
