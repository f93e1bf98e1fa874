-- ===== src/Transactions/Examples.antt =====
-- Runs of the limiter with small limits, and the theorems at these inputs.
use gas_guard.Numbers.{fixed}
use gas_guard.Transactions.Suspicious.{TxWindow, success}
use gas_guard.Prelude.{
  ℕ, get, put, ◌+◌, ◌*◌, ◌≤◌, ◌<◌, ◌≡◌, ◌↔◌, refl, true, some, List, [], ◌∷◌, length, arith,
}
use gas_guard.Exec.{ok, throw}
use gas_guard.Transactions.Limiter.{
  LimiterConfig, LimitExceeded, Timestamps, Submission, per_minute, span_of, times_of, recent,
  get_status, check, submit, run, record_time,
}
use gas_guard.Transactions.Window.{check-get_status}
use gas_guard.Transactions.Bound.{run-get_status}
use gas_guard.Transactions.Retry.{check-retry}

abbrev small : LimiterConfig
small = record { max_per_minute = 2; max_per_hour = 3 }

abbrev two : Timestamps
two = ("m", 1000 ∷ 2500 ∷ []) ∷ []

abbrev history : List Submission
history =
    record { now = 1000; done = 1000; merchant = "m" }
    ∷ record { now = 2400; done = 2500; merchant = "m" }
    ∷ record { now = 2600; done = 2700; merchant = "n" }
    ∷ record { now = 3000; done = 3000; merchant = "m" }
    ∷ []

times_of-two : times_of "m" two ≡ 1000 ∷ 2500 ∷ []
unfolding times_of get
times_of-two = refl

-- The third transaction of the merchant is refused.
times_of-history : times_of "m" (run small history []) ≡ 1000 ∷ 2500 ∷ []
unfolding times_of run submit check record_time get put
times_of-history = refl

run-get_status_example :
    ((get_status small 4000 "m" (run small history [])).last_minute ≤ 2)
    × ((get_status small 4000 "m" (run small history [])).last_hour ≤ 3)
run-get_status_example = run-get_status small history 4000 "m" (
  omega arith,
  omega arith,
  (omega arith, omega arith, (omega arith, omega arith, (omega arith, omega arith, omega arith))),
)

abbrev refusal : LimitExceeded
refusal = record { period = per_minute; count = 2; limit = 2; retry_after = some 58 }

refused : (check small 3000 "m" two).0 ≡ throw refusal
unfolding check times_of get
refused = refl

check-retry_example :
    (r : ℕ) × (refusal.retry_after ≡ some r)
    × (1 ≤ r)
    × (r * 1000 ≤ span_of refusal.period)
    × (length (recent (span_of refusal.period) (3000 + r * 1000) (times_of "m" two)) < 2)
check-retry_example =
    check-retry small 3000 "m" two refusal (omega arith) (omega arith)
      (rw times_of-two (omega arith, (omega arith, tt))) refused

check-get_status_example : ((check small 61500 "m" two).0 ≡ ok (get_status small 61500 "m" two)) ↔ (
    (get_status small 61500 "m" two ≡ get_status small 61500 "m" two)
    × ((get_status small 61500 "m" two).allowed ≡ true))
check-get_status_example = check-get_status small 61500 "m" two (get_status small 61500 "m" two)

abbrev transfer : ℕ → TxWindow fixed
transfer t = record { timestamp = t; status = success; gas_used = 21000 }

abbrev five : List (TxWindow fixed)
five = transfer 1000 ∷ transfer 2000 ∷ transfer 3000 ∷ transfer 4000 ∷ transfer 5000 ∷ []
