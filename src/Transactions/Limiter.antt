-- ===== src/Transactions/Limiter.antt =====
-- RateLimitService: apps/api-service/src/transection/rate-limit.service.ts, and the way that
-- transactions.service.ts uses it. Times are milliseconds.
use gas_guard.Prelude.{
  ℕ, ◌+◌, ◌-◌, ◌/◌, String, Bool, true, ◌&&◌, Option, none, some, List, [], ◌∷◌, ◌++◌, ltb, leb,
  length, filter, head?, or_else, Dict, get, put, if◌then◌else◌,
}
use gas_guard.Exec.{Outcome, ok, throw}

pub record LimiterConfig : Type 0 where
  pub max_per_minute : ℕ
  pub max_per_hour : ℕ

abbrev pub default_config : LimiterConfig
default_config = record { max_per_minute = 10; max_per_hour = 100 }

pub record LimitStatus : Type 0 where
  pub allowed : Bool
  pub merchant_id : String
  pub last_minute : ℕ
  pub last_hour : ℕ
  pub limit_per_minute : ℕ
  pub limit_per_hour : ℕ

pub data Period : Type 0 where
  per_minute per_hour : Period

-- The exception with status 429: the limit, the count, and the seconds to wait. With a limit of 0 and
-- no transaction these are not a number.
pub record LimitExceeded : Type 0 where
  pub period : Period
  pub count : ℕ
  pub limit : ℕ
  pub retry_after : Option ℕ

abbrev pub minute_ms : ℕ
minute_ms = 60000

abbrev pub hour_ms : ℕ
hour_ms = 3600000

-- `t > now - span`
abbrev pub within : ℕ → ℕ → ℕ → Bool
within span now t = ltb now (t + span)

-- `this.timestamps`: of each merchant, oldest first.
abbrev pub Timestamps : Type 0
Timestamps = Dict (List ℕ)

unfoldable pub times_of : String → Timestamps → List ℕ
times_of m s = or_else (get m s) []

abbrev pub recent : ℕ → ℕ → List ℕ → List ℕ
recent span now ts = filter (within span now) ts

-- `Math.ceil((oldest + span - now) / 1000)`
abbrev pub retry_seconds : ℕ → ℕ → Option ℕ → Option ℕ
retry_seconds span now none = none
retry_seconds span now (some oldest) = some ((oldest + span - now + 999) / 1000)

-- The length of a period.
abbrev pub span_of : Period → ℕ
span_of per_minute = minute_ms
span_of per_hour = hour_ms

-- The exception for the times that a period holds.
abbrev pub exceeded : Period → ℕ → ℕ → List ℕ → LimitExceeded
exceeded p limit now ts = record {
  period = p;
  count = length ts;
  limit = limit;
  retry_after = retry_seconds (span_of p) now (head? ts);
}

module _ (cfg : LimiterConfig) where
  -- `getStatus`, of the merchant's times.
  abbrev pub status_of : ℕ → String → List ℕ → LimitStatus
  status_of now m ts =
      let hour = recent hour_ms now ts in
      let last_minute = length (recent minute_ms now hour) in
      record {
        allowed = ltb last_minute cfg.max_per_minute && ltb (length hour) cfg.max_per_hour;
        merchant_id = m;
        last_minute = last_minute;
        last_hour = length hour;
        limit_per_minute = cfg.max_per_minute;
        limit_per_hour = cfg.max_per_hour;
      }

  unfoldable pub get_status : ℕ → String → Timestamps → LimitStatus
  get_status now m s = status_of now m (times_of m s)

  -- The two limits, of the times that are left within the hour.
  check_limits : ℕ → String → List ℕ → Outcome LimitExceeded LimitStatus
  check_limits now m hour =
      let minute = recent minute_ms now hour in
      if leb cfg.max_per_minute (length minute)
      then throw (exceeded per_minute cfg.max_per_minute now minute)
      else if leb cfg.max_per_hour (length hour)
      then throw (exceeded per_hour cfg.max_per_hour now hour)
      else ok (record {
        allowed = true;
        merchant_id = m;
        last_minute = length minute;
        last_hour = length hour;
        limit_per_minute = cfg.max_per_minute;
        limit_per_hour = cfg.max_per_hour;
      })

  -- Times older than an hour are dropped first.
  unfoldable pub check : ℕ → String → Timestamps → Outcome LimitExceeded LimitStatus × Timestamps
  unfolding check_limits
  check now m s =
      let hour = recent hour_ms now (times_of m s) in (check_limits now m hour, put m hour s)

-- `record`
unfoldable pub record_time : ℕ → String → Timestamps → Timestamps
record_time now m s = put m (times_of m s ++ now ∷ []) s

-- A transaction that is checked, and recorded once it is saved at the time `done`.
abbrev pub recorded : ℕ → String → Outcome LimitExceeded LimitStatus → Timestamps → Timestamps
recorded done m (ok st) s = record_time done m s
recorded done m (throw e) s = s

unfoldable pub submit : LimiterConfig → ℕ → ℕ → String → Timestamps → Timestamps
submit cfg now done m s = recorded done m (check cfg now m s).0 (check cfg now m s).1

-- A transaction: when it is checked, when it is saved, and whose it is.
pub record Submission : Type 0 where
  pub now : ℕ
  pub done : ℕ
  pub merchant : String

unfoldable pub run : LimiterConfig → List Submission → Timestamps → Timestamps
run cfg [] s = s
run cfg (x ∷ xs) s = run cfg xs (submit cfg x.now x.done x.merchant s)
