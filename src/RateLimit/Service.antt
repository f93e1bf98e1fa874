-- ===== src/RateLimit/Service.antt =====
-- RateLimitService: apps/api/src/rate-limiting/services/rate-limit.service.ts. One reading of the
-- clock and one of the connection (`isReady`) serve a whole call.
use gas_guard.Prelude.{
  ℕ, ◌+◌, ◌-◌, ◌*◌, ◌/◌, String, Bool, true, false, not, Option, none, some, List, [], ◌∷◌, leb,
  or_else, if◌then◌else◌,
}
use gas_guard.Exec.{Outcome, ok, throw}
use gas_guard.RateLimit.Plans.{
  TierPlan, QuotaConfig, Window, minute, hour, day, window_duration, quota_of, finite, infinity,
  RateLimitStatus, WindowUsage, UsageStats, ApiKeyConfig, RateLimitConfig,
}
use gas_guard.RateLimit.Redis.{Redis, CounterKey, no_fields}
use gas_guard.RateLimit.Config.{
  PartialQuota, is_empty, config_of, tier_of, custom_of, created_of, effective_quota, tier_quota,
  or_quota, updated_quota,
}

-- What a method throws: `new Error('Redis unavailable')`, or the read of a property of `undefined`.
pub data ServiceError : Type 0 where
  redis_unavailable type_error : ServiceError

-- The clock in milliseconds, and whether the client is connected.
pub record Env : Type 0 where
  pub now : ℕ
  pub ready : Bool

-- `Math.floor(now / duration) * duration`, in seconds
abbrev pub window_start : ℕ → Window → ℕ
window_start now w = now / 1000 / window_duration w * window_duration w

abbrev pub window_key : ℕ → String → Window → CounterKey
window_key now api_key w = record {
  api_key = api_key;
  window = w;
  window_start = window_start now w;
}

abbrev pub window_reset_time : ℕ → Window → ℕ
window_reset_time now w = window_start now w + window_duration w

abbrev pub windows : List Window
windows = minute ∷ hour ∷ day ∷ []

module _ (redis : Redis) (cfg : RateLimitConfig) where
  open redis use {Db, get, incr, expire, del, hset, hgetall}

  unfoldable pub get_api_key_config : Env → String → Db → Option ApiKeyConfig
  get_api_key_config env api_key db =
      if not env.ready
      then none
      else if is_empty (hgetall api_key db)
      then none
      else some (config_of (hgetall api_key db))

  unfoldable pub get_quota_for_key : Env → String → Db → QuotaConfig
  unfolding get_api_key_config effective_quota
  get_quota_for_key env api_key db =
      effective_quota cfg.default_tier (get_api_key_config env api_key db)

  unfoldable pub get_window_count : Env → String → Window → Db → ℕ
  get_window_count env api_key w db =
      if not env.ready then 0 else or_else (get env.now (window_key env.now api_key w) db) 0

  -- The first window that is full.
  check_windows : Env → String → QuotaConfig → List Window → Db → Option RateLimitStatus
  check_windows env api_key quota [] db = none
  check_windows env api_key quota (w ∷ ws) db =
      if leb (quota_of quota w) (get_window_count env api_key w db)
      then some (record {
        allowed = false;
        limit = finite (quota_of quota w);
        remaining = finite 0;
        reset_time = window_reset_time env.now w;
        window = w;
      })
      else check_windows env api_key quota ws db

  unlimited : RateLimitStatus
  unlimited = record {
    allowed = true;
    limit = infinity;
    remaining = infinity;
    reset_time = 0;
    window = minute;
  }

  unfoldable pub check_limit : Env → String → Db → RateLimitStatus
  unfolding check_windows unlimited
  check_limit env api_key db =
      if not cfg.enabled
      then unlimited
      else let quota = get_quota_for_key env api_key db in
        or_else (check_windows env api_key quota windows db) (record {
          allowed = true;
          limit = finite quota.requests_per_minute;
          remaining =
              finite (quota.requests_per_minute - get_window_count env api_key minute db - 1);
          reset_time = window_reset_time env.now minute;
          window = minute;
        })

  -- The commands of the pipeline for the windows, in order.
  increment_windows : ℕ → String → List Window → Db → Db
  increment_windows now api_key [] db = db
  increment_windows now api_key (w ∷ ws) db =
      let key = window_key now api_key w in
      increment_windows now api_key ws (expire now key (window_duration w) (incr now key db))

  -- `exec_ok` says whether the pipeline is executed; a failure is logged.
  unfoldable pub increment_counter : Env → Bool → String → Db → Db
  unfolding increment_windows
  increment_counter env exec_ok api_key db =
      if not env.ready
      then db
      else if exec_ok
      then hset api_key (record no_fields { last_request_at = some env.now })
          (increment_windows env.now api_key windows db)
      else db

  window_usage : Env → String → QuotaConfig → Window → Db → WindowUsage
  window_usage env api_key quota w db = record {
    used = get_window_count env api_key w db;
    limit = quota_of quota w;
    reset_time = window_reset_time env.now w;
  }

  usage_of :
      Env
      → String
      → ApiKeyConfig
      → Option QuotaConfig
      → Db
      → Outcome ServiceError (Option UsageStats)
  unfolding window_usage
  usage_of env api_key config none db = throw type_error
  usage_of env api_key config (some quota) db = ok (
      some (record {
        api_key = some api_key;
        tier = config.tier;
        minute = window_usage env api_key quota minute db;
        hour = window_usage env api_key quota hour db;
        day = window_usage env api_key quota day db;
        last_request_at = config.last_request_at;
      }))

  unfoldable pub get_usage : Env → String → Db → Outcome ServiceError (Option UsageStats)
  unfolding usage_of
  get_usage env api_key db = elim (get_api_key_config env api_key db) [
    | none ↦ ok none
    | some config ↦
        usage_of env api_key config (or_quota config.custom_quota (tier_quota config.tier)) db
  ]

  delete_windows : ℕ → String → List Window → Db → Db
  delete_windows now api_key [] db = db
  delete_windows now api_key (w ∷ ws) db =
      delete_windows now api_key ws (del (window_key now api_key w) db)

  unfoldable pub reset_counter : Env → String → Db → Outcome ServiceError Unit × Db
  unfolding delete_windows
  reset_counter env api_key db =
      if not env.ready
      then (throw redis_unavailable, db)
      else (ok tt, delete_windows env.now api_key windows db)

  unfoldable pub update_quota : Env → String → PartialQuota → Db → Outcome ServiceError Unit × Db
  update_quota env api_key quota db =
      if not env.ready
      then (throw redis_unavailable, db)
      else let existing = get_api_key_config env api_key db in
        (
          ok tt,
          hset api_key
              (record no_fields {
                api_key = some api_key;
                tier = some (or_else (tier_of existing) cfg.default_tier);
                custom_quota = some (some (updated_quota quota existing));
                created_at = some (or_else (created_of existing) env.now);
                updated_at = some env.now;
              })
              db,
        )

  unfoldable pub set_tier : Env → String → TierPlan → Db → Outcome ServiceError Unit × Db
  set_tier env api_key tier db =
      if not env.ready
      then (throw redis_unavailable, db)
      else let existing = get_api_key_config env api_key db in
        (
          ok tt,
          hset api_key
              (record no_fields {
                api_key = some api_key;
                tier = some tier;
                custom_quota = some (custom_of existing);
                created_at = some (or_else (created_of existing) env.now);
                updated_at = some env.now;
              })
              db,
        )
