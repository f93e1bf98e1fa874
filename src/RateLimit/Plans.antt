-- ===== src/RateLimit/Plans.antt =====
-- Plans, quotas and windows: apps/api/src/rate-limiting/schemas/rate-limit.schema.ts and
-- config/rate-limit.config.ts.
use gas_guard.Prelude.{ℕ, String, Bool, true, false, Option}

pub data TierPlan : Type 0 where
  free standard premium enterprise : TierPlan

pub record QuotaConfig : Type 0 where
  pub requests_per_minute : ℕ
  pub requests_per_hour : ℕ
  pub requests_per_day : ℕ

abbrev pub default_tier_quotas : TierPlan → QuotaConfig
default_tier_quotas free = record {
  requests_per_minute = 10;
  requests_per_hour = 100;
  requests_per_day = 500;
}
default_tier_quotas standard = record {
  requests_per_minute = 60;
  requests_per_hour = 1000;
  requests_per_day = 5000;
}
default_tier_quotas premium = record {
  requests_per_minute = 300;
  requests_per_hour = 5000;
  requests_per_day = 25000;
}
default_tier_quotas enterprise = record {
  requests_per_minute = 1000;
  requests_per_hour = 20000;
  requests_per_day = 100000;
}

pub data Window : Type 0 where
  minute hour day : Window

-- Seconds.
abbrev pub window_duration : Window → ℕ
window_duration minute = 60
window_duration hour = 3600
window_duration day = 86400

abbrev pub same_window : Window → Window → Bool
same_window minute minute = true
same_window hour hour = true
same_window day day = true
same_window _ _ = false

-- The quota of a window.
abbrev pub quota_of : QuotaConfig → Window → ℕ
quota_of q minute = q.requests_per_minute
quota_of q hour = q.requests_per_hour
quota_of q day = q.requests_per_day

-- A number that may be `Infinity`.
pub data Amount : Type 0 where
  finite : ℕ → Amount
  infinity : Amount

pub record RateLimitStatus : Type 0 where
  pub allowed : Bool
  pub limit : Amount
  pub remaining : Amount
  pub reset_time : ℕ
  pub window : Window

pub record WindowUsage : Type 0 where
  pub used : ℕ
  pub limit : ℕ
  pub reset_time : ℕ

pub record UsageStats : Type 0 where
  pub api_key : Option String
  pub tier : Option TierPlan
  pub minute : WindowUsage
  pub hour : WindowUsage
  pub day : WindowUsage
  pub last_request_at : Option ℕ

-- The configuration as it is read back: a hash may lack each of its fields.
pub record ApiKeyConfig : Type 0 where
  pub api_key : Option String
  pub tier : Option TierPlan
  pub custom_quota : Option QuotaConfig
  pub created_at : Option ℕ
  pub updated_at : Option ℕ
  pub last_request_at : Option ℕ

pub data FallbackMode : Type 0 where
  permissive strict : FallbackMode

pub record RateLimitConfig : Type 0 where
  pub fallback_mode : FallbackMode
  pub default_tier : TierPlan
  pub enabled : Bool
