-- ===== src/RateLimit/Config.antt =====
-- The configuration of an API key as RateLimitService reads and writes it:
-- apps/api/src/rate-limiting/services/rate-limit.service.ts.
use gas_guard.Prelude.{ℕ, Bool, true, false, ◌&&◌, Option, none, some, or_else}
use gas_guard.RateLimit.Plans.{TierPlan, free, QuotaConfig, default_tier_quotas, ApiKeyConfig}
use gas_guard.RateLimit.Redis.{Hash}

-- `Partial<QuotaConfig>`
pub record PartialQuota : Type 0 where
  pub requests_per_minute : Option ℕ
  pub requests_per_hour : Option ℕ
  pub requests_per_day : Option ℕ

abbrev pub absent {ℓ} : {A : Type ℓ} → Option A → Bool
absent none = true
absent (some a) = false

-- `Object.keys(data).length === 0`
abbrev pub is_empty : Hash → Bool
is_empty h =
    absent h.api_key
    && (absent h.tier
        && (absent h.custom_quota
            && (absent h.created_at && (absent h.updated_at && absent h.last_request_at))))

-- `data.customQuota ? JSON.parse(data.customQuota) : undefined`
abbrev pub parse_quota : Option (Option QuotaConfig) → Option QuotaConfig
parse_quota none = none
parse_quota (some q) = q

abbrev pub config_of : Hash → ApiKeyConfig
config_of h = record {
  api_key = h.api_key;
  tier = h.tier;
  custom_quota = parse_quota h.custom_quota;
  created_at = h.created_at;
  updated_at = h.updated_at;
  last_request_at = h.last_request_at;
}

abbrev pub tier_of : Option ApiKeyConfig → Option TierPlan
tier_of none = none
tier_of (some c) = c.tier

abbrev pub custom_of : Option ApiKeyConfig → Option QuotaConfig
custom_of none = none
custom_of (some c) = c.custom_quota

abbrev pub created_of : Option ApiKeyConfig → Option ℕ
created_of none = none
created_of (some c) = c.created_at

-- `config.customQuota`, and else the quota of the tier
unfoldable pub effective_quota : TierPlan → Option ApiKeyConfig → QuotaConfig
effective_quota default_tier config =
    or_else (custom_of config) (default_tier_quotas (or_else (tier_of config) default_tier))

-- `DEFAULT_TIER_QUOTAS[config.tier]`, which is undefined where the tier is.
abbrev pub tier_quota : Option TierPlan → Option QuotaConfig
tier_quota none = none
tier_quota (some t) = some (default_tier_quotas t)

abbrev pub or_quota : Option QuotaConfig → Option QuotaConfig → Option QuotaConfig
or_quota none q = q
or_quota (some q) _ = some q

abbrev pub quota_field : Option ℕ → (QuotaConfig → ℕ) → Option QuotaConfig → ℕ
quota_field given field none = or_else given (field (default_tier_quotas free))
quota_field given field (some q) = or_else given (field q)

-- The quota that `updateQuota` writes.
unfoldable pub updated_quota : PartialQuota → Option ApiKeyConfig → QuotaConfig
updated_quota q existing = record {
  requests_per_minute =
      quota_field q.requests_per_minute (λ c. c.requests_per_minute) (custom_of existing);
  requests_per_hour =
      quota_field q.requests_per_hour (λ c. c.requests_per_hour) (custom_of existing);
  requests_per_day = quota_field q.requests_per_day (λ c. c.requests_per_day) (custom_of existing);
}
