-- ===== src/Cache/Config.antt =====
-- How long each kind of answer is kept: apps/api-service/src/gas/caching/cache-config.ts. The numbers
-- come from the environment.
use gas_guard.Prelude.{
  ℕ, zero, suc, String, str_append, str_eq, Bool, Option, List, [], ◌∷◌, if◌then◌else◌,
}

-- Seconds.
pub record TtlConfig : Type 0 where
  pub base_fee : ℕ
  pub priority_fee : ℕ
  pub gas_estimate : ℕ
  pub chain_metrics : ℕ
  pub volatility_data : ℕ
  pub default_ttl : ℕ

pub record CacheConfig : Type 0 where
  pub ttl : TtlConfig
  pub enabled : Bool
  -- seconds; nothing reads them
  pub stale_while_revalidate : Option ℕ

-- `ttl || default`
abbrev pub or_default : ℕ → ℕ → ℕ
or_default zero d = d
or_default (suc n) d = suc n

-- Any other name is no key of the table.
unfoldable pub get_ttl : TtlConfig → String → ℕ
get_ttl ttl query_type =
    or_default
      (if str_eq query_type "baseFee"
        then ttl.base_fee
        else if str_eq query_type "priorityFee"
        then ttl.priority_fee
        else if str_eq query_type "gasEstimate"
        then ttl.gas_estimate
        else if str_eq query_type "chainMetrics"
        then ttl.chain_metrics
        else if str_eq query_type "volatilityData"
        then ttl.volatility_data
        else ttl.default_ttl)
      ttl.default_ttl

unfoldable pub join_parts : List String → String
join_parts [] = ""
join_parts (x ∷ []) = x
join_parts (x ∷ y ∷ xs) = str_append x (str_append ":" (join_parts (y ∷ xs)))

unfoldable pub build_cache_key : List String → String
unfolding join_parts
build_cache_key parts = str_append "gasguard:" (join_parts parts)
