-- ===== src/RateLimit/Admin.antt =====
-- What the administrator's calls of RateLimitService leave: tiers, quotas, resets and usage reports.
use gas_guard.Prelude.{
  Bool-cases, ◌⊎◌, inr, inl, ℕ, ◌<◌, String, eq_refl, ◌≡◌, refl, true, false, Option, none, some,
  arith, or_else,
}
use gas_guard.Exec.{ok, throw}
use gas_guard.RateLimit.Plans.{
  quota_of, Window, minute, hour, day, TierPlan, QuotaConfig, default_tier_quotas, RateLimitConfig,
  same_window,
}
use gas_guard.RateLimit.Redis.{Redis, Hash, no_fields}
use gas_guard.RateLimit.Config.{PartialQuota, updated_quota, custom_of}
use gas_guard.RateLimit.Service.{
  Env, redis_unavailable, type_error, window_key, get_api_key_config, get_quota_for_key,
  get_window_count, update_quota, set_tier, reset_counter, get_usage, increment_counter,
  check_limit,
}
use gas_guard.RateLimit.Counters.{online, same_key_refl, hgetall-increment}
use gas_guard.RateLimit.Admission.{count_live, check_limit-allowed}

module _ (redis : Redis) (cfg : RateLimitConfig) where
  open redis use {Db, entry, hset, hgetall, hgetall-hset, hgetall-del, del, entry-del}

  -- A hash with a tier and a quota field gives the key's quota.
  configured :
      (t : ℕ) (k : String) (h : Hash) (tier : TierPlan) (custom : Option QuotaConfig) (db : Db)
      → h.tier ≡ some tier
      → h.custom_quota ≡ some custom
      → get_quota_for_key redis cfg (online t) k (hset k h db)
        ≡ or_else custom (default_tier_quotas tier)
  unfolding get_quota_for_key
  configured t k h tier custom db p q = ground (arith, hgetall-hset k k h db, eq_refl k)

  -- While Redis is not connected `setTier` throws and changes nothing. Else it succeeds, and the key
  -- has the tier's quota, but for a custom quota, which stays in force.
  pub set_tier_lem :
      (env : Env) (t : ℕ) (k : String) (tier : TierPlan) (db : Db)
      → ((env.ready ≡ false) × (set_tier redis cfg env k tier db ≡ (throw redis_unavailable, db)))
        ⊎ ((env.ready ≡ true)
            × ((set_tier redis cfg env k tier db).0 ≡ ok tt)
            × (get_quota_for_key redis cfg (online t) k (set_tier redis cfg env k tier db).1
                ≡ or_else
                    (custom_of (get_api_key_config redis cfg env k db))
                    (default_tier_quotas tier)))
  unfolding set_tier
  set_tier_lem env t k tier db = elim (Bool-cases env.ready) [
    | inl h ↦ inr (h, ground arith, rw h (configured t k _ tier _ db refl refl))
    | inr h ↦ inl (h, ground arith)
  ]

  -- While Redis is not connected `updateQuota` throws and changes nothing. Else it succeeds, and the
  -- key has the quota that was asked for; a window that was left out has that of the custom quota
  -- before, or else that of the free plan.
  pub update_quota_lem :
      (env : Env) (t : ℕ) (k : String) (q : PartialQuota) (db : Db)
      → ((env.ready ≡ false) × (update_quota redis cfg env k q db ≡ (throw redis_unavailable, db)))
        ⊎ ((env.ready ≡ true)
            × ((update_quota redis cfg env k q db).0 ≡ ok tt)
            × (get_quota_for_key redis cfg (online t) k (update_quota redis cfg env k q db).1
                ≡ updated_quota q (get_api_key_config redis cfg env k db)))
  unfolding update_quota
  update_quota_lem env t k q db = elim (Bool-cases env.ready) [
    | inl h ↦ inr (h, ground arith, rw h (configured t k _ _ _ db refl refl))
    | inr h ↦ inl (h, ground arith)
  ]

  -- With Redis connected, a key that was never configured has no usage report; after its first
  -- request the report fails with a type error.
  pub get_usage-increment :
      (now t : ℕ) (k : String) (db : Db)
      → hgetall k db ≡ no_fields
      → (get_usage redis cfg (online t) k db ≡ ok none)
        × (get_usage redis cfg (online t) k (increment_counter redis cfg (online now) true k db)
            ≡ throw type_error)
  unfolding get_usage get_api_key_config
  get_usage-increment now t k db h =
      (ground arith, ground (arith, hgetall-increment redis cfg now k db))

  entry-del_self :
      (now : ℕ) (k : String) (w : Window) (db : Db)
      → entry (window_key now k w) (del (window_key now k w) db) ≡ none
  entry-del_self now k w db =
      rw
        (entry-del (window_key now k w) (window_key now k w) db, same_key_refl (window_key now k w))

  entry-del_window :
      (now : ℕ) (k : String) (w v : Window) (db : Db)
      → same_window v w ≡ false
      → entry (window_key now k w) (del (window_key now k v) db) ≡ entry (window_key now k w) db
  entry-del_window now k w v db h =
      rw (entry-del (window_key now k w) (window_key now k v) db) (ground (arith, eq_refl k))

  entry-reset :
      (now : ℕ) (k : String) (w : Window) (db : Db)
      → entry (window_key now k w) (reset_counter redis cfg (online now) k db).1 ≡ none
  unfolding reset_counter
  entry-reset now k minute db =
      rw (entry-del_window now k minute day _ refl)
        (rw (entry-del_window now k minute hour _ refl) (entry-del_self now k minute db))
  entry-reset now k hour db =
      rw (entry-del_window now k hour day _ refl) (entry-del_self now k hour _)
  entry-reset now k day db = entry-del_self now k day _

  quota-reset :
      (now : ℕ) (k : String) (db : Db)
      → get_quota_for_key redis cfg (online now) k (reset_counter redis cfg (online now) k db).1
        ≡ get_quota_for_key redis cfg (online now) k db
  unfolding get_quota_for_key reset_counter
  quota-reset now k db = rw (hgetall-del, hgetall-del, hgetall-del)

  -- With the limits enabled, Redis connected and a quota of at least 1 in each window: after a reset
  -- each window's count of the key is 0, and the next request in these windows is allowed.
  pub check_limit-reset :
      (now : ℕ) (k : String) (db : Db)
      → cfg.enabled ≡ true
      → ((w : Window) → 0 < quota_of (get_quota_for_key redis cfg (online now) k db) w)
      → let db' = (reset_counter redis cfg (online now) k db).1 in
        ((w : Window) → get_window_count redis cfg (online now) k w db' ≡ 0)
        × ((check_limit redis cfg (online now) k db').allowed ≡ true)
  check_limit-reset now k db e h =
      let db' = (reset_counter redis cfg (online now) k db).1 in
      let zeros : (w : Window) → get_window_count redis cfg (online now) k w db' ≡ 0 =
        λ w. rw (count_live redis cfg now k w db', entry-reset now k w db) in
      (
        zeros,
        (check_limit-allowed redis cfg now k db' e).1
            (λ w. rw (zeros w, quota-reset now k db) (h w)),
      )
