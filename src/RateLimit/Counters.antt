-- ===== src/RateLimit/Counters.antt =====
-- What the increment of a request does to the counters and the configuration of each key.
use gas_guard.Prelude.{
  ℕ, suc, ◌+◌, ◌*◌, String, str_eq, eq_iff, eq_refl, ◌≡◌, ◌≢◌, refl, inl, inr, true, false, Option,
  none, some, arith, ◌∙◌, Bool-cases, if◌then◌else◌,
}
use gas_guard.RateLimit.Plans.{
  same_window, Window, minute, hour, day, window_duration, RateLimitConfig,
}
use gas_guard.RateLimit.Redis.{Redis, CounterKey, Entry, same_key, live, merge, no_fields}
use gas_guard.RateLimit.Service.{Env, window_key, increment_counter, get_quota_for_key}

abbrev pub online : ℕ → Env
online now = record { now = now; ready = true }

abbrev pub value_of : Option Entry → ℕ
value_of none = 0
value_of (some e) = e.value

-- A counter that has just been raised.
abbrev pub raised : ℕ → Window → Option Entry → Entry
raised now w old = record {
  value = suc (value_of (live now old));
  expires = some (now + 1000 * window_duration w);
}

pub same_key_refl : (k : CounterKey) → same_key k k ≡ true
same_key_refl k = ground (arith, eq_refl k.api_key)

module _ (redis : Redis) (cfg : RateLimitConfig) where
  open redis use {
    Db, entry, incr, expire, hset, hgetall, entry-incr, entry-expire, entry-hset, get_lem,
    hgetall-hset, hgetall-incr, hgetall-expire,
  }

  bump : ℕ → String → Window → Db → Db
  bump now api_key w db =
      expire now (window_key now api_key w) (window_duration w)
        (incr now (window_key now api_key w) db)

  entry-bump :
      (j : CounterKey) (now : ℕ) (k : String) (w : Window) (db : Db)
      → entry j (bump now k w db)
        ≡ (if same_key (window_key now k w) j then some (raised now w (entry j db)) else entry j db)
  unfolding bump
  entry-bump j now k w db = ground (
    arith,
    entry-expire j now (window_key now k w) (window_duration w) (incr now (window_key now k w) db),
    entry-incr j now (window_key now k w) db,
  )

  hgetall-bump :
      (j : String) (now : ℕ) (k : String) (w : Window) (db : Db)
      → hgetall j (bump now k w db) ≡ hgetall j db
  unfolding bump
  hgetall-bump j now k w db = ground (
    arith,
    hgetall-expire j now (window_key now k w) (window_duration w)
        (incr now (window_key now k w) db),
    hgetall-incr j now (window_key now k w) db,
  )

  increment-bump :
      (now : ℕ) (k : String) (db : Db)
      → increment_counter redis cfg (online now) true k db
        ≡ hset k
            (record no_fields { last_request_at = some now })
            (bump now k day (bump now k hour (bump now k minute db)))
  unfolding increment_counter bump
  increment-bump now k db = refl

  -- A request of another key leaves the counter.
  pub entry-increment_other :
      (j : CounterKey) (now : ℕ) (k : String) (db : Db)
      → k ≢ j.api_key
      → entry j (increment_counter redis cfg (online now) true k db) ≡ entry j db
  entry-increment_other j now k db h = rw increment-bump (
      rw
        (entry-hset j k (record no_fields { last_request_at = some now })
          (bump now k day (bump now k hour (bump now k minute db))))
        (ground (
          arith,
          eq_iff k j.api_key,
          entry-bump j now k day (bump now k hour (bump now k minute db)),
          entry-bump j now k hour (bump now k minute db),
          entry-bump j now k minute db,
        )))

  entry-bump_self :
      (now : ℕ) (k : String) (w : Window) (db : Db)
      → entry (window_key now k w) (bump now k w db)
        ≡ some (raised now w (entry (window_key now k w) db))
  entry-bump_self now k w db =
      rw (entry-bump (window_key now k w) now k w db, same_key_refl (window_key now k w))

  entry-bump_window :
      (now : ℕ) (k : String) (w v : Window) (db : Db)
      → same_window v w ≡ false
      → entry (window_key now k w) (bump now k v db) ≡ entry (window_key now k w) db
  entry-bump_window now k w v db h =
      rw (entry-bump (window_key now k w) now k v db) (ground (arith, eq_refl k))

  -- Each window's counter of the key goes up by one, and lives for the window's length.
  pub entry-increment :
      (now : ℕ) (k : String) (w : Window) (db : Db)
      → entry (window_key now k w) (increment_counter redis cfg (online now) true k db)
        ≡ some (raised now w (entry (window_key now k w) db))
  entry-increment now k w db = rw increment-bump (
      rw
        (entry-hset (window_key now k w) k (record no_fields { last_request_at = some now })
          (bump now k day (bump now k hour (bump now k minute db))))
        (raised_by w))
    where
      raised_by :
          (v : Window)
          → entry (window_key now k v) (bump now k day (bump now k hour (bump now k minute db)))
            ≡ some (raised now v (entry (window_key now k v) db))
      raised_by minute =
          entry-bump_window now k minute day (bump now k hour (bump now k minute db)) refl
          ∙ (entry-bump_window now k minute hour (bump now k minute db) refl
              ∙ entry-bump_self now k minute db)
      raised_by hour =
          entry-bump_window now k hour day (bump now k hour (bump now k minute db)) refl
          ∙ (entry-bump_self now k hour (bump now k minute db)
              ∙ rw (entry-bump_window now k hour minute db refl))
      raised_by day =
          entry-bump_self now k day (bump now k hour (bump now k minute db))
          ∙ rw (entry-bump_window now k day hour (bump now k minute db) refl)
              (rw (entry-bump_window now k day minute db refl))

  -- A request of another key leaves the configuration of the key.
  pub hgetall-increment_other :
      (j : String) (now : ℕ) (k : String) (db : Db)
      → k ≢ j
      → hgetall j (increment_counter redis cfg (online now) true k db) ≡ hgetall j db
  hgetall-increment_other j now k db h = rw increment-bump (
      ground (
        arith,
        eq_iff k j,
        hgetall-hset j k (record no_fields { last_request_at = some now })
            (bump now k day (bump now k hour (bump now k minute db))),
        hgetall-bump j now k day (bump now k hour (bump now k minute db)),
        hgetall-bump j now k hour (bump now k minute db),
        hgetall-bump j now k minute db,
      ))

  -- A request of the key itself sets the time of its last request.
  pub hgetall-increment :
      (now : ℕ) (k : String) (db : Db)
      → hgetall k (increment_counter redis cfg (online now) true k db)
        ≡ merge (hgetall k db) (record no_fields { last_request_at = some now })
  hgetall-increment now k db = rw increment-bump (
      ground (
        arith,
        eq_refl k,
        hgetall-hset k k (record no_fields { last_request_at = some now })
            (bump now k day (bump now k hour (bump now k minute db))),
        hgetall-bump k now k day (bump now k hour (bump now k minute db)),
        hgetall-bump k now k hour (bump now k minute db),
        hgetall-bump k now k minute db,
      ))

  -- What a request asks of the configuration is kept: the quota of a key stays the same.
  pub get_quota_for_key-increment :
      (j : String) (now t : ℕ) (k : String) (db : Db)
      → get_quota_for_key redis cfg
          (online t)
          j
          (increment_counter redis cfg (online now) true k db)
        ≡ get_quota_for_key redis cfg (online t) j db
  unfolding get_quota_for_key
  get_quota_for_key-increment j now t k db = elim (Bool-cases (str_eq k j)) [
    | inr other ↦ ground (arith, eq_iff k j, hgetall-increment_other j now k db)
    | inl same ↦ ground (arith, eq_iff k j, hgetall-increment now k db)
  ]
