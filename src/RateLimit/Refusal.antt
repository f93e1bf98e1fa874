-- ===== src/RateLimit/Refusal.antt =====
-- How RateLimitGuard refuses, what it does without Redis, and two requests at once.
use gas_guard.Prelude.{
  inr, inl, ℕ, suc, ◌+◌, ◌/◌, ◌-◌, ◌≤◌, ◌<◌, String, str_eq, ◌≡◌, refl, ◌∙◌, ◌⊎◌, Bool, true, false,
  Option, none, some, arith, if◌then◌else◌,
}
use gas_guard.Exec.{ok, throw}
use gas_guard.Http.{too_many_requests, service_unavailable, unauthorized}
use gas_guard.RateLimit.Plans.{
  FallbackMode, Window, minute, hour, day, window_duration, quota_of, RateLimitConfig, permissive,
  strict,
}
use gas_guard.RateLimit.Redis.{Redis, Entry, live}
use gas_guard.RateLimit.Service.{
  Env, check_limit, get_quota_for_key, get_window_count, increment_counter,
}
use gas_guard.RateLimit.Guard.{Headers, extract_api_key, can_activate, no_limit}
use gas_guard.RateLimit.Counters.{online, raised, entry-increment, get_quota_for_key-increment}
use gas_guard.RateLimit.Admission.{count_live}

mode_cases : (f : FallbackMode) → (f ≡ permissive) ⊎ (f ≡ strict)
mode_cases permissive = inl refl
mode_cases strict = inr refl

module _ (redis : Redis) (cfg : RateLimitConfig) where
  open redis use {Db}

  -- A refusal names a window that is full, and its reset time lies ahead by at most that window.
  refused_status :
      (now : ℕ) (k : String) (db : Db)
      → let st = check_limit redis cfg (online now) k db in
        st.allowed ≡ false
        → (now / 1000 < st.reset_time)
          × (st.reset_time ≤ now / 1000 + window_duration st.window)
          × (quota_of (get_quota_for_key redis cfg (online now) k db) st.window
              ≤ get_window_count redis cfg (online now) k st.window db)
  unfolding check_limit
  refused_status now k db h = ground arith

  -- With Redis connected, a request with a key that the check does not allow gets a 429 that names
  -- the seconds to wait, at least one and at most the full window's length, and changes nothing that
  -- is kept.
  pub can_activate-refused :
      (now : ℕ) (exec_ok : Bool) (headers : Headers) (k : String) (db : Db)
      → extract_api_key headers ≡ some k
      → str_eq k "" ≡ false
      → (check_limit redis cfg (online now) k db).allowed ≡ false
      → let st = check_limit redis cfg (online now) k db in
        let r =
          can_activate redis cfg
            (online now)
            exec_ok
            headers
            (record { db = db; headers = none }) in
        (wait : ℕ) × (r.0 ≡ throw (too_many_requests "Rate limit exceeded" wait))
        × (0 < wait)
        × (wait ≤ window_duration st.window)
        × (r.1.db ≡ db)
  unfolding can_activate
  can_activate-refused now exec_ok headers k db e n h =
      let st = check_limit redis cfg (online now) k db in
      let (later, soon, full) = refused_status now k db h in
      (st.reset_time - now / 1000, ground arith, omega arith, omega arith, ground arith)

  -- Without Redis, or without a key, the strict mode refuses and the permissive mode admits with no
  -- limit in the headers; neither counts anything.
  pub can_activate-fallback :
      (env : Env) (exec_ok : Bool) (headers : Headers) (db : Db)
      → (extract_api_key headers ≡ none) ⊎ (env.ready ≡ false)
      → let r = can_activate redis cfg env exec_ok headers (record { db = db; headers = none }) in
        (r.1.db ≡ db)
        × (((cfg.fallback_mode ≡ permissive) × (r.0 ≡ ok true) × (r.1.headers ≡ some no_limit))
            ⊎ ((cfg.fallback_mode ≡ strict)
                × (r.1.headers ≡ none)
                × ((r.0 ≡ throw (unauthorized "Missing API Key"))
                    ⊎ (r.0 ≡ throw (service_unavailable "Service Unavailable")))))
  unfolding can_activate
  can_activate-fallback env exec_ok headers db h = elim (mode_cases cfg.fallback_mode) [
    | inl p ↦ (ground arith, inl (p, ground arith, ground arith))
    | inr p ↦ (ground arith, inr (p, ground arith, ground arith))
  ]

  live-raised :
      (now : ℕ) (w : Window) (old : Option Entry)
      → live now (some (raised now w old)) ≡ some (raised now w old)
  live-raised now minute old = ground arith
  live-raised now hour old = ground arith
  live-raised now day old = ground arith

  -- Counting a request raises each window's count by one.
  pub count-increment :
      (now : ℕ) (k : String) (w : Window) (db : Db)
      → get_window_count redis cfg
          (online now)
          k
          w
          (increment_counter redis cfg (online now) true k db)
        ≡ suc (get_window_count redis cfg (online now) k w db)
  count-increment now k w db =
      count_live redis cfg now k w _
      ∙ rw (entry-increment redis cfg now k w db, live-raised now w)
          (rw (count_live redis cfg now k w db))

  -- Two requests of a key at one time, of which both are checked before either is counted.
  unfoldable pub handle_both : ℕ → String → Db → (Bool × Bool) × Db
  handle_both now k db =
      let first = (check_limit redis cfg (online now) k db).allowed in
      let second = (check_limit redis cfg (online now) k db).allowed in
      let once = if first then increment_counter redis cfg (online now) true k db else db in
      let twice = if second then increment_counter redis cfg (online now) true k once else once in
      ((first, second), twice)

  -- Where the check allows a request and one request is left in a window, two that are checked at once are both admitted, and the
  -- window's count then is above the quota.
  pub handle_both_overrun :
      (now : ℕ) (k : String) (w : Window) (db : Db)
      → (check_limit redis cfg (online now) k db).allowed ≡ true
      → get_window_count redis cfg (online now) k w db + 1
        ≡ quota_of (get_quota_for_key redis cfg (online now) k db) w
      → let r = handle_both now k db in
        (r.0 ≡ (true, true))
        × (quota_of (get_quota_for_key redis cfg (online now) k r.1) w
            < get_window_count redis cfg (online now) k w r.1)
  unfolding handle_both
  handle_both_overrun now k w db a h =
      let once = increment_counter redis cfg (online now) true k db in
      rw a (
        refl,
        rw
            (
              get_quota_for_key-increment redis cfg k now now k once,
              get_quota_for_key-increment redis cfg k now now k db,
            )
            (omega (arith, h, count-increment now k w db, count-increment now k w once)),
      )
