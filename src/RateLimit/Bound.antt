-- ===== src/RateLimit/Bound.antt =====
-- No history of requests within a window gets more admissions than the key's quota.
use gas_guard.Prelude.{
  ℕ, suc, ◌+◌, ◌*◌, ◌/◌, ◌≤◌, ◌<◌, max, String, str_eq, eq_iff, ◌≡◌, refl, ◌∙◌, ap, ◌⊎◌, inl, inr,
  true, false, none, some, List, [], ◌∷◌, All, arith, Bool-cases, Option-cases,
}
use gas_guard.RateLimit.Plans.{
  Window, minute, hour, day, window_duration, quota_of, RateLimitConfig,
}
use gas_guard.RateLimit.Redis.{Redis, CounterKey, live}
use gas_guard.RateLimit.Service.{get_quota_for_key, increment_counter}
use gas_guard.RateLimit.Guard.{extract_api_key}
use gas_guard.RateLimit.Counters.{
  online, value_of, entry-increment, entry-increment_other, get_quota_for_key-increment,
}
use gas_guard.RateLimit.Admission.{
  Request, has_key, handle, handle-count, handle-none, handle-empty, admitted, handle_key,
}

-- The window of its length that the time falls in.
abbrev pub bucket : Window → ℕ → ℕ
bucket w now = now / 1000 / window_duration w

abbrev pub bucket_key : String → Window → ℕ → CounterKey
bucket_key k w b = record { api_key = k; window = w; window_start = b * window_duration w }

abbrev bucket_end : Window → ℕ → ℕ
bucket_end w b = (b * window_duration w + window_duration w) * 1000

bucket_bounds :
    (w : Window) (now b : ℕ)
    → bucket w now ≡ b
    → (now < bucket_end w b) × (bucket_end w b ≤ now + 1000 * window_duration w)
bucket_bounds minute now b h = omega arith
bucket_bounds hour now b h = omega arith
bucket_bounds day now b h = omega arith

own_key : (k : String) (r : Request) → has_key k r ≡ true → extract_api_key r.headers ≡ some k
own_key k r h = elim (Option-cases (extract_api_key r.headers)) [
  | inl e ↦ ground arith
  | inr (j, e) ↦ ground (arith, eq_iff j k)
]

module _ (redis : Redis) (cfg : RateLimitConfig) (k : String) (w : Window) (b : ℕ) where
  open redis use {Db, entry}

  -- The counter of the window holds the count, and outlives the window.
  abbrev pub Counts : ℕ → Db → Type 0
  Counts c db =
      ((entry (bucket_key k w b) db ≡ none) × (c ≡ 0))
      ⊎ ((x : ℕ) × (entry (bucket_key k w b) db ≡ some (record { value = c; expires = some x }))
          × (bucket_end w b ≤ x))

  Counts-live :
      (now c : ℕ) (db : Db)
      → bucket w now ≡ b
      → Counts c db
      → value_of (live now (entry (bucket_key k w b) db)) ≡ c
  Counts-live now c db h (inl (e, z)) = ground arith
  Counts-live now c db h (inr (x, e, l)) = ground (arith, bucket_bounds w now b h)

  Counts-increment :
      (now c : ℕ) (db : Db)
      → bucket w now ≡ b
      → Counts c db
      → Counts (suc c) (increment_counter redis cfg (online now) true k db)
  Counts-increment now c db h v = inr (
    now + 1000 * window_duration w,
    (rw h at (entry-increment redis cfg now k w db)) ∙ ap some (rw (Counts-live now c db h v)),
    (bucket_bounds w now b h).1,
  )

  -- A request without the key leaves the key's counters and quota.
  handle_other :
      (r : Request) (db : Db)
      → has_key k r ≡ false
      → str_eq k "" ≡ false
      → (entry (bucket_key k w b) (handle redis cfg r db).1 ≡ entry (bucket_key k w b) db)
        × (get_quota_for_key redis cfg (online 0) k (handle redis cfg r db).1
            ≡ get_quota_for_key redis cfg (online 0) k db)
  handle_other r db h n = elim (Option-cases (extract_api_key r.headers)) [
    | inl e ↦ rw (handle-none redis cfg r db e) (refl, refl)
    | inr (j, e) ↦ elim (Bool-cases (str_eq j "")) [
      | inl empty ↦ rw (handle-empty redis cfg r j db e empty) (refl, refl)
      | inr full ↦ elim (handle_key redis cfg r j db e full) [
        | inl (a, o, d) ↦ rw d (
          entry-increment_other redis cfg (bucket_key k w b) r.now j db
              (λ p. ground (arith, eq_iff j k)),
          get_quota_for_key-increment redis cfg k r.now 0 j db,
        )
        | inr (o, d) ↦ rw d (refl, refl)
      ]
    ]
  ]

  -- With the limits enabled, a window that holds `c` requests of a key that is not empty, and any
  -- requests in that window, handled one after the other while Redis works: those admitted for the
  -- key and `c` are together at most the greater of the key's quota and `c`, whichever requests of
  -- other keys come between.
  pub admitted-le :
      (rs : List Request) (c limit : ℕ) (db : Db)
      → cfg.enabled ≡ true
      → str_eq k "" ≡ false
      → All (λ r. bucket w r.now ≡ b) rs
      → Counts c db
      → quota_of (get_quota_for_key redis cfg (online 0) k db) w ≡ limit
      → admitted redis cfg k rs db + c ≤ max limit c
  unfolding admitted
  admitted-le [] c limit db on n h v q = omega arith
  admitted-le (r ∷ rs) c limit db on n h v q = elim (Bool-cases (has_key k r)) [
    | inr other ↦
        let (same, quota) = handle_other r db other n in
        ground (
          arith,
          admitted-le rs c limit (handle redis cfg r db).1 on n h.1 (rw same v) (rw quota q),
        )
    | inl own ↦ elim (handle_key redis cfg r k db (own_key k r own) n) [
      | inr (o, d) ↦ ground (arith, admitted-le rs c limit db on n h.1 v q)
      | inl (a, o, d) ↦
          let below : c < limit =
            rw (Counts-live r.now c db h.0 v, q) at
              (rw h.0 at (handle-count redis cfg r k w db on a)) in
          let next = increment_counter redis cfg (online r.now) true k db in
          let left =
            admitted-le rs (suc c) limit next on n h.1 (Counts-increment r.now c db h.0 v)
              (rw (get_quota_for_key-increment redis cfg k r.now 0 k db) q) in
          ground arith
    ]
  ]
