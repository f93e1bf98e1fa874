-- ===== src/Transactions/Retry.antt =====
-- The seconds to wait that a refusal names.
use gas_guard.Prelude.{
  ℕ, ◌+◌, ◌-◌, ◌*◌, ◌/◌, ◌≤◌, ◌<◌, String, ◌≡◌, inl, inr, some, List, [], ◌∷◌, leb, length, head?,
  All, Bool-cases, arith,
}
use gas_guard.Exec.{throw}
use gas_guard.Transactions.Limiter.{
  LimiterConfig, LimitExceeded, Period, per_minute, per_hour, minute_ms, hour_ms, within,
  Timestamps, times_of, recent, retry_seconds, span_of, exceeded, check,
}
use gas_guard.Transactions.Window.{recent-recent, recent-later}

-- The oldest of the times that a span holds says how long to wait until fewer are left.
wait :
    (span now : ℕ) (ts : List ℕ)
    → All (λ t. t ≤ now) ts
    → 0 < length (recent span now ts)
    → (r : ℕ) × (retry_seconds span now (head? (recent span now ts)) ≡ some r)
      × (1 ≤ r)
      × (r * 1000 ≤ span + 999)
      × (length (recent span (now + r * 1000) ts) < length (recent span now ts))
wait span now [] a h = absurd (omega (arith, h))
wait span now (t ∷ ts) a h = elim (Bool-cases (within span now t)) [
  | inr old ↦
      let (r, e, low, high, fewer) = wait span now ts a.1 (ground (arith, h, old)) in
      (r, ground (arith, e, old), low, high, ground (arith, fewer, old))
  | inl held ↦
      let later =
        recent-later span now (now + (t + span - now + 999) / 1000 * 1000) ts (omega arith) in
      (
        (t + span - now + 999) / 1000,
        ground (arith, held),
        ground (arith, held),
        ground (arith, a.0, held),
        ground (arith, held, later),
      )
]

whole : (p : Period) (r : ℕ) → r * 1000 ≤ span_of p + 999 → r * 1000 ≤ span_of p
whole per_minute r h = omega (arith, h)
whole per_hour r h = omega (arith, h)

module _ (cfg : LimiterConfig) where
  limit_of : Period → ℕ
  limit_of per_minute = cfg.max_per_minute
  limit_of per_hour = cfg.max_per_hour

  limit_of-pos : (p : Period) → 0 < cfg.max_per_minute → 0 < cfg.max_per_hour → 0 < limit_of p
  unfolding limit_of
  limit_of-pos per_minute a b = a
  limit_of-pos per_hour a b = b

  -- A refusal is for a period whose limit is reached.
  check-exceeded :
      (now : ℕ) (m : String) (s : Timestamps) (e : LimitExceeded)
      → (check cfg now m s).0 ≡ throw e
      → (p : Period) × (e ≡ exceeded p (limit_of p) now (recent (span_of p) now (times_of m s)))
        × (limit_of p ≤ length (recent (span_of p) now (times_of m s)))
  unfolding check limit_of
  check-exceeded now m s e h =
      let same = recent-recent minute_ms now now (times_of m s) (omega arith) (omega arith) in
      elim (Bool-cases (
        leb cfg.max_per_minute
          (length (recent minute_ms now (recent hour_ms now (times_of m s)))))) [
            | inl full ↦ (
              per_minute,
              rw (← same) (ground (arith, h, full)),
              rw (← same) (ground (arith, full)),
            )
            | inr free ↦ (per_hour, ground (arith, h, free), ground (arith, h, free))
          ]

  -- Where both limits are positive and no transaction is recorded in the future, a refusal names the
  -- seconds to wait: at least one, at most the period's length, and after them fewer transactions
  -- are left in the period than it counts.
  pub check-retry :
      (now : ℕ) (m : String) (s : Timestamps) (e : LimitExceeded)
      → 0 < cfg.max_per_minute
      → 0 < cfg.max_per_hour
      → All (λ t. t ≤ now) (times_of m s)
      → (check cfg now m s).0 ≡ throw e
      → (r : ℕ) × (e.retry_after ≡ some r)
        × (1 ≤ r)
        × (r * 1000 ≤ span_of e.period)
        × (length (recent (span_of e.period) (now + r * 1000) (times_of m s)) < e.count)
  unfolding limit_of
  check-retry now m s e a b past h =
      let (p, same, full) = check-exceeded now m s e h in
      let (r, f, low, high, fewer) =
        wait (span_of p) now (times_of m s) past (omega (arith, limit_of-pos p a b, full)) in
      rw same (r, f, low, whole p r high, fewer)
