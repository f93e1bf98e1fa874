-- ===== src/Transactions/Window.antt =====
-- What the limiter admits in each minute and each hour.
use gas_guard.Prelude.{
  ℕ, suc, ◌≤◌, String, str_eq, eq_iff, ◌≡◌, ◌↔◌, refl, inl, inr, true, List, [], ◌∷◌, ◌++◌, length,
  put, get-put, length-append, filter-append, length-filter-le, filter-filter, Bool-cases, arith,
  if◌then◌else◌,
}
use gas_guard.Exec.{ok}
use gas_guard.Transactions.Limiter.{
  LimiterConfig, LimitStatus, minute_ms, hour_ms, within, Timestamps, times_of, recent, status_of,
  get_status, check,
}

pub times_of-put :
    (m j : String) (ts : List ℕ) (s : Timestamps)
    → times_of j (put m ts s) ≡ (if str_eq m j then ts else times_of j s)
unfolding times_of
times_of-put m j ts s = ground (arith, get-put m j ts s)

-- A span of time that begins later holds no more.
pub recent-later :
    (span now later : ℕ) (ts : List ℕ)
    → now ≤ later
    → length (recent span later ts) ≤ length (recent span now ts)
recent-later span now later [] h = omega arith
recent-later span now later (t ∷ ts) h = ground (arith, recent-later span now later ts h)

-- Times that were dropped by then are not missed.
pub recent-recent :
    (span now later : ℕ) (ts : List ℕ)
    → span ≤ hour_ms
    → now ≤ later
    → recent span later (recent hour_ms now ts) ≡ recent span later ts
recent-recent span now later ts k h =
    filter-filter (within span later) (within hour_ms now) ts (λ t. ground arith)

module _ (cfg : LimiterConfig) where
  -- `check` returns exactly if `getStatus` says that a transaction is allowed, with that status.
  pub check-get_status :
      (now : ℕ) (m : String) (s : Timestamps) (st : LimitStatus)
      → ((check cfg now m s).0 ≡ ok st) ↔ ((st ≡ get_status cfg now m s) × (st.allowed ≡ true))
  unfolding check get_status
  check-get_status now m s st = (λ h. ground arith, λ h. ground arith)

  status_of-recent :
      (now later : ℕ) (m : String) (ts : List ℕ)
      → now ≤ later
      → status_of cfg later m (recent hour_ms now ts) ≡ status_of cfg later m ts
  status_of-recent now later m ts h = rw (recent-recent hour_ms now later ts (omega arith) h)

  -- A check drops only times that no status later on counts, of any merchant.
  pub get_status-check :
      (now later : ℕ) (m j : String) (s : Timestamps)
      → now ≤ later
      → get_status cfg later j (check cfg now m s).1 ≡ get_status cfg later j s
  unfolding get_status check
  get_status-check now later m j s h = elim (Bool-cases (str_eq m j)) [
    | inr other ↦ rw (times_of-put m j (recent hour_ms now (times_of m s)) s, other) refl
    | inl here ↦
        rw (times_of-put m j (recent hour_ms now (times_of m s)) s, here, ← (eq_iff m j).0 here)
          (status_of-recent now later m (times_of m s) h)
  ]

  -- At the time `now` the merchant's transactions are within both limits.
  abbrev pub Within : ℕ → List ℕ → Type 0
  Within now ts =
      (length (recent minute_ms now ts) ≤ cfg.max_per_minute)
      × (length (recent hour_ms now ts) ≤ cfg.max_per_hour)

  pub Within-later : (now later : ℕ) (ts : List ℕ) → now ≤ later → Within now ts → Within later ts
  Within-later now later ts h w = (
    omega (arith, recent-later minute_ms now later ts h, w.0),
    omega (arith, recent-later hour_ms now later ts h, w.1),
  )

  pub length-snoc :
      (span now t : ℕ) (ts : List ℕ)
      → length (recent span now (ts ++ t ∷ [])) ≤ suc (length (recent span now ts))
  length-snoc span now t ts = rw (filter-append (within span now) ts (t ∷ [])) (
      rw (length-append (recent span now ts) (recent span now (t ∷ [])))
        (omega (arith, length-filter-le (within span now) (t ∷ []))))
