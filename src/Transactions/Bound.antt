-- ===== src/Transactions/Bound.antt =====
-- No more transactions are recorded than the limits say, and a refusal names a time to wait.
use gas_guard.Prelude.{
  ℕ, ◌≤◌, ◌<◌, String, str_eq, eq_iff, ◌≡◌, refl, ap, inl, inr, List, [], ◌∷◌, ◌++◌, length,
  get_empty, Bool-cases, arith, if◌then◌else◌,
}
use gas_guard.Exec.{Outcome, ok, throw}
use gas_guard.Transactions.Limiter.{
  LimiterConfig, LimitStatus, LimitExceeded, minute_ms, hour_ms, Timestamps, times_of, recent,
  get_status, check, record_time, recorded, submit, Submission, run,
}
use gas_guard.Transactions.Window.{
  Within, Within-later, times_of-put, length-snoc, recent-recent, recent-later,
}

times_of_empty : (m : String) → times_of m [] ≡ []
unfolding times_of
times_of_empty m = rw (get_empty {V = List ℕ} m)

module _ (cfg : LimiterConfig) where
  check_ok :
      (now : ℕ) (m : String) (s : Timestamps) (st : LimitStatus)
      → (check cfg now m s).0 ≡ ok st
      → (length (recent minute_ms now (recent hour_ms now (times_of m s))) < cfg.max_per_minute)
        × (length (recent hour_ms now (times_of m s)) < cfg.max_per_hour)
  unfolding check
  check_ok now m s st h = (ground arith, ground arith)

  check_times :
      (now : ℕ) (m j : String) (s : Timestamps)
      → times_of j (check cfg now m s).1
        ≡ (if str_eq m j then recent hour_ms now (times_of m s) else times_of j s)
  unfolding check
  check_times now m j s = times_of-put m j (recent hour_ms now (times_of m s)) s

  record_times :
      (done : ℕ) (m j : String) (s : Timestamps)
      → times_of j (record_time done m s)
        ≡ (if str_eq m j then times_of m s ++ done ∷ [] else times_of j s)
  unfolding record_time
  record_times done m j s = times_of-put m j (times_of m s ++ done ∷ []) s

  check-recent :
      (span now later : ℕ) (m j : String) (s : Timestamps)
      → span ≤ hour_ms
      → now ≤ later
      → recent span later (times_of j (check cfg now m s).1) ≡ recent span later (times_of j s)
  check-recent span now later m j s k h = elim (Bool-cases (str_eq m j)) [
    | inr other ↦ rw (check_times now m j s, other) refl
    | inl here ↦
        rw (check_times now m j s, here, ← (eq_iff m j).0 here)
          (recent-recent span now later (times_of m s) k h)
  ]

  check-Within :
      (now later : ℕ) (m j : String) (s : Timestamps)
      → now ≤ later
      → Within cfg later (times_of j s)
      → Within cfg later (times_of j (check cfg now m s).1)
  check-Within now later m j s h w =
      rw
        (
          check-recent minute_ms now later m j s (omega arith) h,
          check-recent hour_ms now later m j s (omega arith) h,
        )
        w

  -- After a transaction that the check allows, the merchant is within both limits.
  allowed-Within :
      (now done : ℕ) (m : String) (s : Timestamps) (st : LimitStatus)
      → now ≤ done
      → (check cfg now m s).0 ≡ ok st
      → Within cfg done (times_of m (check cfg now m s).1 ++ done ∷ [])
  allowed-Within now done m s st h e =
      let ts = times_of m s in
      let kept = times_of m (check cfg now m s).1 in
      let (few, fewer) = check_ok now m s st e in
      (
        omega (
          arith,
          length-snoc cfg minute_ms done done kept,
          ap length (check-recent minute_ms now done m m s (omega arith) h),
          recent-later minute_ms now done ts h,
          ap length (recent-recent minute_ms now now ts (omega arith) (omega arith)),
          few,
        ),
        omega (
          arith,
          length-snoc cfg hour_ms done done kept,
          ap length (check-recent hour_ms now done m m s (omega arith) h),
          recent-later hour_ms now done ts h,
          fewer,
        ),
      )

  submit-Within :
      (now done : ℕ) (m j : String) (s : Timestamps)
      → now ≤ done
      → Within cfg done (times_of j s)
      → Within cfg done (times_of j (submit cfg now done m s))
  unfolding submit
  submit-Within now done m j s h w = after (check cfg now m s).0 refl
    where
      after :
          (o : Outcome LimitExceeded LimitStatus)
          → (check cfg now m s).0 ≡ o
          → Within cfg done (times_of j (recorded done m o (check cfg now m s).1))
      after (throw e) p = check-Within now done m j s h w
      after (ok st) p = elim (Bool-cases (str_eq m j)) [
        | inr other ↦
            rw (record_times done m j (check cfg now m s).1, other)
              (check-Within now done m j s h w)
        | inl here ↦
            rw (record_times done m j (check cfg now m s).1, here)
              (allowed-Within now done m s st h p)
      ]

  -- The transactions are handled one after the other, between `t` and `last`.
  abbrev pub Ascending : ℕ → List Submission → ℕ → Type 0
  Ascending t [] last = t ≤ last
  Ascending t (x ∷ xs) last = (t ≤ x.now) × (x.now ≤ x.done) × Ascending x.done xs last

  run-Within :
      (xs : List Submission) (t last : ℕ) (j : String) (s : Timestamps)
      → Ascending t xs last
      → Within cfg t (times_of j s)
      → Within cfg last (times_of j (run cfg xs s))
  unfolding run
  run-Within [] t last j s a w = Within-later cfg t last (times_of j s) a w
  run-Within (x ∷ xs) t last j s (a, b, c) w =
      run-Within xs x.done last j (submit cfg x.now x.done x.merchant s) c (
        submit-Within x.now x.done x.merchant j s b
          (Within-later cfg t x.done (times_of j s) (omega (arith, a, b)) w))

  -- Of transactions that are handled one after the other from the start on, at each time no more
  -- than the limits are counted in the last minute and the last hour of any merchant.
  pub run-get_status :
      (xs : List Submission) (last : ℕ) (j : String)
      → Ascending 0 xs last
      → ((get_status cfg last j (run cfg xs [])).last_minute ≤ cfg.max_per_minute)
        × ((get_status cfg last j (run cfg xs [])).last_hour ≤ cfg.max_per_hour)
  unfolding get_status
  run-get_status xs last j a =
      let w = run-Within xs 0 last j [] a (rw (times_of_empty j) (omega arith, omega arith)) in
      (
        rw
            (recent-recent minute_ms last last (times_of j (run cfg xs [])) (omega arith)
              (omega arith))
            w.0,
        w.1,
      )
