-- ===== src/Subsidy/Periods.antt =====
-- A period ends after it starts, so that a check resets a cap once at most.
use gas_guard.Prelude.{
  ℕ, suc, ◌+◌, ◌≤◌, ◌<◌, String, ◌≡◌, refl, ◌∙◌, true, false, none, some, arith, ltb, Bool-cases,
  Option-cases, inl, inr,
}
use gas_guard.Calendar.{Months, day_of}
use gas_guard.Exec.{ok}
use gas_guard.Subsidy.Entity.{SubsidyCapType, daily, weekly, monthly, lifetime}
use gas_guard.Subsidy.Store.{Setting, Store, period_end, months_later}
use gas_guard.Subsidy.Check.{
  Cap, SubsidyCheckResult, get_cap, save_cap, kept_cap, reset, reset_cap_period, check_cap,
  check_from, check_subsidy, no_cap,
}

module _ (months : Months) where
  open months use {month_of, first_day, first_day-le, lt-first_day, first_day_mono}

  months_later-le : (n d : ℕ) → d ≤ months_later months n d
  months_later-le n d =
      omega (arith, first_day-le d, first_day_mono (month_of d) (month_of d + n) (omega arith))

  month_of-lt : (d : ℕ) → month_of d < month_of (months_later months 1 d)
  month_of-lt d = elim (Bool-cases (ltb (month_of d) (month_of (months_later months 1 d)))) [
    | inl later ↦ ground arith
    | inr sooner ↦
        let le : suc (month_of (months_later months 1 d)) ≤ month_of d + 1 = ground arith in
        absurd (
          omega (
            arith,
            first_day_mono (suc (month_of (months_later months 1 d))) (month_of d + 1) le,
            lt-first_day (months_later months 1 d),
          ))
  ]

  day-lt : (d : ℕ) → d < first_day (month_of (months_later months 1 d))
  day-lt d = omega (
    arith,
    lt-first_day d,
    first_day_mono (suc (month_of d)) (month_of (months_later months 1 d)) (month_of-lt d),
  )

  pub period_end-le : (t : SubsidyCapType) (now : ℕ) → now ≤ period_end months t now
  unfolding period_end
  period_end-le daily now = omega arith
  period_end-le weekly now = omega arith
  period_end-le monthly now = omega (arith, day-lt (day_of now))
  period_end-le lifetime now = omega (arith, months_later-le 1200 (day_of now))

module _ (g : Setting) where
  open g use {ar, months}
  open ar use {Number}

  -- The latest cap of a wallet after its reset: the row that was saved.
  abbrev pub FoundAgain : ℕ → String → Store g → Type 0
  FoundAgain now wallet s =
      (c : Cap g)
      → get_cap g wallet s ≡ some c
      → get_cap g wallet (save_cap g now (reset g now c) s)
        ≡ some (kept_cap g now (reset g now c) s)

  pub check_from-within :
      (turns now : ℕ) (wallet : String) (amount : Number) (c : Cap g) (s : Store g)
      → get_cap g wallet s ≡ some c
      → ltb c.period_end now ≡ false
      → check_from g (suc turns) now wallet amount s ≡ (ok (check_cap g wallet amount c s), s)
  unfolding check_from
  check_from-within turns now wallet amount c s e h = rw (e, h) refl

  check_from-none :
      (turns now : ℕ) (wallet : String) (amount : Number) (s : Store g)
      → get_cap g wallet s ≡ none
      → check_from g (suc turns) now wallet amount s ≡ (ok (no_cap g), s)
  unfolding check_from
  check_from-none turns now wallet amount s e = rw e refl

  -- Where the period is over, the cap is reset and the check starts again.
  check_from-over :
      (turns now : ℕ) (wallet : String) (amount : Number) (c : Cap g) (s : Store g)
      → get_cap g wallet s ≡ some c
      → ltb c.period_end now ≡ true
      → check_from g (suc turns) now wallet amount s
        ≡ check_from g turns now wallet amount (save_cap g now (reset g now c) s)
  unfolding check_from reset_cap_period
  check_from-over turns now wallet amount c s e h = rw (e, h) refl

  kept-not_over :
      (now : ℕ) (c : Cap g) (s : Store g) → ltb (period_end months c.cap_type now) now ≡ false
  kept-not_over now c s = ground (arith, period_end-le months c.cap_type now)

  -- Where a query finds a cap again after its reset, the check of a wallet returns: it calls itself once at
  -- most, so that a greater bound on the calls changes nothing.
  pub check_subsidy-returns :
      (now : ℕ) (wallet : String) (amount : Number) (s : Store g)
      → FoundAgain now wallet s
      → (r : SubsidyCheckResult Number) × (s' : Store g) × (check_subsidy g now wallet amount s
          ≡ (ok r, s'))
        × ((turns : ℕ) → check_from g (suc (suc turns)) now wallet amount s ≡ (ok r, s'))
  unfolding check_subsidy
  check_subsidy-returns now wallet amount s again = elim (Option-cases (get_cap g wallet s)) [
    | inl missing ↦ (
      no_cap g,
      s,
      check_from-none 1 now wallet amount s missing,
      λ turns. check_from-none (suc turns) now wallet amount s missing,
    )
    | inr (c, found) ↦ elim (Bool-cases (ltb c.period_end now)) [
      | inr still ↦ (
        check_cap g wallet amount c s,
        s,
        check_from-within 1 now wallet amount c s found still,
        λ turns. check_from-within (suc turns) now wallet amount c s found still,
      )
      | inl over ↦ (
        check_cap g wallet amount (kept_cap g now (reset g now c) s)
            (save_cap g now (reset g now c) s),
        save_cap g now (reset g now c) s,
        twice 0 c found over,
        λ turns. twice turns c found over,
      )
    ]
  ]
    where
      twice :
          (turns : ℕ) (c : Cap g)
          → get_cap g wallet s ≡ some c
          → ltb c.period_end now ≡ true
          → check_from g (suc (suc turns)) now wallet amount s ≡ (
            ok (
                check_cap g wallet amount
                  (kept_cap g now (reset g now c) s)
                  (save_cap g now (reset g now c) s)),
            save_cap g now (reset g now c) s,
          )
      twice turns c found over =
          check_from-over (suc turns) now wallet amount c s found over
          ∙ check_from-within turns now wallet amount (kept_cap g now (reset g now c) s)
              (save_cap g now (reset g now c) s) (again c found) (kept-not_over now c s)
