-- ===== src/Subsidy/Checked.antt =====
-- What a check leaves, and what it says of the cap when it allows an amount.
use gas_guard.Prelude.{
  ℕ, zero, suc, String, ◌≡◌, refl, sym, ap, ◌∙◌, true, false, not, some, arith, ltb, Bool-cases,
  Option-cases, inl, inr, ◌⊎◌,
}
use gas_guard.Exec.{Outcome, ok, throw, continue}
use gas_guard.Subsidy.Store.{Setting, Store}
use gas_guard.Subsidy.Check.{
  Cap, SubsidyCheckResult, get_cap, save_cap, reset, reset_cap_period, check_cap, check_from,
  check_subsidy, new_usage, percentage,
}
use gas_guard.Subsidy.Usage.{SubsidyUsageRecord, NewIds, Log, decide, recorded, record_usage}

module _ (g : Setting) where
  open g use {ar}
  open ar use {Number, le}

  -- What holds before a check holds after it, where a reset keeps it.
  pub check_from-keeps :
      (P : Store g → Type 0) (turns now : ℕ) (wallet : String) (amount : Number)
      → ((c : Cap g) (s : Store g)
          → get_cap g wallet s ≡ some c
          → P s
          → P (save_cap g now (reset g now c) s))
      → (s : Store g) → P s
      → P (check_from g turns now wallet amount s).1
  unfolding check_from reset_cap_period
  check_from-keeps P zero now wallet amount keep s h = h
  check_from-keeps P (suc turns) now wallet amount keep s h =
      elim (Option-cases (get_cap g wallet s)) [
        | inl missing ↦ rw missing h
        | inr (c, found) ↦ elim (Bool-cases (ltb c.period_end now)) [
          | inl over ↦
              rw (found, over)
                (check_from-keeps P turns now wallet amount keep (save_cap g now (reset g now c) s)
                  (keep c s found h))
          | inr still ↦ rw (found, still) h
        ]
      ]

  -- The wallet's cap, if it has one, is not reached by the amount.
  abbrev pub Within : String → Number → Store g → Type 0
  Within wallet amount s =
      (c : Cap g)
      → get_cap g wallet s ≡ some c
      → le c.hard_cap (percentage g c (new_usage g c amount)) ≡ false

  pub check_cap-allowed :
      (wallet : String) (amount : Number) (c : Cap g) (s : Store g)
      → SubsidyCheckResult.allowed (check_cap g wallet amount c s)
        ≡ not (le c.hard_cap (percentage g c (new_usage g c amount)))
  unfolding check_cap
  check_cap-allowed wallet amount c s = ground arith

  Within-check_cap :
      (wallet : String) (amount : Number) (c : Cap g) (s : Store g)
      → get_cap g wallet s ≡ some c
      → SubsidyCheckResult.allowed (check_cap g wallet amount c s) ≡ true
      → Within wallet amount s
  Within-check_cap wallet amount c s found a d e =
      let same : c ≡ d = cc in
      let h : not (le c.hard_cap (percentage g c (new_usage g c amount))) ≡ true =
        sym (check_cap-allowed wallet amount c s) ∙ a in
      rw (← same) (ground arith)

  check_from-Within :
      (turns now : ℕ) (wallet : String) (amount : Number) (s : Store g)
      (r : SubsidyCheckResult Number) (s' : Store g)
      → check_from g turns now wallet amount s ≡ (ok r, s')
      → r.allowed ≡ true
      → Within wallet amount s'
  unfolding check_from reset_cap_period
  check_from-Within zero now wallet amount s r s' e a = cc
  check_from-Within (suc turns) now wallet amount s r s' e a =
      elim (Option-cases (get_cap g wallet s)) [
        | inl missing ↦
            λ c found. let same : s ≡ s' = ap (λ p. p.1) (rw missing at e) in absurd (cc)
        | inr (c, found) ↦ elim (Bool-cases (ltb c.period_end now)) [
          | inl over ↦
              check_from-Within turns now wallet amount (save_cap g now (reset g now c) s) r s'
                (rw (found, over) at e) a
          | inr still ↦
              let left : s ≡ s' = ap (λ p. p.1) (rw (found, still) at e) in
              let given : Outcome String (SubsidyCheckResult Number) =
                ok (check_cap g wallet amount c s) in
              let answer : given ≡ ok r = ap (λ p. p.0) (rw (found, still) at e) in
              let value : check_cap g wallet amount c s ≡ r = cc in
              rw (← left) (Within-check_cap wallet amount c s found (rw value a))
        ]
      ]

  -- What a recorded usage leaves after the check's answer and state: refused, or within the cap.
  abbrev pub Recorded :
      ℕ → NewIds → SubsidyUsageRecord Number → Store g → Outcome String (Log g) × Store g → Type 0
  Recorded now ids r s q =
      ((x : String) × (q ≡ (throw x, s)))
      ⊎ ((q ≡ recorded g now ids r s) × Within r.wallet_address r.amount s)

  decide-Recorded :
      (now : ℕ) (ids : NewIds) (r : SubsidyUsageRecord Number)
      (o : Outcome String (SubsidyCheckResult Number)) (s : Store g)
      → ((a : SubsidyCheckResult Number)
          → o ≡ ok a
          → a.allowed ≡ true
          → Within r.wallet_address r.amount s)
      → Recorded now ids r s (continue o (decide g now ids r) s)
  decide-Recorded now ids r (throw x) s w = inl (x, refl)
  decide-Recorded now ids r (ok a) s w = elim (Bool-cases a.allowed) [
    | inl allowed ↦ inr (rw allowed refl, w a refl allowed)
    | inr refused ↦ inl ("Subsidy not available for wallet", rw refused refl)
  ]

  pub record_usage-Recorded :
      (now : ℕ) (ids : NewIds) (r : SubsidyUsageRecord Number) (s : Store g)
      → Recorded now ids r
          (check_subsidy g now r.wallet_address r.amount s).1
          (record_usage g now ids r s)
  unfolding record_usage check_subsidy
  record_usage-Recorded now ids r s =
      decide-Recorded now ids r (check_subsidy g now r.wallet_address r.amount s).0
        (check_subsidy g now r.wallet_address r.amount s).1
        (λ a e h.
          check_from-Within 2 now r.wallet_address r.amount s a
            (check_subsidy g now r.wallet_address r.amount s).1
            (ap (λ o. (o, (check_subsidy g now r.wallet_address r.amount s).1)) e) h)
