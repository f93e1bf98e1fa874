-- ===== src/Subsidy/Active.antt =====
-- No cap is ever marked as exceeded.
use gas_guard.Prelude.{
  ℕ, String, ◌≡◌, refl, some, List, [], ◌∷◌, arith, Option-cases, inl, inr, either_way,
}
use gas_guard.Storage.Repository.{Repository}
use gas_guard.Storage.Ordered.{Ordered}
use gas_guard.Subsidy.Entity.{active}
use gas_guard.Subsidy.Store.{Setting, Store}
use gas_guard.Subsidy.Check.{Cap, get_cap, save_cap, reset, create_cap, new_cap, check_subsidy}
use gas_guard.Subsidy.Usage.{
  SubsidyUsageRecord, NewIds, new_log, save_log, used, update_cap_usage, record_usage,
}
use gas_guard.Subsidy.Checked.{check_from-keeps, Within, record_usage-Recorded}
use gas_guard.Subsidy.Tables.{recorded-caps, acknowledge_alert-others, clear_suspicious_flag-caps}
use gas_guard.Subsidy.Calls.{Call, creates, checks, records, acknowledges, clears, serve, run}

module _ (g : Setting) where
  open g use {ar}
  open ar use {Number, le}

  -- Every cap in the table is active.
  abbrev pub AllActive : Store g → Type 0
  AllActive s =
      (i : String) (c : Cap g) → Repository.find_by_id g.caps i s.caps ≡ some c → c.status ≡ active

  save_cap-AllActive :
      (now : ℕ) (c : Cap g) (s : Store g)
      → c.status ≡ active
      → AllActive s
      → AllActive (save_cap g now c s)
  save_cap-AllActive now c s h all i d e =
      ground (arith, Repository.find_by_id-save g.caps i now c s.caps, all i d)

  get_cap-active :
      (wallet : String) (c : Cap g) (s : Store g)
      → AllActive s
      → get_cap g wallet s ≡ some c
      → c.status ≡ active
  unfolding get_cap
  get_cap-active wallet c s all e =
      all c.id c (Ordered.find_latest-some g.caps_ordered _ _ s.caps c e).1

  -- A usage within the cap leaves it active.
  update_cap_usage-AllActive :
      (now : ℕ) (wallet : String) (amount : Number) (s : Store g)
      → Within g wallet amount s
      → AllActive s
      → AllActive (update_cap_usage g now wallet amount s)
  unfolding update_cap_usage
  update_cap_usage-AllActive now wallet amount s w all = elim (Option-cases (get_cap g wallet s)) [
    | inl missing ↦ rw missing all
    | inr (c, found) ↦ rw found (
        save_cap-AllActive now (used g now amount c) s
          (rw (w c found) (
            either_way _ (λ t. t ≡ active) active c.status refl
              (get_cap-active wallet c s all found)))
          all)
  ]

  check_subsidy-AllActive :
      (now : ℕ) (wallet : String) (amount : Number) (s : Store g)
      → AllActive s
      → AllActive (check_subsidy g now wallet amount s).1
  unfolding check_subsidy
  check_subsidy-AllActive now wallet amount s all =
      check_from-keeps g AllActive 2 now wallet amount
        (λ c t e h. save_cap-AllActive now (reset g now c) t refl h) s all

  record_usage-AllActive :
      (now : ℕ) (ids : NewIds) (r : SubsidyUsageRecord Number) (s : Store g)
      → AllActive s
      → AllActive (record_usage g now ids r s).1
  record_usage-AllActive now ids r s all =
      let checked : Store g = (check_subsidy g now r.wallet_address r.amount s).1 in
      let still : AllActive checked = check_subsidy-AllActive now r.wallet_address r.amount s all in
      elim (record_usage-Recorded g now ids r s) [
        | inl (x, e) ↦ rw e still
        | inr (e, w) ↦ rw e (
            rw (recorded-caps g now ids r checked).0 (
              update_cap_usage-AllActive now r.wallet_address r.amount
                (save_log g now (new_log g now ids.log r) checked) (unfold get_cap in w) still))
      ]

  serve-AllActive : (c : Call g) (s : Store g) → AllActive s → AllActive (serve g c s)
  unfolding serve
  serve-AllActive (creates now id dto) s all =
      unfold create_cap in save_cap-AllActive now (new_cap g now id dto) s refl all
  serve-AllActive (checks now wallet amount) s all = check_subsidy-AllActive now wallet amount s all
  serve-AllActive (records now ids r) s all = record_usage-AllActive now ids r s all
  serve-AllActive (acknowledges now id by) s all = rw (acknowledge_alert-others g now id by s).0 all
  serve-AllActive (clears now id) s all = rw (clear_suspicious_flag-caps g now id s) all

  -- Where every cap is active, every cap is active after any requests, in any order: no amount of recorded usage
  -- marks a cap as exceeded, whatever the arithmetic and the columns of the database do.
  pub run-AllActive :
      (calls : List (Call g)) (s : Store g) → AllActive s → AllActive (run g calls s)
  unfolding run
  run-AllActive [] s all = all
  run-AllActive (c ∷ cs) s all = serve-AllActive c (run g cs s) (run-AllActive cs s all)
