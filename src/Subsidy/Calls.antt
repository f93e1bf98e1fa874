-- ===== src/Subsidy/Calls.antt =====
-- The requests that GasSubsidyService serves, and what it keeps after some of them.
use gas_guard.Prelude.{ℕ, String, List, [], ◌∷◌}
use gas_guard.Subsidy.Store.{Setting, Store}
use gas_guard.Subsidy.Check.{CreateCapDto, create_cap, check_subsidy}
use gas_guard.Subsidy.Usage.{
  SubsidyUsageRecord, NewIds, record_usage, acknowledge_alert, clear_suspicious_flag,
}

module _ (g : Setting) where
  open g use {ar}
  open ar use {Number}

  -- A request, with the time, and the ids of new rows.
  pub data Call : Type 0 where
    creates : ℕ → String → CreateCapDto Number → Call
    checks : ℕ → String → Number → Call
    records : ℕ → NewIds → SubsidyUsageRecord Number → Call
    acknowledges : ℕ → String → String → Call
    clears : ℕ → String → Call

  unfoldable pub serve : Call → Store g → Store g
  serve (creates now id dto) s = (create_cap g now id dto s).1
  serve (checks now wallet amount) s = (check_subsidy g now wallet amount s).1
  serve (records now ids r) s = (record_usage g now ids r s).1
  serve (acknowledges now id by) s = (acknowledge_alert g now id by s).1
  serve (clears now id) s = (clear_suspicious_flag g now id s).1

  -- The requests, the last one first.
  unfoldable pub run : List Call → Store g → Store g
  unfolding serve
  run [] s = s
  run (c ∷ cs) s = serve c (run cs s)
