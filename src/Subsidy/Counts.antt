-- ===== src/Subsidy/Counts.antt =====
-- What the summary tells of caps that are exceeded.
use gas_guard.Prelude.{◌≡◌, refl, true, List, [], ◌∷◌, All, filter, length, some}
use gas_guard.Storage.Repository.{Repository}
use gas_guard.Subsidy.Entity.{active, exceeded}
use gas_guard.Subsidy.Store.{Setting, Store}
use gas_guard.Subsidy.Check.{Cap}
use gas_guard.Subsidy.Summary.{Summary, same_status, get_realtime_summary}
use gas_guard.Subsidy.Calls.{Call, run}
use gas_guard.Subsidy.Active.{AllActive, run-AllActive}

module _ (g : Setting) where
  counts :
      (cs : List (Cap g)) (s : Store g)
      → AllActive g s
      → All (λ (c : Cap g). (true ≡ true) × (Repository.find_by_id g.caps c.id s.caps ≡ some c)) cs
      → (length (filter (λ (c : Cap g). same_status c.status active) cs) ≡ length cs)
        × (length (filter (λ (c : Cap g). same_status c.status exceeded) cs) ≡ 0)
  counts [] s all h = (refl, refl)
  counts (c ∷ cs) s all (h, t) =
      let (a, b) = counts cs s all t in rw (all c.id c h.1) (rw a refl, b)

  -- Where every cap is active, the summary after any requests that are served one after the other, with their errors,
  -- counts every wallet as active and none as exceeded, however much usage has been recorded and whatever the
  -- arithmetic and the columns of the database do.
  pub get_realtime_summary-run :
      (calls : List (Call g)) (s : Store g)
      → AllActive g s
      → (Summary.active_wallets (get_realtime_summary g (run g calls s))
          ≡ Summary.total_wallets (get_realtime_summary g (run g calls s)))
        × (Summary.exceeded_wallets (get_realtime_summary g (run g calls s)) ≡ 0)
  unfolding get_realtime_summary
  get_realtime_summary-run calls s all =
      counts _ (run g calls s) (run-AllActive g calls s all)
        (Repository.find-sound g.caps (λ c. true) (Store.caps (run g calls s)))
