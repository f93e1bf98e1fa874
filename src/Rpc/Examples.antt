-- ===== src/Rpc/Examples.antt =====
-- Runs of the provider manager, and the theorems at these inputs.
use gas_guard.Prelude.{
  ◌+◌, ℕ, ◌<◌, ◌≡◌, refl, ◌⊎◌, true, false, none, List, [], ◌∷◌, length, arith, get, String,
}
use gas_guard.Rpc.Manager.{
  Probe, ProviderConfig, Manager, insert, sort, create, is_healthy, search_from, failover,
  new_health,
}
use gas_guard.Rpc.Failover.{turn, Passed, failover_lem}

abbrev provider : String → ℕ → ProviderConfig
provider url p = record { url = url; priority = p; name = none; api_key = none }

abbrev configs : List ProviderConfig
configs = provider "b" 2 ∷ provider "a" 1 ∷ provider "c" 2 ∷ []

abbrev sorted : List ProviderConfig
sorted = provider "a" 1 ∷ provider "b" 2 ∷ provider "c" 2 ∷ []

create-sorted : (create configs).providers ≡ sorted
unfolding create sort insert
create-sorted = refl

-- The second provider is down.
abbrev manager : Manager
manager = record {
  providers = sorted;
  health =
      ("a", new_health "a")
      ∷ ("b", record (new_health "b") { healthy = false })
      ∷ ("c", new_health "c")
      ∷ [];
  current = 0;
}

failover-manager : failover manager ≡ (true, record manager { current = 2 })
unfolding failover search_from is_healthy get
failover-manager = refl

failover_lem_example :
    ((j : ℕ) × (j < length manager.providers)
      × (failover manager ≡ (true, record manager { current = turn manager j }))
      × (turn manager j < length manager.providers)
      × (is_healthy manager (turn manager j) ≡ true)
      × Passed manager 0 j)
    ⊎ ((failover manager ≡ (false, manager))
        × ((i : ℕ) → i < length manager.providers → is_healthy manager i ≡ false))
failover_lem_example = failover_lem manager (omega arith)

abbrev probe : ℕ → Probe
probe i = record { answered = true; start = 100; checked = 130 + i }
