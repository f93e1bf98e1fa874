-- ===== src/Cache/Calls.antt =====
-- The calls of the cache, and runs of them.
use gas_guard.Prelude.{ℕ, ◌+◌, ◌*◌, String, ◌≡◌, ◌⊎◌, Bool, Option, some, List, [], ◌∷◌}
use gas_guard.Numbers.{Arithmetic}
use gas_guard.Exec.{Outcome, ok, throw}
use gas_guard.Cache.Config.{CacheConfig, get_ttl, or_default}
use gas_guard.Cache.Memory.{ring}
use gas_guard.Cache.Metrics.{no_metrics}
use gas_guard.Cache.Service.{
  Json, Cache, set_value, get_or_fetch, get_value, invalidate, invalidate_pattern, clear_all,
}

-- A request to the cache, or a timer that rings.
pub data Call (V : Type 0) : Type 0 where
  -- the time, the time taken to look, and when the fetcher answers; the key, the kind, the chain, the answer
  asks : ℕ → ℕ → ℕ → String → String → Option ℕ → Outcome String V → Call V
  sets : ℕ → String → V → ℕ → Call V
  reads : ℕ → String → Call V
  invalidates : String → Call V
  invalidates_matching : (String → Bool) → Call V
  clears : Call V
  rings : ℕ → String → Call V

abbrev pub AnyOf : {A : Type 0} → (A → Type 0) → List A → Type 0
AnyOf P [] = ⊥
AnyOf P (x ∷ xs) = P x ⊎ AnyOf P xs

module _ (ar : Arithmetic) (V : Type 0) (cfg : CacheConfig) (json : Json V) where
  -- The call may have put the text under the key, to expire at that time.
  abbrev pub Wrote : String → String → ℕ → Call V → Type 0
  Wrote key text expires (asks now elapsed later k type chain (ok w)) =
      (k ≡ key)
      × (json.stringify w ≡ some text)
      × (expires ≡ later + or_default (get_ttl cfg.ttl type) cfg.ttl.default_ttl * 1000)
  Wrote key text expires (asks now elapsed later k type chain (throw e)) = ⊥
  Wrote key text expires (sets now k w ttl) =
      (k ≡ key)
      × (json.stringify w ≡ some text)
      × (expires ≡ now + or_default ttl cfg.ttl.default_ttl * 1000)
  Wrote key text expires (reads now k) = ⊥
  Wrote key text expires (invalidates k) = ⊥
  Wrote key text expires (invalidates_matching test) = ⊥
  Wrote key text expires clears = ⊥
  Wrote key text expires (rings now k) = ⊥

  unfoldable pub step : Call V → Cache ar V cfg json → Cache ar V cfg json
  unfolding get_or_fetch set_value get_value invalidate invalidate_pattern clear_all ring
  step (asks now elapsed later key type chain result) s =
      (get_or_fetch ar V cfg json now elapsed later key type chain result s).1
  step (sets now key v ttl) s = set_value ar V cfg json now key v ttl s
  step (reads now key) s = (get_value ar V cfg json now key s).1
  step (invalidates key) s = invalidate ar V cfg json key s
  step (invalidates_matching test) s = (invalidate_pattern ar V cfg json test s).1
  step clears s = clear_all ar V cfg json s
  step (rings now key) s = record s { memory = ring now key s.memory }

  -- The latest call stands first.
  unfoldable pub run : List (Call V) → Cache ar V cfg json → Cache ar V cfg json
  unfolding step
  run [] s = s
  run (c ∷ cs) s = step c (run cs s)

  abbrev pub empty_cache : Cache ar V cfg json
  empty_cache = record { memory = record { store = []; timers = [] }; metrics = no_metrics ar }
