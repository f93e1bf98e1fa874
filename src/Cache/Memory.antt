-- ===== src/Cache/Memory.antt =====
-- InMemoryRedis, the cache without a Redis, and the operations of RedisClient over it:
-- apps/api-service/src/gas/caching/redis.client.ts. `V` is what is kept, as text in the code; the
-- pattern of a search is the test that its regular expression makes.
use gas_guard.Prelude.{
  without, ℕ, zero, suc, ◌+◌, ◌*◌, String, Bool, true, false, ◌&&◌, Option, none, some, List, [],
  ◌∷◌, Dict, get, put, ltb, leb, if◌then◌else◌,
}

pub record Item (V : Type 0) : Type 0 where
  pub value : V
  pub expires : Option ℕ

-- A timer deletes its key at its time.
pub record Memory (V : Type 0) : Type 0 where
  pub store : Dict (Item V)
  pub timers : Dict ℕ

abbrev pub has : {A : Type 0} → Option A → Bool
has none = false
has (some a) = true

-- `item.expires && Date.now() > item.expires`
abbrev pub is_over : ℕ → Option ℕ → Bool
is_over now none = false
is_over now (some e) = ltb 0 e && ltb e now

module _ {V : Type 0} where
  abbrev found : ℕ → String → Option (Item V) → Memory V → Option V × Memory V
  found now key none m = (none, m)
  found now key (some item) m =
      if is_over now item.expires
      then (none, record m { store = without key m.store })
      else (some item.value, m)

  unfoldable pub fetch : ℕ → String → Memory V → Option V × Memory V
  unfolding get
  fetch now key m = found now key (get key m.store) m

  -- The timer of the key is set anew.
  unfoldable pub setex : ℕ → String → ℕ → V → Memory V → Memory V
  unfolding put
  setex now key ttl v m = record {
    store = put key (record { value = v; expires = some (now + ttl * 1000) }) m.store;
    timers = put key (now + ttl * 1000) m.timers;
  }

  unfoldable pub set_plain : String → V → Memory V → Memory V
  unfolding put
  set_plain key v m = record m { store = put key (record { value = v; expires = none }) m.store }

  unfoldable pub del : String → Memory V → ℕ × Memory V
  unfolding get
  del key m = (
    if has (get key m.store) then 1 else 0,
    record { store = without key m.store; timers = without key m.timers },
  )

  abbrev pub keys_of : (String → Bool) → Dict (Item V) → List String
  keys_of test [] = []
  keys_of test ((k, item) ∷ m) = let rest = keys_of test m in if test k then k ∷ rest else rest

  abbrev pub del_first : List String → Memory V → ℕ × Memory V
  del_first [] m = (0, m)
  del_first (k ∷ ks) m = del k m

  -- `del(...keys)`: this store's `del` takes one key, and leaves the others.
  unfoldable pub delete_pattern : (String → Bool) → Memory V → ℕ × Memory V
  unfolding del
  delete_pattern test m = del_first (keys_of test m.store) m

  unfoldable pub exists : String → Memory V → Bool
  unfolding get
  exists key m = has (get key m.store)

  unfoldable pub flushdb : Memory V → Memory V
  flushdb m = record { store = []; timers = [] }

  -- `if (ttl) setex else set`
  unfoldable pub set : ℕ → String → V → ℕ → Memory V → Memory V
  unfolding setex set_plain
  set now key v zero m = set_plain key v m
  set now key v (suc ttl) m = setex now key (suc ttl) v m

  abbrev rings : ℕ → String → Option ℕ → Memory V → Memory V
  rings now key none m = m
  rings now key (some at) m =
      if leb at now
      then record { store = without key m.store; timers = without key m.timers }
      else m

  -- The timer of the key rings, when its time has come.
  unfoldable pub ring : ℕ → String → Memory V → Memory V
  unfolding get
  ring now key m = rings now key (get key m.timers) m
