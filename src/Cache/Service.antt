-- ===== src/Cache/Service.antt =====
-- CacheService: apps/api-service/src/gas/caching/cache.service.ts, over the store in memory, whose
-- operations do not throw.
use gas_guard.Prelude.{ℕ, String, str_eq, Bool, true, false, not, Option, none, some, if◌then◌else◌}
use gas_guard.Numbers.{Arithmetic}
use gas_guard.Exec.{Outcome, ok, throw}
use gas_guard.Cache.Config.{CacheConfig, get_ttl, or_default}
use gas_guard.Cache.Memory.{Memory, fetch, set, del, delete_pattern, flushdb}
use gas_guard.Cache.Metrics.{Metrics, record_request}

-- `JSON.stringify` and `JSON.parse` for the values of a kind of answer; each is none where it throws.
pub record Json (V : Type 0) : Type 0 where
  pub stringify : V → Option String
  pub parse : String → Option V

module _ (ar : Arithmetic) (V : Type 0) (cfg : CacheConfig) (json : Json V) where
  pub record Cache : Type 0 where
    pub memory : Memory String
    pub metrics : Metrics ar

  abbrev pub set_text : ℕ → String → Option String → ℕ → Cache → Cache
  set_text now key none ttl s = s
  set_text now key (some text) ttl s = record s { memory = set now key text ttl s.memory }

  -- `ttl || default`; without a TTL it is 0 here.
  unfoldable pub set_value : ℕ → String → V → ℕ → Cache → Cache
  unfolding set
  set_value now key v ttl s =
      set_text now key (json.stringify v) (or_default ttl cfg.ttl.default_ttl) s

  abbrev pub stored : ℕ → String → String → Outcome String V → Cache → Outcome String V × Cache
  stored later key query_type (ok v) s =
      (ok v, set_value later key v (get_ttl cfg.ttl query_type) s)
  stored later key query_type (throw e) s = (throw e, s)

  abbrev pub counted : Bool → String → Option ℕ → ℕ → Memory String → Cache → Cache
  counted hit key chain elapsed memory s = record {
    memory = memory;
    metrics = record_request ar hit key chain elapsed s.metrics;
  }

  abbrev pub missed :
      ℕ
      → ℕ
      → String
      → String
      → Option ℕ
      → Outcome String V
      → Memory String
      → Cache
      → Outcome String V × Cache
  missed elapsed later key query_type chain result m s =
      stored later key query_type result (counted false key chain elapsed m s)

  -- With the value of the text. Where it cannot be read, the hit is counted and the fetcher is asked.
  abbrev pub hit :
      ℕ
      → ℕ
      → String
      → String
      → Option ℕ
      → Outcome String V
      → Option V
      → Memory String
      → Cache
      → Outcome String V × Cache
  hit elapsed later key query_type chain result (some v) m s =
      (ok v, counted true key chain elapsed m s)
  hit elapsed later key query_type chain result none m s =
      missed elapsed later key query_type chain result m (counted true key chain elapsed m s)

  -- `if (cached)`
  abbrev pub answered :
      ℕ
      → ℕ
      → String
      → String
      → Option ℕ
      → Outcome String V
      → Option String × Memory String
      → Cache
      → Outcome String V × Cache
  answered elapsed later key query_type chain result (some text, m) s =
      if str_eq text ""
      then missed elapsed later key query_type chain result m s
      else hit elapsed later key query_type chain result (json.parse text) m s
  answered elapsed later key query_type chain result (none, m) s =
      missed elapsed later key query_type chain result m s

  -- `result` is what the fetcher gives where it is called; it answers at `later`.
  unfoldable pub get_or_fetch :
      ℕ → ℕ → ℕ → String → String → Option ℕ → Outcome String V → Cache → Outcome String V × Cache
  unfolding fetch set_value get_ttl record_request
  get_or_fetch now elapsed later key query_type chain result s =
      if not cfg.enabled
      then (result, s)
      else answered elapsed later key query_type chain result (fetch now key s.memory) s

  -- `cached ? JSON.parse(cached) : null`, and null where it throws
  abbrev value_of : Option String → Option V
  value_of none = none
  value_of (some text) = if str_eq text "" then none else json.parse text

  unfoldable pub get_value : ℕ → String → Cache → Option V × Cache
  unfolding fetch
  get_value now key s =
      let found = fetch now key s.memory in (value_of found.0, record s { memory = found.1 })

  unfoldable pub invalidate : String → Cache → Cache
  unfolding del
  invalidate key s = record s { memory = (del key s.memory).1 }

  unfoldable pub invalidate_pattern : (String → Bool) → Cache → ℕ × Cache
  unfolding delete_pattern
  invalidate_pattern test s =
      let done = delete_pattern test s.memory in (done.0, record s { memory = done.1 })

  unfoldable pub clear_all : Cache → Cache
  unfolding flushdb
  clear_all s = record s { memory = flushdb s.memory }
