-- ===== src/RateLimit/Local.antt =====
-- A Redis in memory that has the laws of `Redis`, for the examples.
use mathlib.Core.Option
use gas_guard.Prelude.{String, str_eq, refl, Option, none, some, if◌then◌else◌}
use gas_guard.RateLimit.Redis.{
  Redis, CounterKey, Entry, Hash, same_key, live, bumped, expiring, merge, no_fields,
}

pub record Store : Type 0 where
  pub entries : CounterKey → Option Entry
  pub hashes : String → Hash

abbrev pub empty_store : Store
empty_store = record { entries = λ k. none; hashes = λ k. no_fields }

abbrev pub local : Redis
local = record {
  Db = Store;
  entry = λ k s. s.entries k;
  hgetall = λ k s. s.hashes k;
  get = λ now k s. Option.map (λ e. e.value) (live now (s.entries k));
  incr = λ now k s. record s {
    entries = λ j. if same_key k j then some (bumped (live now (s.entries j))) else s.entries j;
  };
  expire = λ now k seconds s. record s {
    entries = λ j.
        if same_key k j
        then Option.map (expiring now seconds) (live now (s.entries j))
        else s.entries j;
  };
  del = λ k s. record s { entries = λ j. if same_key k j then none else s.entries j };
  hset =
      λ k h s. record s { hashes = λ j. if str_eq k j then merge (s.hashes j) h else s.hashes j };
  get_lem = λ now k s. refl;
  entry-incr = λ j now k s. refl;
  entry-expire = λ j now k seconds s. refl;
  entry-del = λ j k s. refl;
  entry-hset = λ j k h s. refl;
  hgetall-hset = λ j k h s. refl;
  hgetall-incr = λ j now k s. refl;
  hgetall-expire = λ j now k seconds s. refl;
  hgetall-del = λ j k s. refl;
}
