-- ===== src/RateLimit/Redis.antt =====
-- Redis, a package: a parameter of the rate limiter, with the documented behaviour of the commands
-- that it sends. A counter's key text is kept as its parts, `ratelimit:KEY:WINDOW:START`; a window's
-- name and a number hold no colon, so the text determines them. Times are milliseconds.
use mathlib.Core.Option
use gas_guard.Prelude.{
  ℕ, suc, ◌+◌, ◌*◌, String, str_eq, ◌≡◌, Bool, false, ◌&&◌, Option, none, some, leb, ◌==◌,
  if◌then◌else◌,
}
use gas_guard.RateLimit.Plans.{Window, same_window, TierPlan, QuotaConfig}

pub record CounterKey : Type 0 where
  pub api_key : String
  pub window : Window
  pub window_start : ℕ

abbrev pub same_key : CounterKey → CounterKey → Bool
same_key a b =
    str_eq a.api_key b.api_key
    && (same_window a.window b.window && a.window_start == b.window_start)

-- A counter, and the time at which it goes.
pub record Entry : Type 0 where
  pub value : ℕ
  pub expires : Option ℕ

abbrev expired : ℕ → Option ℕ → Bool
expired now none = false
expired now (some t) = leb t now

-- What of an entry is there at a time.
abbrev pub live : ℕ → Option Entry → Option Entry
live now none = none
live now (some e) = if expired now e.expires then none else some e

-- The entry that `INCR` leaves: it keeps the time to live.
abbrev pub bumped : Option Entry → Entry
bumped none = record { value = 1; expires = none }
bumped (some e) = record e { value = suc e.value }

-- `EXPIRE` with a number of seconds.
abbrev pub expiring : ℕ → ℕ → Entry → Entry
expiring now seconds e = record e { expires = some (now + 1000 * seconds) }

-- The fields of the hash `apikey:config:KEY`. The quota is JSON text, in which `some none` is the
-- empty text; the numbers of a quota survive `JSON.stringify` and `JSON.parse`.
pub record Hash : Type 0 where
  pub api_key : Option String
  pub tier : Option TierPlan
  pub custom_quota : Option (Option QuotaConfig)
  pub created_at : Option ℕ
  pub updated_at : Option ℕ
  pub last_request_at : Option ℕ

abbrev pub no_fields : Hash
no_fields = record {
  api_key = none;
  tier = none;
  custom_quota = none;
  created_at = none;
  updated_at = none;
  last_request_at = none;
}

abbrev given {ℓ} : {A : Type ℓ} → Option A → Option A → Option A
given none old = old
given (some x) old = some x

-- `HSET`: the fields that are given replace those of the hash.
abbrev pub merge : Hash → Hash → Hash
merge old new = record {
  api_key = given new.api_key old.api_key;
  tier = given new.tier old.tier;
  custom_quota = given new.custom_quota old.custom_quota;
  created_at = given new.created_at old.created_at;
  updated_at = given new.updated_at old.updated_at;
  last_request_at = given new.last_request_at old.last_request_at;
}

pub record Redis : Type 1 where
  pub Db : Type 0
  -- The contents.
  pub entry : CounterKey → Db → Option Entry
  pub hgetall : String → Db → Hash
  -- The commands.
  pub get : ℕ → CounterKey → Db → Option ℕ
  pub incr : ℕ → CounterKey → Db → Db
  pub expire : ℕ → CounterKey → ℕ → Db → Db
  pub del : CounterKey → Db → Db
  pub hset : String → Hash → Db → Db
  pub get_lem :
      (now : ℕ) (k : CounterKey) (db : Db)
      → get now k db ≡ Option.map (λ e. e.value) (live now (entry k db))
  pub entry-incr :
      (j : CounterKey) (now : ℕ) (k : CounterKey) (db : Db)
      → entry j (incr now k db)
        ≡ (if same_key k j then some (bumped (live now (entry j db))) else entry j db)
  pub entry-expire :
      (j : CounterKey) (now : ℕ) (k : CounterKey) (seconds : ℕ) (db : Db)
      → entry j (expire now k seconds db) ≡ (
          if same_key k j
          then Option.map (expiring now seconds) (live now (entry j db))
          else entry j db)
  pub entry-del :
      (j k : CounterKey) (db : Db)
      → entry j (del k db) ≡ (if same_key k j then none else entry j db)
  pub entry-hset :
      (j : CounterKey) (k : String) (h : Hash) (db : Db) → entry j (hset k h db) ≡ entry j db
  pub hgetall-hset :
      (j k : String) (h : Hash) (db : Db)
      → hgetall j (hset k h db) ≡ (if str_eq k j then merge (hgetall j db) h else hgetall j db)
  pub hgetall-incr :
      (j : String) (now : ℕ) (k : CounterKey) (db : Db) → hgetall j (incr now k db) ≡ hgetall j db
  pub hgetall-expire :
      (j : String) (now : ℕ) (k : CounterKey) (seconds : ℕ) (db : Db)
      → hgetall j (expire now k seconds db) ≡ hgetall j db
  pub hgetall-del : (j : String) (k : CounterKey) (db : Db) → hgetall j (del k db) ≡ hgetall j db
