-- ===== src/Cache/Examples.antt =====
-- The age of a cached answer at a concrete run: an answer is fetched, and served again.
use gas_guard.Prelude.{ℕ, ◌+◌, ◌*◌, ◌≤◌, String, ◌≡◌, refl, ◌⊎◌, true, some, List, [], ◌∷◌, arith}
use gas_guard.Numbers.{fixed}
use gas_guard.Exec.{Outcome, ok, throw}
use gas_guard.Cache.Config.{CacheConfig}
use gas_guard.Cache.Service.{Json, get_or_fetch}
use gas_guard.Cache.Calls.{Call, asks, reads, AnyOf, Wrote, run, empty_cache}
use gas_guard.Cache.Freshness.{get_or_fetch-fresh}

abbrev config : CacheConfig
config = record {
  ttl = record {
    base_fee = 120;
    priority_fee = 60;
    gas_estimate = 180;
    chain_metrics = 300;
    volatility_data = 600;
    default_ttl = 180;
  };
  enabled = true;
  stale_while_revalidate = some 30;
}

-- A text stands for its value.
abbrev json : Json String
json = record { stringify = λ v. some v; parse = λ text. some text }

abbrev calls : List (Call String)
calls =
    reads 4000 "gasguard:base_fee:1"
    ∷ asks 1000 5 1200 "gasguard:base_fee:1" "baseFee" (some 1) (ok "42")
    ∷ []

abbrev down : Outcome String String
down = throw "down"

served_again :
    (get_or_fetch fixed String config json 9000 1 9000 "gasguard:base_fee:1" "baseFee"
      (some 1)
      down
      (run fixed String config json calls (empty_cache fixed String config json))).0
    ≡ ok "42"
unfolding get_or_fetch run
served_again = refl

get_or_fetch-fresh_example :
    (down ≡ ok "42")
    ⊎ ((text : String) × (e : ℕ) × (json.parse text ≡ some "42")
        × (9000 ≤ e + 30 * 1000)
        × AnyOf (Wrote fixed String config json "gasguard:base_fee:1" text e) calls)
get_or_fetch-fresh_example =
    get_or_fetch-fresh fixed String config json calls 9000 1 9000 "gasguard:base_fee:1" "baseFee"
      (some 1) down "42" (omega arith) served_again
