-- ===== src/Rpc/Manager.antt =====
-- RpcProviderManager: apps/api/src/services/rpc-provider-manager.ts. Priorities are natural numbers.
use gas_guard.Prelude.{
  ℕ, zero, suc, ◌+◌, ◌-◌, ◌%◌, String, Bool, true, false, Option, none, some, List, [], ◌∷◌, leb,
  length, Dict, get, put, if◌then◌else◌,
}
use gas_guard.Exec.{Outcome, ok, throw}
use gas_guard.Http.{HttpException, internal_error}

pub record ProviderConfig : Type 0 where
  pub url : String
  pub priority : ℕ
  pub name : Option String
  pub api_key : Option String

pub record ProviderHealth : Type 0 where
  pub url : String
  pub healthy : Bool
  pub last_checked : ℕ
  pub response_time : ℕ
  pub error_count : ℕ
  pub success_count : ℕ

-- What a provider does: whether it gives its block number in time, and the clock before and after.
pub record Probe : Type 0 where
  pub answered : Bool
  pub start : ℕ
  pub checked : ℕ

pub record Manager : Type 0 where
  pub providers : List ProviderConfig
  pub health : Dict ProviderHealth
  pub current : ℕ

-- `configs.sort((a, b) => a.priority - b.priority)`, which is stable
unfoldable pub insert : ProviderConfig → List ProviderConfig → List ProviderConfig
insert c [] = c ∷ []
insert c (d ∷ ds) = if leb c.priority d.priority then c ∷ d ∷ ds else d ∷ insert c ds

unfoldable pub sort : List ProviderConfig → List ProviderConfig
sort [] = []
sort (c ∷ cs) = insert c (sort cs)

abbrev pub new_health : String → ProviderHealth
new_health url = record {
  url = url;
  healthy = true;
  last_checked = 0;
  response_time = 0;
  error_count = 0;
  success_count = 0;
}

unfoldable pub set_all : List ProviderConfig → Dict ProviderHealth → Dict ProviderHealth
set_all [] m = m
set_all (c ∷ cs) m = set_all cs (put c.url (new_health c.url) m)

-- The constructor.
unfoldable pub create : List ProviderConfig → Manager
create configs = record {
  providers = sort configs;
  health = set_all (sort configs) [];
  current = 0;
}

abbrev pub nth : List ProviderConfig → ℕ → Option ProviderConfig
nth [] i = none
nth (c ∷ cs) zero = some c
nth (c ∷ cs) (suc i) = nth cs i

abbrev health_ok : Option ProviderHealth → Bool
health_ok none = false
health_ok (some h) = h.healthy

abbrev provider_ok : Dict ProviderHealth → Option ProviderConfig → Bool
provider_ok health none = false
provider_ok health (some c) = health_ok (get c.url health)

-- `health && health.healthy` of the provider with the index
unfoldable pub is_healthy : Manager → ℕ → Bool
is_healthy m i = provider_ok m.health (nth m.providers i)

-- The turns of the loop from `i` on, `left` of them: the index that it settles on.
unfoldable pub search_from : Manager → ℕ → ℕ → Option ℕ
search_from m i zero = none
search_from m i (suc left) =
    let rest = search_from m (i + 1) left in
    let idx = (m.current + i + 1) % length m.providers in
    if is_healthy m idx then some idx else rest

abbrev pub settle : Manager → Option ℕ → Bool × Manager
settle m none = (false, m)
settle m (some idx) = (true, record m { current = idx })

unfoldable pub failover : Manager → Bool × Manager
failover m = settle m (search_from m 0 (length m.providers))

abbrev pub probed : ℕ → Probe → ProviderHealth → ProviderHealth
probed timeout p h = record h {
  healthy = p.answered;
  last_checked = p.checked;
  response_time = if p.answered then p.checked - p.start else timeout;
  error_count = if p.answered then h.error_count else h.error_count + 1;
  success_count = if p.answered then h.success_count + 1 else h.success_count;
}

-- The loop over the providers from the index `i` on. A provider without an entry is a TypeError.
unfoldable pub check_from :
    (ℕ → Probe)
    → ℕ
    → ℕ
    → List ProviderConfig
    → Dict ProviderHealth
    → Outcome HttpException Unit × Dict ProviderHealth
check_from probe timeout i [] health = (ok tt, health)
check_from probe timeout i (c ∷ cs) health = elim (get c.url health) [
  | none ↦ (throw (internal_error "TypeError"), health)
  | some h ↦ check_from probe timeout (i + 1) cs (put c.url (probed timeout (probe i) h) health)
]

unfoldable pub check_health : (ℕ → Probe) → ℕ → Manager → Outcome HttpException Unit × Manager
check_health probe timeout m =
    let (o, health) = check_from probe timeout 0 m.providers m.health in
    (o, record m { health = health })
