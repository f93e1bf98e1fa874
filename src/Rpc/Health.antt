-- ===== src/Rpc/Health.antt =====
-- The table of the providers' health.
use gas_guard.Prelude.{
  ℕ, ◌+◌, String, str_eq, eq_refl, ◌≡◌, refl, inl, inr, some, List, [], ◌∷◌, All, Dict, get, put,
  get-put, Bool-cases,
}
use gas_guard.Exec.{ok}
use gas_guard.Rpc.Manager.{
  ProviderConfig, ProviderHealth, Probe, new_health, set_all, sort, create, probed, check_from,
  check_health,
}

-- The provider has an entry.
abbrev pub HasHealth : Dict ProviderHealth → ProviderConfig → Type 0
HasHealth m c = (h : ProviderHealth) × (get c.url m ≡ some h)

put-HasHealth :
    (k : String) (h : ProviderHealth) (m : Dict ProviderHealth) (c : ProviderConfig)
    → HasHealth m c
    → HasHealth (put k h m) c
put-HasHealth k h m c (g, e) = elim (Bool-cases (str_eq k c.url)) [
  | inl here ↦ (h, rw (get-put k c.url h m, here) refl)
  | inr other ↦ (g, rw (get-put k c.url h m, other) e)
]

put-All :
    (k : String) (h : ProviderHealth) (m : Dict ProviderHealth) (cs : List ProviderConfig)
    → All (HasHealth m) cs
    → All (HasHealth (put k h m)) cs
put-All k h m [] a = tt
put-All k h m (c ∷ cs) (a, b) = (put-HasHealth k h m c a, put-All k h m cs b)

set_all-HasHealth :
    (cs : List ProviderConfig) (m : Dict ProviderHealth) (c : ProviderConfig)
    → HasHealth m c
    → HasHealth (set_all cs m) c
unfolding set_all
set_all-HasHealth [] m c a = a
set_all-HasHealth (d ∷ cs) m c a =
    set_all-HasHealth cs (put d.url (new_health d.url) m) c
      (put-HasHealth d.url (new_health d.url) m c a)

set_all-All :
    (cs : List ProviderConfig) (m : Dict ProviderHealth) → All (HasHealth (set_all cs m)) cs
unfolding set_all
set_all-All [] m = tt
set_all-All (c ∷ cs) m =
    let next = put c.url (new_health c.url) m in
    (
      set_all-HasHealth cs next c
          (new_health c.url, rw (get-put c.url c.url (new_health c.url) m, eq_refl c.url) refl),
      set_all-All cs next,
    )

check_from_ok :
    (probe : ℕ → Probe) (timeout i : ℕ) (cs : List ProviderConfig) (m : Dict ProviderHealth)
    → All (HasHealth m) cs
    → (check_from probe timeout i cs m).0 ≡ ok tt
unfolding check_from
check_from_ok probe timeout i [] m a = refl
check_from_ok probe timeout i (c ∷ cs) m ((h, e), b) =
    let next = probed timeout (probe i) h in
    rw (e, check_from)
      (check_from_ok probe timeout (i + 1) cs (put c.url next m) (put-All c.url next m cs b))

-- A health check of a new manager throws nothing, whatever the providers answer.
pub check_health-create :
    (probe : ℕ → Probe) (timeout : ℕ) (configs : List ProviderConfig)
    → (check_health probe timeout (create configs)).0 ≡ ok tt
unfolding check_health create
check_health-create probe timeout configs =
    check_from_ok probe timeout 0 (sort configs) (set_all (sort configs) [])
      (set_all-All (sort configs) [])
