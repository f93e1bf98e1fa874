-- ===== src/RateLimit/Admission.antt =====
-- What the guard admits: the limit of each window against a history of requests.
use gas_guard.Prelude.{
  ℕ, suc, ◌<◌, String, str_eq, ◌≡◌, ◌⊎◌, inl, inr, ◌↔◌, Bool, true, false, ◌&&◌, none, some, List,
  [], ◌∷◌, arith, Bool-cases, if◌then◌else◌,
}
use gas_guard.Exec.{Outcome, ok, throw}
use gas_guard.Http.{HttpException}
use gas_guard.RateLimit.Plans.{Window, minute, hour, day, quota_of, RateLimitConfig}
use gas_guard.RateLimit.Redis.{Redis, live}
use gas_guard.RateLimit.Service.{
  window_key, increment_counter, get_window_count, get_quota_for_key, check_limit,
}
use gas_guard.RateLimit.Guard.{Headers, extract_api_key, can_activate}
use gas_guard.RateLimit.Counters.{online, value_of}

pub record Request : Type 0 where
  pub now : ℕ
  pub headers : Headers

abbrev pub is_ok {ℓ} : {X A : Type ℓ} → Outcome X A → Bool
is_ok (ok a) = true
is_ok (throw x) = false

-- The request carries the key.
abbrev pub has_key : String → Request → Bool
has_key k r = elim (extract_api_key r.headers) [ none ↦ false | some j ↦ str_eq j k ]

module _ (redis : Redis) (cfg : RateLimitConfig) where
  open redis use {Db, entry, get_lem}

  -- A request while Redis is connected and its pipeline is executed.
  unfoldable pub handle : Request → Db → Outcome HttpException Bool × Db
  unfolding can_activate
  handle r db =
      let (o, s) =
        can_activate redis cfg (online r.now) true r.headers (record { db = db; headers = none }) in
      (o, s.db)

  -- How many of the requests are admitted for the key.
  unfoldable pub admitted : String → List Request → Db → ℕ
  admitted k [] db = 0
  admitted k (r ∷ rs) db =
      let (o, db') = handle r db in
      let rest = admitted k rs db' in if is_ok o && has_key k r then suc rest else rest

  -- A key's count as the limit is checked against it.
  pub count_live :
      (now : ℕ) (k : String) (w : Window) (db : Db)
      → get_window_count redis cfg (online now) k w db
        ≡ value_of (live now (entry (window_key now k w) db))
  unfolding get_window_count
  count_live now k w db = ground (arith, get_lem now (window_key now k w) db)

  -- With the limits enabled and Redis connected, a request is allowed exactly if each window's count
  -- is below the key's quota.
  pub check_limit-allowed :
      (now : ℕ) (k : String) (db : Db)
      → cfg.enabled ≡ true
      → ((check_limit redis cfg (online now) k db).allowed ≡ true) ↔ (
          (w : Window)
          → get_window_count redis cfg (online now) k w db
            < quota_of (get_quota_for_key redis cfg (online now) k db) w)
  unfolding check_limit
  check_limit-allowed now k db e = (λ h w. below w h, λ h. ground (arith, h minute, h hour, h day))
    where
      below :
          (w : Window)
          → (check_limit redis cfg (online now) k db).allowed ≡ true
          → get_window_count redis cfg (online now) k w db
            < quota_of (get_quota_for_key redis cfg (online now) k db) w
      below minute h = ground arith
      below hour h = ground arith
      below day h = ground arith

  -- The guard admits a request of a key exactly if the check allows it, and then counts it.
  pub handle_key :
      (r : Request) (k : String) (db : Db)
      → extract_api_key r.headers ≡ some k
      → str_eq k "" ≡ false
      → (((check_limit redis cfg (online r.now) k db).allowed ≡ true)
          × (is_ok (handle r db).0 ≡ true)
          × ((handle r db).1 ≡ increment_counter redis cfg (online r.now) true k db))
        ⊎ ((is_ok (handle r db).0 ≡ false) × ((handle r db).1 ≡ db))
  unfolding handle
  handle_key r k db h n = elim (Bool-cases ((check_limit redis cfg (online r.now) k db).allowed)) [
    | inl a ↦ inl (a, ground arith, ground arith)
    | inr a ↦ inr (ground arith, ground arith)
  ]

  -- A request without a key changes nothing that is kept.
  pub handle-none :
      (r : Request) (db : Db) → extract_api_key r.headers ≡ none → (handle r db).1 ≡ db
  unfolding handle
  handle-none r db h = ground arith

  pub handle-empty :
      (r : Request) (k : String) (db : Db)
      → extract_api_key r.headers ≡ some k
      → str_eq k "" ≡ true
      → (handle r db).1 ≡ db
  unfolding handle
  handle-empty r k db h n = ground arith

  -- An admitted request of the key found the window's count below the quota.
  pub handle-count :
      (r : Request) (k : String) (w : Window) (db : Db)
      → cfg.enabled ≡ true
      → (check_limit redis cfg (online r.now) k db).allowed ≡ true
      → value_of (live r.now (entry (window_key r.now k w) db))
        < quota_of (get_quota_for_key redis cfg (online 0) k db) w
  unfolding get_quota_for_key
  handle-count r k w db e a =
      rw (← count_live r.now k w db) ((check_limit-allowed r.now k db e).0 a w)
