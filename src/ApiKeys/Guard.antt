-- ===== src/ApiKeys/Guard.antt =====
-- ApiKeyAuthGuard: apps/api-service/src/auth/guards/api-key-auth.guard.ts.
use text.Mathlib.Text.{starts_with}
use gas_guard.Prelude.{
  ℕ, zero, suc, String, str_eq, ◌≡◌, ◌↔◌, inl, inr, Option-cases, true, false, Option, none, some,
  arith, if◌then◌else◌,
}
use gas_guard.Exec.{Outcome, ok, throw}
use gas_guard.Http.{HttpException, unauthorized, api_key_expired}
use gas_guard.ApiKeys.Key.{ApiKey, ApiKeyTable, find_active_by_key_hash, is_expired}
use gas_guard.ApiKeys.Service.{ServiceConfig, State, validate_api_key}

-- `authHeader.slice(7)` behind "Bearer "
slice : ℕ → String → String
slice zero s = s
slice (suc n) String.[] = ""
slice (suc n) (String.◌∷◌ c s) = slice n s

-- `none` is a value that is missing.
pub record Request : Type 0 where
  pub authorization : Option String
  pub x_api_key : Option String
  pub query_api_key : Option String

-- An empty text is falsy.
abbrev truthy : Option String → Option String
truthy none = none
truthy (some s) = if str_eq s "" then none else some s

abbrev or_try : Option String → Option String → Option String
or_try none b = b
or_try (some a) b = some a

bearer : Option String → Option String
bearer none = none
bearer (some h) = if starts_with h "Bearer " then some (slice 7 h) else none

-- A bearer header is taken also where its rest is empty.
unfoldable pub extract_api_key : Request → Option String
unfolding bearer slice
extract_api_key r =
    or_try (bearer (truthy r.authorization)) (or_try (truthy r.x_api_key) (truthy r.query_api_key))

-- `error instanceof UnauthorizedException`; the exception of an expired key is another class.
abbrev rethrown : HttpException → HttpException
rethrown (unauthorized msg) = unauthorized msg
rethrown _ = unauthorized "Invalid API key"

abbrev guarded : Outcome HttpException ApiKey → Outcome HttpException ApiKey
guarded (ok k) = ok k
guarded (throw e) = throw (rethrown e)

module _ (table : ApiKeyTable) (sha256 : String → String) (cfg : ServiceConfig) where
  check :
      ℕ
      → Option String
      → State table sha256 cfg
      → Outcome HttpException ApiKey × State table sha256 cfg
  check now none s = (throw (unauthorized "API key is required"), s)
  check now (some raw) s =
      let (o, s') = validate_api_key table sha256 cfg now raw s in (guarded o, s')

  -- The key that the guard attaches to the request.
  unfoldable pub can_activate :
      ℕ → Request → State table sha256 cfg → Outcome HttpException ApiKey × State table sha256 cfg
  unfolding check
  can_activate now r s = check now (truthy (extract_api_key r)) s

  -- Where the active row of the key that a request presents has expired, the validation throws the
  -- exception that says so, and the guard throws the one for an unknown key in its place.
  pub can_activate-expired :
      (now : ℕ) (r : Request) (raw : String) (s : State table sha256 cfg) (k : ApiKey)
      → extract_api_key r ≡ some raw
      → str_eq raw "" ≡ false
      → find_active_by_key_hash table (sha256 raw) s.db ≡ some k
      → is_expired now k ≡ true
      → ((validate_api_key table sha256 cfg now raw s).0
          ≡ throw (api_key_expired k.expires_at k.id))
        × ((can_activate now r s).0 ≡ throw (unauthorized "Invalid API key"))
  unfolding can_activate validate_api_key
  can_activate-expired now r raw s k e n f x = (ground arith, ground arith)

  -- The key that OptionalApiKeyAuthGuard attaches: it catches every exception.
  attached : Outcome HttpException ApiKey → Option ApiKey
  attached (ok k) = some k
  attached (throw e) = none

  optional_check :
      ℕ → Option String → State table sha256 cfg → Option ApiKey × State table sha256 cfg
  unfolding attached
  optional_check now none s = (none, s)
  optional_check now (some raw) s =
      let (o, s') = validate_api_key table sha256 cfg now raw s in (attached o, s')

  -- OptionalApiKeyAuthGuard: each request passes, with the key that is attached to it.
  unfoldable pub optional_can_activate :
      ℕ → Request → State table sha256 cfg → Option ApiKey × State table sha256 cfg
  unfolding optional_check
  optional_can_activate now r s = optional_check now (truthy (extract_api_key r)) s

  -- The optional guard attaches a key exactly if the other guard lets the request pass with that
  -- key, and both leave the same state.
  pub optional_can_activate-can_activate :
      (now : ℕ) (r : Request) (s : State table sha256 cfg) (k : ApiKey)
      → (((optional_can_activate now r s).0 ≡ some k) ↔ ((can_activate now r s).0 ≡ ok k))
        × ((optional_can_activate now r s).1 ≡ (can_activate now r s).1)
  unfolding optional_can_activate can_activate
  optional_can_activate-can_activate now r s k = elim (Option-cases (truthy (extract_api_key r))) [
    | inl e ↦ ((λ h. ground arith, λ h. ground arith), ground arith)
    | inr (raw, e) ↦ ((λ h. ground arith, λ h. ground arith), ground arith)
  ]
