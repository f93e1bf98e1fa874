-- ===== src/RateLimit/Guard.antt =====
-- RateLimitGuard: apps/api/src/rate-limiting/guards/rate-limit.guard.ts.
use Prim.Native.Char.{Char, code}
use text.Mathlib.Text.{starts_with}
use gas_guard.Prelude.{
  ℕ, zero, suc, ◌-◌, ◌/◌, String, str_eq, Bool, true, not, ◌&&◌, ◌||◌, Option, none, some, leb,
  ◌==◌, if◌then◌else◌,
}
use gas_guard.Exec.{Exec, ok, throw, return, fail, ◌>>◌}
use gas_guard.Http.{HttpException, unauthorized, service_unavailable, too_many_requests}
use gas_guard.RateLimit.Plans.{Amount, infinity, RateLimitConfig, FallbackMode, strict, permissive}
use gas_guard.RateLimit.Redis.{Redis}
use gas_guard.RateLimit.Service.{Env, check_limit, increment_counter}

-- The characters that `String.prototype.trim` takes away.
is_space : Char → Bool
is_space c =
    let n = code c in
    (leb 9 n && leb n 13)
    || (n == 32
        || (n == 160
            || (n == 0x1680
                || ((leb 0x2000 n && leb n 0x200a)
                    || (n == 0x2028
                        || (n == 0x2029
                            || (n == 0x202f || (n == 0x205f || (n == 0x3000 || n == 0xfeff)))))))))

trim_start : String → String
trim_start String.[] = ""
trim_start (String.◌∷◌ c s) = if is_space c then trim_start s else String.◌∷◌ c s

trim_end : String → String
trim_end String.[] = ""
trim_end (String.◌∷◌ c s) =
    let rest = trim_end s in if str_eq rest "" && is_space c then "" else String.◌∷◌ c rest

unfoldable pub trim : String → String
unfolding is_space trim_start trim_end
trim s = trim_start (trim_end s)

-- `s.substring(n)`, of a text that begins with `n` ASCII characters
substring : String → ℕ → String
substring s zero = s
substring String.[] (suc n) = ""
substring (String.◌∷◌ c s) (suc n) = substring s n

-- The headers that the guard reads; `none` is a header that is missing or is a list of values.
pub record Headers : Type 0 where
  pub x_api_key : Option String
  pub authorization : Option String

bearer_token : Option String → Option String
bearer_token none = none
bearer_token (some h) = if starts_with h "Bearer " then some (trim (substring h 7)) else none

-- An empty header is falsy.
unfoldable pub extract_api_key : Headers → Option String
unfolding bearer_token substring trim
extract_api_key h = elim h.x_api_key [
  | none ↦ bearer_token h.authorization
  | some key ↦ if str_eq key "" then bearer_token h.authorization else some (trim key)
]

-- The rate limit headers of the response.
pub record LimitHeaders : Type 0 where
  pub limit : Amount
  pub remaining : Amount
  pub reset_time : ℕ

abbrev pub no_limit : LimitHeaders
no_limit = record { limit = infinity; remaining = infinity; reset_time = 0 }

module _ (redis : Redis) (cfg : RateLimitConfig) where
  open redis use {Db}

  -- What a request changes: Redis, and the headers of its response.
  pub record Exchange : Type 0 where
    pub db : Db
    pub headers : Option LimitHeaders

  abbrev pub Action : Type 0 → Type 0
  Action A = Exec HttpException Exchange A

  set_headers : LimitHeaders → Action Unit
  set_headers h s = (ok tt, record s { headers = some h })

  -- The mode for a request that cannot be checked.
  fallback : FallbackMode → HttpException → Action Bool
  unfolding set_headers
  fallback strict e = fail e
  fallback permissive e = do set_headers no_limit; return true

  -- The request has a key, and Redis is there.
  check_request : Env → Bool → String → Action Bool
  unfolding set_headers
  check_request env exec_ok api_key s =
      let status = check_limit redis cfg env api_key s.db in
      let s' =
        (set_headers
          (record {
            limit = status.limit;
            remaining = status.remaining;
            reset_time = status.reset_time;
          })
          s).1 in
      if not status.allowed
      then (
        throw (too_many_requests "Rate limit exceeded" (status.reset_time - env.now / 1000)),
        s',
      )
      else (ok true, record s' { db = increment_counter redis cfg env exec_ok api_key s.db })

  limit_request : Env → Bool → Option String → Action Bool
  unfolding fallback check_request
  limit_request env exec_ok none = fallback cfg.fallback_mode (unauthorized "Missing API Key")
  limit_request env exec_ok (some api_key) =
      if str_eq api_key ""
      then fallback cfg.fallback_mode (unauthorized "Missing API Key")
      else if not env.ready
      then fallback cfg.fallback_mode (service_unavailable "Service Unavailable")
      else check_request env exec_ok api_key

  -- `true`, or an exception: the messages hold no more than the error's name and the seconds to wait.
  unfoldable pub can_activate : Env → Bool → Headers → Action Bool
  unfolding limit_request
  can_activate env exec_ok headers = limit_request env exec_ok (extract_api_key headers)
