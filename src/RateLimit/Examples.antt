-- ===== src/RateLimit/Examples.antt =====
-- Runs of the rate limiter on a Redis in memory, and the theorems at these inputs.
use gas_guard.Prelude.{
  ℕ, ◌+◌, ◌≤◌, ◌<◌, max, ◌≡◌, refl, ◌↔◌, inl, true, false, none, some, List, [], ◌∷◌, arith,
}
use gas_guard.Exec.{throw}
use gas_guard.Http.{too_many_requests}
use gas_guard.RateLimit.Plans.{
  Window, minute, hour, day, window_duration, free, quota_of, RateLimitConfig, strict,
}
use gas_guard.RateLimit.Config.{PartialQuota, updated_quota}
use gas_guard.RateLimit.Local.{Store, local, empty_store}
use gas_guard.RateLimit.Service.{
  check_limit, get_quota_for_key, get_window_count, increment_counter, update_quota,
}
use gas_guard.RateLimit.Guard.{Headers, can_activate, extract_api_key}
use gas_guard.RateLimit.Counters.{online}
use gas_guard.RateLimit.Admission.{Request, admitted, handle, check_limit-allowed}
use gas_guard.RateLimit.Bound.{admitted-le}
use gas_guard.RateLimit.Refusal.{can_activate-refused}

abbrev limits : RateLimitConfig
limits = record { fallback_mode = strict; default_tier = free; enabled = true }

abbrev key_headers : Headers
key_headers = record { x_api_key = some "k"; authorization = none }

abbrev other_headers : Headers
other_headers = record { x_api_key = none; authorization = some "Bearer j " }

abbrev request : Headers → Request
request h = record { now = 60000; headers = h }

abbrev requests : List Request
requests = request key_headers ∷ request other_headers ∷ request key_headers ∷ []

bearer_key : extract_api_key other_headers ≡ some "j"
unfolding extract_api_key
bearer_key = refl

admitted-requests : admitted local limits "k" requests empty_store ≡ 2
unfolding admitted handle can_activate extract_api_key check_limit get_quota_for_key
    get_window_count increment_counter
admitted-requests = refl

quota_k : quota_of (get_quota_for_key local limits (online 0) "k" empty_store) minute ≡ 10
unfolding get_quota_for_key
quota_k = refl

admitted-le_example : admitted local limits "k" requests empty_store + 0 ≤ max 10 0
admitted-le_example =
    admitted-le local limits "k" minute 1 requests 0 10 empty_store refl refl
      (refl, (refl, (refl, tt))) (inl (refl, refl)) quota_k

check_limit-allowed_example :
    ((check_limit local limits (online 60000) "k" empty_store).allowed ≡ true) ↔ (
      (w : Window)
      → get_window_count local limits (online 60000) "k" w empty_store
        < quota_of (get_quota_for_key local limits (online 60000) "k" empty_store) w)
check_limit-allowed_example = check_limit-allowed local limits 60000 "k" empty_store refl

abbrev one_off : PartialQuota
one_off = record { requests_per_minute = some 1; requests_per_hour = none; requests_per_day = none }

-- The key's quota is one request a minute, and that request was made.
abbrev used_store : Store
used_store =
    increment_counter local limits (online 60000) true "k"
      (update_quota local limits (online 60000) "k" one_off empty_store).1

used_refused : (check_limit local limits (online 90000) "k" used_store).allowed ≡ false
unfolding check_limit get_quota_for_key get_window_count increment_counter update_quota
    updated_quota
used_refused = refl

key_extracted : extract_api_key key_headers ≡ some "k"
unfolding extract_api_key
key_extracted = refl

can_activate-refused_example :
    let r =
      can_activate local limits
        (online 90000)
        true
        key_headers
        (record { db = used_store; headers = none }) in
    (wait : ℕ) × (r.0 ≡ throw (too_many_requests "Rate limit exceeded" wait))
    × (0 < wait)
    × (wait ≤ window_duration (check_limit local limits (online 90000) "k" used_store).window)
    × (r.1.db ≡ used_store)
can_activate-refused_example =
    can_activate-refused local limits 90000 true key_headers "k" used_store key_extracted refl
      used_refused

abbrev quota_store : Store
quota_store = (update_quota local limits (online 60000) "k" one_off empty_store).1

quota_allowed : (check_limit local limits (online 60000) "k" quota_store).allowed ≡ true
unfolding check_limit get_quota_for_key get_window_count update_quota updated_quota
quota_allowed = refl

one_left :
    get_window_count local limits (online 60000) "k" minute quota_store + 1
    ≡ quota_of (get_quota_for_key local limits (online 60000) "k" quota_store) minute
unfolding get_quota_for_key get_window_count update_quota updated_quota
one_left = refl

quota_pos :
    (w : Window) → 0 < quota_of (get_quota_for_key local limits (online 90000) "k" used_store) w
unfolding get_quota_for_key increment_counter update_quota updated_quota
quota_pos minute = omega arith
quota_pos hour = omega arith
quota_pos day = omega arith
