-- ===== src/ApiKeys/Examples.antt =====
-- Runs of the API key service on a small table, and the theorems at these inputs. The hash is the
-- text itself.
use gas_guard.Prelude.{◌+◌, ◌*◌, String, ◌≡◌, refl, ◌↔◌, false, none, some, [], ◌∷◌}
use gas_guard.Exec.{ok}
use gas_guard.Storage.Memory.{memory}
use gas_guard.ApiKeys.Key.{
  active, expired, ApiKey, ApiKeyTable, key_id, stored_key, stored_key-id, day_ms, is_expired,
  find_active_by_key_hash, update_status, find_expired_keys,
}
use gas_guard.ApiKeys.Service.{
  ServiceConfig, State, Rotation, rotated_row, new_row, owned_key, validate_api_key, rotate_api_key,
  process_expired_keys, retire_all,
}
use gas_guard.ApiKeys.Calls.{rotates, step}
use gas_guard.ApiKeys.Lifecycle.{Follows, step-Follows}
use gas_guard.ApiKeys.Guard.{
  Request, can_activate, optional_can_activate, optional_can_activate-can_activate,
}
use gas_guard.ApiKeys.Validation.{validate_accepts}

abbrev keys : ApiKeyTable
keys = memory key_id stored_key stored_key-id

abbrev plain : String → String
plain raw = raw

abbrev settings : ServiceConfig
settings = record { default_expiry_days = 90; rotation_grace_period_hours = 24; key_prefix = "gg" }

abbrev key : ApiKey
key = record {
  id = "1";
  merchant_id = "m";
  name = "main";
  key_hash = "gg_a";
  status = active;
  last_used_at = none;
  request_count = 4;
  expires_at = some 9000;
  description = none;
  role = "user";
  metadata = none;
  created_at = 0;
  updated_at = 0;
  rotated_from_id = none;
}

abbrev start : State keys plain settings
start = record { db = key ∷ []; events = [] }

validate_accepts_example :
    ((validate_api_key keys plain settings 8000 "gg_a" start).0 ≡ ok key)
    ↔ ((find_active_by_key_hash keys "gg_a" start.db ≡ some key) × (is_expired 8000 key ≡ false))
validate_accepts_example = validate_accepts keys plain settings 8000 "gg_a" start key

accepted : (validate_api_key keys plain settings 8000 "gg_a" start).0 ≡ ok key
unfolding validate_api_key find_active_by_key_hash is_expired
accepted = refl

abbrev expired_key : ApiKey
expired_key = record key { status = expired; updated_at = 9500 }

after_job :
    keys.find_by_id "1" (process_expired_keys keys plain settings 9500 start).1.db
    ≡ some expired_key
unfolding process_expired_keys find_expired_keys retire_all update_status
after_job = refl

step-Follows_example :
    Follows keys plain settings active "1"
      (step keys plain settings 5 (rotates "2" "b" "1" "m") start).db
step-Follows_example =
    step-Follows keys plain settings 5 (rotates "2" "b" "1" "m") start "1" active refl refl

abbrev rotation : Rotation
rotation = record {
  new_key = record {
    row = record key {
      id = "2";
      key_hash = "gg_b";
      request_count = 0;
      expires_at = some (5 + 90 * day_ms);
      created_at = 5;
      updated_at = 5;
      rotated_from_id = some "1";
    };
    raw_key = "gg_b";
  };
  old_key_id = "1";
  grace_period_ends_at = 86400005;
}

rotation_done : (rotate_api_key keys plain settings 5 "2" "b" "1" "m" start).0 ≡ ok rotation
unfolding rotate_api_key owned_key rotated_row new_row
rotation_done = refl

abbrev presents : Request
presents = record { authorization = some "Bearer gg_a"; x_api_key = none; query_api_key = none }

optional_can_activate-can_activate_example :
    (((optional_can_activate keys plain settings 8000 presents start).0 ≡ some key)
      ↔ ((can_activate keys plain settings 8000 presents start).0 ≡ ok key))
    × ((optional_can_activate keys plain settings 8000 presents start).1
        ≡ (can_activate keys plain settings 8000 presents start).1)
optional_can_activate-can_activate_example =
    optional_can_activate-can_activate keys plain settings 8000 presents start key
