-- ===== src/ApiKeys/Calls.antt =====
-- The calls of ApiKeyService that write, and what each does to the status of each key.
use gas_guard.Prelude.{ℕ, String, ◌≡◌, Option, none}
use gas_guard.ApiKeys.Key.{ApiKeyTable}
use gas_guard.ApiKeys.Service.{
  ServiceConfig, State, CreateApiKeyDto, create_api_key, validate_api_key, rotate_api_key,
  revoke_api_key, process_expired_keys, cleanup_rotated_keys,
}

pub data Call : Type 0 where
  -- the id of the new row, its random part, the merchant
  creates : String → String → String → CreateApiKeyDto → Call
  -- the raw key
  validates : String → Call
  -- the id and the random part of the new key, the old id, the merchant
  rotates : String → String → String → String → Call
  revokes : String → String → Option String → Call
  processes_expired cleans_up : Call

module _ (table : ApiKeyTable) (sha256 : String → String) (cfg : ServiceConfig) where
  unfoldable pub step : ℕ → Call → State table sha256 cfg → State table sha256 cfg
  step now (creates id random merchant dto) s =
      (create_api_key table sha256 cfg now id random merchant dto s).1
  step now (validates raw) s = (validate_api_key table sha256 cfg now raw s).1
  step now (rotates new random id merchant) s =
      (rotate_api_key table sha256 cfg now new random id merchant s).1
  step now (revokes id merchant reason) s =
      (revoke_api_key table sha256 cfg now id merchant reason s).1
  step now processes_expired s = (process_expired_keys table sha256 cfg now s).1
  step now cleans_up s = (cleanup_rotated_keys table sha256 cfg now s).1

  -- The id of the row that the call makes is new, as a random UUID is.
  abbrev pub IsFresh : Call → State table sha256 cfg → Type 0
  IsFresh (creates id _ _ _) s = table.find_by_id id s.db ≡ none
  IsFresh (rotates id _ _ _) s = table.find_by_id id s.db ≡ none
  IsFresh _ s = Unit
