-- ===== src/ApiKeys/Service.antt =====
-- ApiKeyService: apps/api-service/src/audit/services/api-key.service.ts. The table, the clock, the
-- random part of a new key and its row's id are arguments, and so is Node's SHA-256.
use gas_guard.Prelude.{
  ℕ, zero, suc, ◌+◌, ◌-◌, ◌*◌, ◌/◌, String, str_eq, str_append, ◌≡◌, refl, Bool, not, Option, none,
  some, List, [], ◌∷◌, ◌++◌, length, if◌then◌else◌,
}
use gas_guard.Exec.{Exec, ok, return, query, fail, found_or, throw_if, ◌>>=◌, ◌>>◌}
use gas_guard.Http.{
  HttpException, unauthorized, not_found, forbidden, api_key_expired, internal_error,
}
use gas_guard.ApiKeys.Key.{
  stored_key, ApiKeyStatus, active, rotated, revoked, expired, same_status, ApiKey, ApiKeyTable,
  hour_ms, day_ms, is_expired, find_active_by_key_hash, update_status, record_usage,
  find_expired_keys, find_keys_past_grace_period, find_keys_expiring_within_days,
}

pub record CreateApiKeyDto : Type 0 where
  pub name : String
  pub description : Option String
  pub expires_in_days : Option ℕ
  pub role : Option String

-- A new key as its owner sees it, once.
pub record NewKey : Type 0 where
  pub row : ApiKey
  pub raw_key : String

pub record ApiKeyStatusDto : Type 0 where
  pub key : ApiKey
  pub status : ApiKeyStatus
  pub is_expired : Bool
  pub days_until_expiry : ℕ

pub record Rotation : Type 0 where
  pub new_key : NewKey
  pub old_key_id : String
  pub grace_period_ends_at : ℕ

-- The events that the service emits to the audit log: the keys, and why a key was revoked. The reason
-- that the caller of a rotation gives is left out.
pub data AuditEvent : Type 0 where
  api_key_created : String → AuditEvent
  api_key_rotated : String → String → AuditEvent
  -- the key and the reason
  api_key_revoked : String → String → AuditEvent

pub record ServiceConfig : Type 0 where
  pub default_expiry_days : ℕ
  pub rotation_grace_period_hours : ℕ
  pub key_prefix : String

-- `days || default`
abbrev or_default : Option ℕ → ℕ → ℕ
or_default none d = d
or_default (some zero) d = d
or_default (some (suc n)) d = suc n

-- `text || default`: an empty text is falsy.
abbrev or_text : Option String → String → String
or_text none d = d
or_text (some t) d = if str_eq t "" then d else t

-- `Math.max(0, Math.ceil((expiresAt - now) / day))`
abbrev pub days_until : ℕ → ℕ → ℕ
days_until now t = (t - now + (day_ms - 1)) / day_ms

abbrev pub generate_api_key : String → String → String
generate_api_key prefix random = str_append prefix (str_append "_" random)

module _ (table : ApiKeyTable) (sha256 : String → String) (cfg : ServiceConfig) where
  open table use {Db, find_by_id, save}

  pub record State : Type 0 where
    pub db : Db
    -- oldest first
    pub events : List AuditEvent

  abbrev pub Action : Type 0 → Type 0
  Action A = Exec HttpException State A

  abbrev pub modify : (Db → Db) → Action Unit
  modify f s = (ok tt, record s { db = f s.db })

  abbrev pub emit : AuditEvent → Action Unit
  emit e s = (ok tt, record s { events = s.events ++ e ∷ [] })

  unfoldable pub new_row :
      String → String → String → Option String → String → String → ℕ → Option String → ApiKey
  new_row id merchant_id name description hash role expires_at rotated_from_id = record {
    id = id;
    merchant_id = merchant_id;
    name = name;
    key_hash = hash;
    status = active;
    last_used_at = none;
    request_count = 0;
    expires_at = some expires_at;
    description = description;
    role = role;
    metadata = none;
    created_at = 0;
    updated_at = 0;
    rotated_from_id = rotated_from_id;
  }

  unfoldable pub create_api_key : ℕ → String → String → String → CreateApiKeyDto → Action NewKey
  unfolding new_row
  create_api_key now id random merchant_id dto = do
    let raw_key = generate_api_key cfg.key_prefix random
    let expires_at = now + or_default dto.expires_in_days cfg.default_expiry_days * day_ms
    let row =
        new_row id merchant_id dto.name dto.description (sha256 raw_key) (or_text dto.role "user")
          expires_at none
    modify (save now row)
    emit (api_key_created id)
    return (record { row = stored_key now none row; raw_key = raw_key })

  -- The key that a request presents.
  unfoldable pub validate_api_key : ℕ → String → Action ApiKey
  unfolding is_expired find_active_by_key_hash
  validate_api_key now raw_key = do
    found ← query (λ s. find_active_by_key_hash table (sha256 raw_key) s.db)
    key ← found_or (unauthorized "Invalid API key") found
    if is_expired now key
        then (do
          modify (update_status table now key.id expired)
          emit (api_key_revoked key.id "expired")
          fail (api_key_expired key.expires_at key.id))
        else (do modify (record_usage table now key.id); return key)

  -- The key with the id, if it is the merchant's.
  unfoldable pub owned_key : String → String → Action ApiKey
  owned_key id merchant_id = do
    found ← query (λ s. find_by_id id s.db)
    key ← found_or (not_found "API key not found") found
    throw_if (not (str_eq key.merchant_id merchant_id))
        (forbidden "You do not have access to this API key")
    return key

  status_dto : ℕ → ApiKey → Option ℕ → Action ApiKeyStatusDto
  unfolding is_expired
  status_dto now key none = fail (internal_error "TypeError")
  status_dto now key (some t) = return (record {
    key = key;
    status = if is_expired now key then expired else key.status;
    is_expired = is_expired now key;
    days_until_expiry = days_until now t;
  })

  -- A key with no date of expiry has no `getTime`.
  unfoldable pub get_api_key_status : ℕ → String → String → Action ApiKeyStatusDto
  unfolding owned_key status_dto
  get_api_key_status now id merchant_id = do
    key ← owned_key id merchant_id
    status_dto now key key.expires_at

  -- The key that takes the place of an old one.
  unfoldable pub rotated_row : ℕ → String → String → String → ApiKey → ApiKey
  unfolding new_row
  rotated_row now new_id random merchant_id old =
      new_row new_id merchant_id old.name old.description
        (sha256 (generate_api_key cfg.key_prefix random)) old.role
        (now + cfg.default_expiry_days * day_ms) (some old.id)

  pub rotated_row-hash :
      (now : ℕ) (new_id random merchant_id : String) (old : ApiKey)
      → (rotated_row now new_id random merchant_id old).key_hash
        ≡ sha256 (generate_api_key cfg.key_prefix random)
  unfolding rotated_row
  rotated_row-hash now new_id random merchant_id old = refl

  pub rotated_row-id :
      (now : ℕ) (new_id random merchant_id : String) (old : ApiKey)
      → (rotated_row now new_id random merchant_id old).id ≡ new_id
  unfolding rotated_row
  rotated_row-id now new_id random merchant_id old = refl

  unfoldable pub rotate_api_key : ℕ → String → String → String → String → Action Rotation
  unfolding owned_key
  rotate_api_key now new_id random id merchant_id = do
    old ← owned_key id merchant_id
    throw_if (same_status old.status revoked) (forbidden "Cannot rotate a revoked API key")
    let raw_key = generate_api_key cfg.key_prefix random
    let row = rotated_row now new_id random merchant_id old
    modify (save now row)
    modify (update_status table now old.id rotated)
    emit (api_key_rotated old.id new_id)
    return (record {
      new_key = record { row = stored_key now none row; raw_key = raw_key };
      old_key_id = old.id;
      grace_period_ends_at = now + cfg.rotation_grace_period_hours * hour_ms;
    })

  unfoldable pub revoke_api_key : ℕ → String → String → Option String → Action Unit
  unfolding owned_key
  revoke_api_key now id merchant_id reason = do
    key ← owned_key id merchant_id
    throw_if (same_status key.status revoked) (forbidden "API key is already revoked")
    modify (update_status table now id revoked)
    emit (api_key_revoked id (or_text reason "user-initiated"))

  abbrev pub retire : ℕ → ApiKeyStatus → String → ApiKey → State → State
  retire now status reason k s = record s {
    db = update_status table now k.id status s.db;
    events = s.events ++ api_key_revoked k.id reason ∷ [];
  }

  -- `for (const key of keys)`: the status is set, and the event says why.
  unfoldable pub retire_all : ℕ → ApiKeyStatus → String → List ApiKey → State → State
  retire_all now status reason [] s = s
  retire_all now status reason (k ∷ ks) s =
      retire_all now status reason ks (retire now status reason k s)

  unfoldable pub process_expired_keys : ℕ → State → ℕ × State
  unfolding find_expired_keys
  process_expired_keys now s =
      let keys = find_expired_keys table now s.db in
      (length keys, retire_all now expired "expired" keys s)

  unfoldable pub cleanup_rotated_keys : ℕ → State → ℕ × State
  unfolding find_keys_past_grace_period
  cleanup_rotated_keys now s =
      let keys = find_keys_past_grace_period table now cfg.rotation_grace_period_hours s.db in
      (length keys, retire_all now revoked "grace-period-ended" keys s)

  unfoldable pub get_keys_expiring_soon : ℕ → ℕ → State → List ApiKey
  unfolding find_keys_expiring_within_days
  get_keys_expiring_soon now days s = find_keys_expiring_within_days table now days s.db
