-- ===== src/ApiKeys/Key.antt =====
-- The table of API keys: apps/api-service/src/audit/entities/api-key.entity.ts and
-- services/api-key.repository.ts. Times are milliseconds; a day has 24 hours (the clock is UTC).
use gas_guard.Prelude.{
  ℕ, ◌+◌, ◌*◌, String, str_eq, ◌≡◌, refl, Bool, true, false, ◌&&◌, Option, none, some, List, ltb,
  leb,
}
use gas_guard.Storage.Repository.{Repository}

pub data ApiKeyStatus : Type 0 where
  active rotated revoked expired : ApiKeyStatus

abbrev pub same_status : ApiKeyStatus → ApiKeyStatus → Bool
same_status active active = true
same_status rotated rotated = true
same_status revoked revoked = true
same_status expired expired = true
same_status _ _ = false

pub record ApiKey : Type 0 where
  pub id : String
  pub merchant_id : String
  pub name : String
  pub key_hash : String
  pub status : ApiKeyStatus
  pub last_used_at : Option ℕ
  pub request_count : ℕ
  pub expires_at : Option ℕ
  pub description : Option String
  pub role : String
  pub metadata : Option String
  pub created_at : ℕ
  pub updated_at : ℕ
  pub rotated_from_id : Option String

abbrev pub key_id : ApiKey → String
key_id k = k.id

-- The columns that the table keeps: `createdAt`, and `updatedAt` on each write.
abbrev pub stored_key : ℕ → Option ApiKey → ApiKey → ApiKey
stored_key now none k = record k { created_at = now; updated_at = now }
stored_key now (some old) k = record k { created_at = old.created_at; updated_at = now }

pub stored_key-id :
    (now : ℕ) (old : Option ApiKey) (k : ApiKey) → key_id (stored_key now old k) ≡ key_id k
stored_key-id now none k = refl
stored_key-id now (some old) k = refl

abbrev pub ApiKeyTable : Type 1
ApiKeyTable = Repository ApiKey key_id stored_key

abbrev pub hour_ms : ℕ
hour_ms = 60 * 60 * 1000

abbrev pub day_ms : ℕ
day_ms = 24 * hour_ms

-- `where: { keyHash, status: ACTIVE }`
abbrev pub is_active_hash : String → ApiKey → Bool
is_active_hash hash k = str_eq k.key_hash hash && same_status k.status active

-- `expiresAt < :now`, which a null does not meet
abbrev expires_before : ℕ → Option ℕ → Bool
expires_before now none = false
expires_before now (some t) = ltb t now

abbrev expires_between : ℕ → ℕ → Option ℕ → Bool
expires_between from to none = false
expires_between from to (some t) = leb from t && leb t to

-- `new Date() > apiKey.expiresAt`
unfoldable pub is_expired : ℕ → ApiKey → Bool
is_expired now k = expires_before now k.expires_at

abbrev pub is_stale : ℕ → ApiKey → Bool
is_stale now k = same_status k.status active && expires_before now k.expires_at

-- `updatedAt < now - gracePeriodHours`
abbrev pub is_past_grace : ℕ → ℕ → ApiKey → Bool
is_past_grace now hours k = same_status k.status rotated && ltb (k.updated_at + hours * hour_ms) now

module _ (table : ApiKeyTable) where
  open table use {Db, find_by_id, find_one, find, save, count}

  abbrev save_found : ℕ → (ApiKey → ApiKey) → Option ApiKey → Db → Db
  save_found now f none db = db
  save_found now f (some k) db = save now (f k) db

  unfoldable pub find_active_by_key_hash : String → Db → Option ApiKey
  find_active_by_key_hash hash db = find_one (is_active_hash hash) db

  -- Asks for active keys only.
  unfoldable pub find_valid_by_key_hash : String → Db → Option ApiKey
  find_valid_by_key_hash hash db = find_one (is_active_hash hash) db

  unfoldable pub update_status : ℕ → String → ApiKeyStatus → Db → Db
  update_status now id status db =
      save_found now (λ k. record k { status = status }) (find_by_id id db) db

  unfoldable pub revoke : ℕ → String → Db → Db
  unfolding update_status
  revoke now id db = update_status now id revoked db

  unfoldable pub record_usage : ℕ → String → Db → Db
  record_usage now id db =
      save_found now
        (λ k. record k { request_count = k.request_count + 1; last_used_at = some now })
        (find_by_id id db) db

  unfoldable pub find_expired_keys : ℕ → Db → List ApiKey
  find_expired_keys now db = find (is_stale now) db

  unfoldable pub find_keys_expiring_within_days : ℕ → ℕ → Db → List ApiKey
  find_keys_expiring_within_days now days db =
      find
        (λ k. same_status k.status active && expires_between now (now + days * day_ms) k.expires_at)
        db

  unfoldable pub find_keys_past_grace_period : ℕ → ℕ → Db → List ApiKey
  find_keys_past_grace_period now hours db = find (is_past_grace now hours) db

  unfoldable pub is_owned_by : String → String → Db → Bool
  is_owned_by id merchant_id db =
      ltb 0 (count (λ k. str_eq k.id id && str_eq k.merchant_id merchant_id) db)
