-- ===== src/ApiKeys/Outcomes.antt =====
-- The table that each call of ApiKeyService leaves.
use gas_guard.Prelude.{
  ℕ, String, str_eq, ◌≡◌, ◌⊎◌, inl, inr, true, false, Option, none, some, arith, Bool-cases,
  Option-cases,
}
use gas_guard.ApiKeys.Key.{
  rotated, revoked, expired, same_status, ApiKey, ApiKeyTable, update_status, record_usage,
  find_active_by_key_hash, is_expired,
}
use gas_guard.ApiKeys.Service.{
  ServiceConfig, State, rotated_row, validate_api_key, rotate_api_key, revoke_api_key,
}

module _ (table : ApiKeyTable) (sha256 : String → String) (cfg : ServiceConfig) where
  open table use {Db, find_by_id, save}

  module _ (now : ℕ) (raw : String) (s : State table sha256 cfg) where
    abbrev validated : State table sha256 cfg
    validated = (validate_api_key table sha256 cfg now raw s).1

    pub validate_missing :
        find_active_by_key_hash table (sha256 raw) s.db ≡ none → validated.db ≡ s.db
    unfolding validate_api_key
    validate_missing h = ground arith

    pub validate_expired :
        (k : ApiKey)
        → find_active_by_key_hash table (sha256 raw) s.db ≡ some k
        → is_expired now k ≡ true
        → validated.db ≡ update_status table now k.id expired s.db
    unfolding validate_api_key
    validate_expired k h e = ground arith

    pub validate_used :
        (k : ApiKey)
        → find_active_by_key_hash table (sha256 raw) s.db ≡ some k
        → is_expired now k ≡ false
        → validated.db ≡ record_usage table now k.id s.db
    unfolding validate_api_key
    validate_used k h e = ground arith

  -- A rotation leaves the table, or adds the new key and then marks the old one.
  pub rotate_cases :
      (now : ℕ) (new random id merchant : String) (s : State table sha256 cfg)
      → let db' = (rotate_api_key table sha256 cfg now new random id merchant s).1.db in
        (db' ≡ s.db)
        ⊎ ((k : ApiKey) × (find_by_id id s.db ≡ some k)
            × (same_status k.status revoked ≡ false)
            × (db'
                ≡ update_status table now k.id rotated
                    (save now (rotated_row table sha256 cfg now new random merchant k) s.db)))
  unfolding rotate_api_key
  rotate_cases now new random id merchant s = elim (Option-cases (find_by_id id s.db)) [
    | inl e ↦ inl (ground arith)
    | inr (k, e) ↦ elim (Bool-cases (str_eq k.merchant_id merchant)) [
      | inr other ↦ inl (ground arith)
      | inl own ↦ elim (Bool-cases (same_status k.status revoked)) [
        | inl dead ↦ inl (ground arith)
        | inr alive ↦ inr (k, e, alive, ground arith)
      ]
    ]
  ]

  pub revoke_cases :
      (now : ℕ) (id merchant : String) (reason : Option String) (s : State table sha256 cfg)
      → let db' = (revoke_api_key table sha256 cfg now id merchant reason s).1.db in
        (db' ≡ s.db)
        ⊎ ((k : ApiKey) × (find_by_id id s.db ≡ some k)
            × (same_status k.status revoked ≡ false)
            × (db' ≡ update_status table now id revoked s.db))
  unfolding revoke_api_key
  revoke_cases now id merchant reason s = elim (Option-cases (find_by_id id s.db)) [
    | inl e ↦ inl (ground arith)
    | inr (k, e) ↦ elim (Bool-cases (str_eq k.merchant_id merchant)) [
      | inr other ↦ inl (ground arith)
      | inl own ↦ elim (Bool-cases (same_status k.status revoked)) [
        | inl dead ↦ inl (ground arith)
        | inr alive ↦ inr (k, e, alive, ground arith)
      ]
    ]
  ]
