-- ===== src/ApiKeys/Lifecycle.antt =====
-- The life of an API key: which status follows which, whatever is called.
use gas_guard.Prelude.{
  ℕ, String, str_eq, eq_iff, ◌≡◌, refl, sym, ◌∙◌, ap, inl, inr, Bool, true, false, none, some, any,
  arith, Bool-cases, Option-cases,
}
use gas_guard.Storage.Queries.{find-row}
use gas_guard.ApiKeys.Key.{
  ApiKeyStatus, active, rotated, revoked, expired, same_status, ApiKey, ApiKeyTable, update_status,
  find_active_by_key_hash, is_stale, is_past_grace, is_active_hash, is_expired,
}
use gas_guard.ApiKeys.Service.{
  ServiceConfig, State, create_api_key, rotated_row, process_expired_keys, cleanup_rotated_keys,
  retire_all, rotated_row-id,
}
use gas_guard.ApiKeys.Calls.{
  Call, creates, validates, rotates, revokes, processes_expired, cleans_up, step, IsFresh,
}
use gas_guard.ApiKeys.Outcomes.{
  validate_missing, validate_expired, validate_used, rotate_cases, revoke_cases,
}
use gas_guard.ApiKeys.Updates.{
  status_at, save-status, update_status-status, record_usage-status, retire_all-status,
}

-- The statuses that may follow a status.
abbrev pub may_become : ApiKeyStatus → ApiKeyStatus → Bool
may_become active _ = true
may_become rotated rotated = true
may_become rotated revoked = true
may_become expired expired = true
may_become expired rotated = true
may_become expired revoked = true
may_become revoked revoked = true
may_become _ _ = false

may_rotate :
    (st o : ApiKeyStatus)
    → same_status st revoked ≡ false
    → some st ≡ some o
    → may_become o rotated ≡ true
may_rotate st o h e = ground arith

module _ (table : ApiKeyTable) (sha256 : String → String) (cfg : ServiceConfig) where
  open table use {Db, find_by_id, find_by_id-key, find_one-some}

  -- The row has a status that may follow `old`.
  abbrev pub Follows : ApiKeyStatus → String → Db → Type 0
  Follows old i db =
      (new : ApiKeyStatus) × (status_at table i db ≡ some new) × (may_become old new ≡ true)

  stays :
      (i : String) (old : ApiKeyStatus) (db : Db)
      → status_at table i db ≡ some old
      → Follows old i db
  stays i active db h = (active, h, refl)
  stays i rotated db h = (rotated, h, refl)
  stays i revoked db h = (revoked, h, refl)
  stays i expired db h = (expired, h, refl)

  pub active_key :
      (hash : String) (db : Db) (k : ApiKey)
      → find_active_by_key_hash table hash db ≡ some k
      → (k.key_hash ≡ hash) × (k.status ≡ active) × (find_by_id k.id db ≡ some k)
  unfolding find_active_by_key_hash
  active_key hash db k h =
      let (p, q) = find_one-some (is_active_hash hash) db k h in
      (ground (arith, eq_iff k.key_hash hash), ground arith, q)

  -- Retiring the rows that a query found.
  retired-Follows :
      (i : String) (old : ApiKeyStatus) (now : ℕ) (st : ApiKeyStatus) (reason : String)
      (p : ApiKey → Bool) (s : State table sha256 cfg)
      → ((k : ApiKey) → p k ≡ true → may_become k.status st ≡ true)
      → status_at table i s.db ≡ some old
      → Follows old i (retire_all table sha256 cfg now st reason (table.find p s.db) s).db
  retired-Follows i old now st reason p s ok h =
      elim (Bool-cases (any (λ k. str_eq k.id i) (table.find p s.db))) [
        | inr out ↦
            stays i old _
              (rw (retire_all-status table sha256 cfg i now st reason (table.find p s.db) s, out) h)
        | inl found ↦
            let (k, row, met) = find-row table p s.db i found in
            (
              st,
              rw
                  (
                    retire_all-status table sha256 cfg i now st reason (table.find p s.db) s,
                    found,
                    h,
                  )
                  refl,
              ground (arith, ok k met),
            )
      ]

  -- A new status for one key.
  set-Follows :
      (i : String) (old : ApiKeyStatus) (now : ℕ) (id : String) (st : ApiKeyStatus) (db : Db)
      → ((o : ApiKeyStatus) → status_at table id db ≡ some o → may_become o st ≡ true)
      → status_at table i db ≡ some old
      → Follows old i (update_status table now id st db)
  set-Follows i old now id st db ok h = elim (Bool-cases (str_eq id i)) [
    | inr other ↦ stays i old _ (rw (update_status-status table i now id st db, other) h)
    | inl here ↦
        let same : status_at table id db ≡ some old = rw ((eq_iff id i).0 here) h in
        (st, rw (update_status-status table i now id st db, here, h) refl, ok old same)
  ]

  save-new :
      (i : String) (old : ApiKeyStatus) (now : ℕ) (k : ApiKey) (db : Db)
      → find_by_id k.id db ≡ none
      → status_at table i db ≡ some old
      → status_at table i (table.save now k db) ≡ some old
  save-new i old now k db fresh h = ground (arith, save-status table i now k db, eq_iff k.id i)

  -- Every call whose new row, if it makes one, has an unused id, whether it returns or throws, moves
  -- each key along the life of a key: a revoked key stays revoked, no key becomes active again, and
  -- a rotated key stays rotated or is revoked.
  pub step-Follows :
      (now : ℕ) (c : Call) (s : State table sha256 cfg) (i : String) (old : ApiKeyStatus)
      → IsFresh table sha256 cfg c s
      → status_at table i s.db ≡ some old
      → Follows old i (step table sha256 cfg now c s).db
  unfolding step
  step-Follows now (creates id random merchant dto) s i old fresh h =
      unfold create_api_key in stays i old _ (save-new i old now _ s.db fresh h)
  step-Follows now (validates raw) s i old fresh h =
      elim (Option-cases (find_active_by_key_hash table (sha256 raw) s.db)) [
        | inl e ↦ rw (validate_missing table sha256 cfg now raw s e) (stays i old s.db h)
        | inr (k, e) ↦
            let (_, on, row) = active_key (sha256 raw) s.db k e in
            elim (Bool-cases (is_expired now k)) [
              | inl late ↦
                  rw (validate_expired table sha256 cfg now raw s k e late)
                    (set-Follows i old now k.id expired s.db (λ o p. ground arith) h)
              | inr live ↦
                  rw (validate_used table sha256 cfg now raw s k e live)
                    (stays i old _ (record_usage-status table i now k.id s.db ∙ h))
            ]
      ]
  step-Follows now (rotates new random id merchant) s i old fresh h =
      elim (rotate_cases table sha256 cfg now new random id merchant s) [
        | inl e ↦ rw e (stays i old s.db h)
        | inr (k, row, alive, e) ↦
            let next = rotated_row table sha256 cfg now new random merchant k in
            let unused : find_by_id next.id s.db ≡ none =
              rw (rotated_row-id table sha256 cfg now new random merchant k) fresh in
            let here : find_by_id k.id s.db ≡ some k =
              ap (λ j. find_by_id j s.db) (find_by_id-key id s.db k row) ∙ row in
            let before : status_at table k.id (table.save now next s.db) ≡ some k.status =
              save-new k.id k.status now next s.db unused (rw here) in
            rw e (
              set-Follows i old now k.id rotated (table.save now next s.db)
                (λ o p. may_rotate k.status o alive (sym before ∙ p))
                (save-new i old now next s.db unused h))
      ]
  step-Follows now (revokes id merchant reason) s i old fresh h =
      elim (revoke_cases table sha256 cfg now id merchant reason s) [
        | inl e ↦ rw e (stays i old s.db h)
        | inr (k, row, alive, e) ↦
            rw e (set-Follows i old now id revoked s.db (λ o p. ground arith) h)
      ]
  step-Follows now processes_expired s i old fresh h =
      unfold process_expired_keys in
      retired-Follows i old now expired "expired" (is_stale now) s (λ k met. ground arith) h
  step-Follows now cleans_up s i old fresh h =
      unfold cleanup_rotated_keys in
      retired-Follows i old now revoked "grace-period-ended"
        (is_past_grace now cfg.rotation_grace_period_hours) s (λ k met. ground arith) h
