-- ===== src/ApiKeys/Validation.antt =====
-- Which keys are accepted, and what the calls about keys refuse.
use gas_guard.Prelude.{
  ℕ, ◌+◌, String, str_eq, eq_refl, ◌≡◌, refl, sym, ◌∙◌, ◌↔◌, inl, inr, false, Option, some, any,
  arith, Bool-cases, Option-cases,
}
use gas_guard.Storage.Queries.{find-row}
use gas_guard.Exec.{ok, throw}
use gas_guard.Http.{forbidden}
use gas_guard.ApiKeys.Key.{
  active, expired, ApiKey, ApiKeyTable, stored_key, record_usage, find_active_by_key_hash, is_stale,
  is_expired,
}
use gas_guard.ApiKeys.Service.{
  ServiceConfig, State, validate_api_key, rotate_api_key, revoke_api_key, process_expired_keys,
}
use gas_guard.ApiKeys.Updates.{retire_all-status, retire_all-other}
use gas_guard.ApiKeys.Outcomes.{validate_used}
use gas_guard.ApiKeys.Lifecycle.{active_key}

module _ (table : ApiKeyTable) (sha256 : String → String) (cfg : ServiceConfig) where
  open table use {
    Db, find_by_id, find_by_id-key, find_by_id-save, find_one-some, find_one-none, find-complete,
  }

  -- A raw key is accepted exactly if the active row with its hash has not expired, and is that row.
  pub validate_accepts :
      (now : ℕ) (raw : String) (s : State table sha256 cfg) (k : ApiKey)
      → ((validate_api_key table sha256 cfg now raw s).0 ≡ ok k)
        ↔ ((find_active_by_key_hash table (sha256 raw) s.db ≡ some k) × (is_expired now k ≡ false))
  unfolding validate_api_key
  validate_accepts now raw s k = (λ h. accepted h, λ (f, e). ground arith)
    where
      accepted :
          (validate_api_key table sha256 cfg now raw s).0 ≡ ok k
          → (find_active_by_key_hash table (sha256 raw) s.db ≡ some k) × (is_expired now k ≡ false)
      accepted h = elim (Option-cases (find_active_by_key_hash table (sha256 raw) s.db)) [
        | inl e ↦ ground arith
        | inr (j, e) ↦ ground arith
      ]

  -- A validation that accepts a key adds one to the count of its row, notes the time as that of its
  -- last use, and leaves it active.
  pub validate_counts :
      (now : ℕ) (raw : String) (s : State table sha256 cfg) (k : ApiKey)
      → (validate_api_key table sha256 cfg now raw s).0 ≡ ok k
      → (w : ApiKey) × (find_by_id k.id (validate_api_key table sha256 cfg now raw s).1.db ≡ some w)
        × (w.request_count ≡ k.request_count + 1)
        × (w.last_used_at ≡ some now)
        × (w.status ≡ active)
  validate_counts now raw s k h =
      let (f, live) = (validate_accepts now raw s k).0 h in
      let (_, on, row) = active_key table sha256 cfg (sha256 raw) s.db k f in
      let used = record k { request_count = k.request_count + 1; last_used_at = some now } in
      (
        stored_key now (some k) used,
        rw (validate_used table sha256 cfg now raw s k f live) (
            unfold record_usage in
            ground (arith, find_by_id-save k.id now used s.db, eq_refl k.id)),
        refl,
        refl,
        on,
      )

  -- A key of another merchant is neither rotated nor revoked: both calls throw and change nothing.
  pub other_merchant :
      (now : ℕ) (new random id merchant : String) (reason : Option String)
      (s : State table sha256 cfg) (k : ApiKey)
      → find_by_id id s.db ≡ some k
      → str_eq k.merchant_id merchant ≡ false
      → (rotate_api_key table sha256 cfg now new random id merchant s
          ≡ (throw (forbidden "You do not have access to this API key"), s))
        × (revoke_api_key table sha256 cfg now id merchant reason s
            ≡ (throw (forbidden "You do not have access to this API key"), s))
  unfolding rotate_api_key revoke_api_key
  other_merchant now new random id merchant reason s k e h = (ground arith, ground arith)

  -- After the daily job no key that had expired by then is still active.
  pub process_expired_complete :
      (now : ℕ) (s : State table sha256 cfg) (i : String) (k : ApiKey)
      → find_by_id i (process_expired_keys table sha256 cfg now s).1.db ≡ some k
      → is_stale now k ≡ false
  unfolding process_expired_keys
  process_expired_complete now s i k h =
      elim (Bool-cases (any (λ x. str_eq x.id i) (table.find (is_stale now) s.db))) [
        | inl found ↦
            let (j, row, met) = find-row table (is_stale now) s.db i found in
            ground (
              arith,
              retire_all-status table sha256 cfg i now expired "expired"
                  (table.find (is_stale now) s.db) s,
            )
        | inr out ↦
            let same =
              retire_all-other table sha256 cfg i now expired "expired"
                (table.find (is_stale now) s.db) s out in
            ground (arith, find-complete (is_stale now) s.db i k (sym same ∙ h))
      ]
