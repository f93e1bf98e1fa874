-- ===== src/ApiKeys/Updates.antt =====
-- What the writes of the table of API keys do to each row.
use mathlib.Core.Option
use gas_guard.Prelude.{
  ℕ, ◌+◌, String, str_eq, eq_iff, eq_refl, ◌≡◌, refl, inl, inr, false, Option, none, some, List, [],
  ◌∷◌, any, arith, Option-cases, if◌then◌else◌,
}
use gas_guard.ApiKeys.Key.{
  ApiKeyStatus, ApiKey, ApiKeyTable, stored_key, update_status, record_usage,
}
use gas_guard.ApiKeys.Service.{ServiceConfig, State, retire, retire_all}

module _ (table : ApiKeyTable) where
  open table use {Db, find_by_id, save, find_by_id-save, find_by_id-key}

  abbrev pub status_at : String → Db → Option ApiKeyStatus
  status_at i db = Option.map (λ k. k.status) (find_by_id i db)

  stored_key-status :
      (now : ℕ) (old : Option ApiKey) (k : ApiKey) → (stored_key now old k).status ≡ k.status
  stored_key-status now none k = refl
  stored_key-status now (some old) k = refl

  pub save-status :
      (i : String) (now : ℕ) (k : ApiKey) (db : Db)
      → status_at i (save now k db) ≡ (if str_eq k.id i then some k.status else status_at i db)
  save-status i now k db =
      ground (arith, find_by_id-save i now k db, stored_key-status now (find_by_id i db) k)

  -- A new status is that of its key's row, and no other row changes.
  pub update_status-status :
      (i : String) (now : ℕ) (id : String) (st : ApiKeyStatus) (db : Db)
      → status_at i (update_status table now id st db)
        ≡ (if str_eq id i then Option.map (λ _. st) (status_at i db) else status_at i db)
  unfolding update_status
  update_status-status i now id st db = elim (Option-cases (find_by_id id db)) [
    | inl e ↦ ground (arith, eq_iff id i)
    | inr (k, e) ↦ ground (
      arith,
      save-status i now (record k { status = st }) db,
      find_by_id-key id db k e,
      eq_iff id i,
    )
  ]

  pub update_status-row :
      (now : ℕ) (st : ApiKeyStatus) (k : ApiKey) (db : Db)
      → find_by_id k.id db ≡ some k
      → find_by_id k.id (update_status table now k.id st db)
        ≡ some (stored_key now (some k) (record k { status = st }))
  unfolding update_status
  update_status-row now st k db e =
      ground (arith, find_by_id-save k.id now (record k { status = st }) db, eq_refl k.id)

  pub update_status-other :
      (i : String) (now : ℕ) (id : String) (st : ApiKeyStatus) (db : Db)
      → str_eq id i ≡ false
      → find_by_id i (update_status table now id st db) ≡ find_by_id i db
  unfolding update_status
  update_status-other i now id st db h = elim (Option-cases (find_by_id id db)) [
    | inl e ↦ ground arith
    | inr (k, e) ↦
        ground
          (arith, find_by_id-save i now (record k { status = st }) db, find_by_id-key id db k e)
  ]

  pub record_usage-status :
      (i : String) (now : ℕ) (id : String) (db : Db)
      → status_at i (record_usage table now id db) ≡ status_at i db
  unfolding record_usage
  record_usage-status i now id db = elim (Option-cases (find_by_id id db)) [
    | inl e ↦ ground arith
    | inr (k, e) ↦ ground (
      arith,
      save-status i now (record k { request_count = k.request_count + 1; last_used_at = some now })
          db,
      find_by_id-key id db k e,
      eq_iff id i,
    )
  ]

module _ (table : ApiKeyTable) (sha256 : String → String) (cfg : ServiceConfig) where
  open table use {Db, find_by_id}

  -- Retiring keys sets the status of each, and no other row changes.
  pub retire_all-status :
      (i : String) (now : ℕ) (st : ApiKeyStatus) (reason : String) (ks : List ApiKey)
      (s : State table sha256 cfg)
      → status_at table i (retire_all table sha256 cfg now st reason ks s).db ≡ (
          if any (λ k. str_eq k.id i) ks
          then Option.map (λ _. st) (status_at table i s.db)
          else status_at table i s.db)
  unfolding retire_all
  retire_all-status i now st reason [] s = refl
  retire_all-status i now st reason (k ∷ ks) s = ground (
    arith,
    retire_all-status i now st reason ks (retire table sha256 cfg now st reason k s),
    update_status-status table i now k.id st s.db,
  )

  pub retire_all-other :
      (i : String) (now : ℕ) (st : ApiKeyStatus) (reason : String) (ks : List ApiKey)
      (s : State table sha256 cfg)
      → any (λ k. str_eq k.id i) ks ≡ false
      → find_by_id i (retire_all table sha256 cfg now st reason ks s).db ≡ find_by_id i s.db
  unfolding retire_all
  retire_all-other i now st reason [] s h = refl
  retire_all-other i now st reason (k ∷ ks) s h = ground (
    arith,
    retire_all-other i now st reason ks (retire table sha256 cfg now st reason k s),
    update_status-other table i now k.id st s.db,
  )
