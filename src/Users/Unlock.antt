-- ===== src/Users/Unlock.antt =====
-- What RbacService's `unlockUser` and `recordLogin` leave of a lock, and who may change a role.
use mathlib.Core.Option
use gas_guard.Prelude.{
  ℕ, String, str_eq, eq_refl, ◌≡◌, refl, Bool, true, false, not, Option, none, some, arith, inl,
  inr, Option-cases,
}
use gas_guard.Users.Role.{UserRole}
use gas_guard.Users.User.{User, UserRepository, undefined, stored_user, is_locked}
use gas_guard.Users.Service.{
  failed_login, logged_in, unlock_user, record_login, assign_user, delete_user, update_user,
  update_user_role, set_user_active_status, record_failed_login,
}
use gas_guard.Users.Calls.{
  Call, creates, updates, changes_role, deletes, logs_in, fails_login, unlocks, sets_active, step,
}

abbrev is_some {ℓ} : {A : Type ℓ} → Option A → Bool
is_some none = false
is_some (some a) = true

-- The calls that may change the role of the user with the key.
abbrev pub changes : String → Call → Bool
changes id (creates dto) = true
changes id (updates dto) = is_some dto.role
changes id (changes_role dto) = not (str_eq id dto.updated_by)
changes id (deletes by) = not (str_eq id by)
changes id _ = false

failed_login-role : (now : ℕ) (u : User) → (failed_login now u).role ≡ u.role
unfolding failed_login
failed_login-role now u = ground arith

failed_login-id : (now : ℕ) (u : User) → (failed_login now u).id ≡ u.id
unfolding failed_login
failed_login-id now u = ground arith

stored_user-role : (now : ℕ) (old : Option User) (u : User) → (stored_user now old u).role ≡ u.role
stored_user-role now none u = refl
stored_user-role now (some old) u = refl

module _ (repo : UserRepository) where
  open repo use {Db, save, update, find_by_id, find_by_id-save, find_by_id-update, find_by_id-key}

  -- After `unlockUser` of a known user the failures are forgotten, and the account is locked at each time exactly
  -- if it was before.
  pub unlock_user-is_locked :
      (now : ℕ) (id : String) (t : ℕ) (db : Db) (u : User)
      → find_by_id id db ≡ some u
      → (w : User) × (find_by_id id (step repo now id unlocks db) ≡ some w)
        × (w.failed_login_attempts ≡ 0)
        × (is_locked t w ≡ is_locked t u)
  unfolding step unlock_user is_locked
  unlock_user-is_locked now id t db u h = (
    stored_user now (some u) (record u { locked_until = undefined; failed_login_attempts = 0 }),
    ground (
      arith,
      find_by_id-save id now (record u { locked_until = undefined; failed_login_attempts = 0 }) db,
      find_by_id-key id db u h,
      eq_refl id,
    ),
    refl,
    refl,
  )

  -- `recordLogin` of a known user forgets the failures and ends the lock.
  pub record_login-is_locked :
      (now : ℕ) (id : String) (ip : Option String) (t : ℕ) (db : Db) (u : User)
      → find_by_id id db ≡ some u
      → (w : User) × (find_by_id id (step repo now id (logs_in ip) db) ≡ some w)
        × (w.failed_login_attempts ≡ 0)
        × (is_locked t w ≡ false)
  unfolding step record_login is_locked
  record_login-is_locked now id ip t db u h = (
    stored_user now (some u) (logged_in now ip u),
    ground (arith, find_by_id-update id now id (logged_in now ip) db (λ e. refl), eq_refl id),
    refl,
    refl,
  )

  abbrev pub role_at : String → Db → Option UserRole
  role_at id db = Option.map (λ u. u.role) (find_by_id id db)

  save-role :
      (now : ℕ) (id : String) (u e : User) (db : Db)
      → find_by_id id db ≡ some u
      → e.id ≡ u.id
      → e.role ≡ u.role
      → role_at id (save now e db) ≡ role_at id db
  save-role now id u e db h k r = ground (
    arith,
    find_by_id-save id now e db,
    find_by_id-key id db u h,
    eq_refl id,
    stored_user-role now (some u) e,
  )

  -- A method that looks its user up and saves it with the same role.
  saved-role :
      (now : ℕ) (id : String) (f : User → User) (db db' : Db)
      → ((u : User) → (f u).id ≡ u.id)
      → ((u : User) → (f u).role ≡ u.role)
      → (find_by_id id db ≡ none → db' ≡ db)
      → ((u : User) → find_by_id id db ≡ some u → db' ≡ save now (f u) db)
      → role_at id db' ≡ role_at id db
  saved-role now id f db db' k r missing found = elim (Option-cases (find_by_id id db)) [
    | inl e ↦ rw (missing e)
    | inr (u, e) ↦ rw (found u e) (save-role now id u (f u) db e (k u) (r u))
  ]

  -- A role is changed by no other calls than an update that names a role and a change of role by
  -- somebody else; a user neither changes the own role by `updateUserRole` nor removes the own row.
  pub role_at-step :
      (now : ℕ) (id : String) (c : Call) (db : Db)
      → changes id c ≡ false
      → role_at id (step repo now id c db) ≡ role_at id db
  unfolding step update_user update_user_role delete_user record_login record_failed_login
      unlock_user set_user_active_status
  role_at-step now id (creates dto) db h = cc
  role_at-step now id (updates dto) db h =
      saved-role now id (λ u. assign_user u dto) db _ (λ u. refl) (λ u. ground arith)
        (λ e. ground arith) (λ u e. ground arith)
  role_at-step now id (changes_role dto) db h = ground (arith, Option-cases (find_by_id id db))
  role_at-step now id (deletes by) db h = ground (arith, Option-cases (find_by_id id db))
  role_at-step now id (logs_in ip) db h = elim (Option-cases (find_by_id id db)) [
    | inl e ↦ ground (arith, find_by_id-update id now id (logged_in now ip) db (λ u. refl))
    | inr (u, e) ↦ ground (arith, find_by_id-update id now id (logged_in now ip) db (λ u. refl))
  ]
  role_at-step now id fails_login db h =
      saved-role now id (failed_login now) db _ (failed_login-id now) (failed_login-role now)
        (λ e. ground arith) (λ u e. ground arith)
  role_at-step now id unlocks db h =
      saved-role now id (λ u. record u { locked_until = undefined; failed_login_attempts = 0 }) db _
        (λ u. refl) (λ u. refl) (λ e. ground arith) (λ u e. ground arith)
  role_at-step now id (sets_active b) db h =
      saved-role now id (λ u. record u { is_active = b }) db _ (λ u. refl) (λ u. refl)
        (λ e. ground arith) (λ u e. ground arith)
