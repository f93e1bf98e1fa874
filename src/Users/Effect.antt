-- ===== src/Users/Effect.antt =====
-- What a call of RbacService does to the table, call by call.
use gas_guard.Prelude.{
  ℕ, String, str_eq, ◌≡◌, refl, inl, inr, none, some, arith, Option-cases, Bool-cases,
}
use gas_guard.Users.User.{User, UserRepository, undefined}
use gas_guard.Users.Service.{
  failed_login, logged_in, create_user, update_user, update_user_role, delete_user, record_login,
  record_failed_login, unlock_user, set_user_active_status, new_user, assign_user, find_by_email,
}
use gas_guard.Users.Calls.{
  Call, creates, updates, changes_role, deletes, logs_in, fails_login, unlocks, sets_active, step,
}

-- The two entities are one user: the key and the email agree.
pub record SameUser (u v : User) : Type 0 where
  pub id : u.id ≡ v.id
  pub email : u.email ≡ v.email

pub failed_login-SameUser : (now : ℕ) (u : User) → SameUser (failed_login now u) u
unfolding failed_login
failed_login-SameUser now u = ground arith

module _ (repo : UserRepository) where
  open repo use {Db, save, update, remove}

  pub data Effect (now : ℕ) (id : String) (db db' : Db) : Type 0 where
    kept : db' ≡ db → Effect now id db db'
    created :
        (e : User)
        → e.id ≡ id
        → find_by_email repo e.email db ≡ none
        → db' ≡ save now e db
        → Effect now id db db'
    saved :
        (old e : User)
        → repo.find_by_id id db ≡ some old
        → SameUser e old
        → db' ≡ save now e db
        → Effect now id db db'
    patched :
        (f : User → User)
        → ((u : User) → SameUser (f u) u)
        → db' ≡ update now id f db
        → Effect now id db db'
    removed :
        (old : User) → repo.find_by_id id db ≡ some old → db' ≡ remove old db → Effect now id db db'

  -- A method that looks its user up and then saves it.
  saved_or_kept :
      (now : ℕ) (id : String) (db db' : Db) (f : User → User)
      → ((u : User) → SameUser (f u) u)
      → (repo.find_by_id id db ≡ none → db' ≡ db)
      → ((u : User) → repo.find_by_id id db ≡ some u → db' ≡ save now (f u) db)
      → Effect now id db db'
  saved_or_kept now id db db' f same missing found = elim (Option-cases (repo.find_by_id id db)) [
    | inl e ↦ kept (missing e)
    | inr (u, e) ↦ saved u (f u) e (same u) (found u e)
  ]

  pub step-Effect :
      (now : ℕ) (id : String) (c : Call) (db : Db) → Effect now id db (step repo now id c db)
  unfolding step create_user update_user update_user_role delete_user record_login
      record_failed_login unlock_user set_user_active_status
  step-Effect now id (creates dto) db = elim (Option-cases (find_by_email repo dto.email db)) [
    | inl e ↦ created (new_user id dto) refl e (ground arith)
    | inr (u, e) ↦ kept (ground arith)
  ]
  step-Effect now id (updates dto) db =
      saved_or_kept now id db _ (λ u. assign_user u dto) (λ u. record { id = refl; email = refl })
        (λ h. ground arith) (λ u h. ground arith)
  step-Effect now id (changes_role dto) db = elim (Bool-cases (str_eq id dto.updated_by)) [
    | inl own ↦ kept (ground arith)
    | inr other ↦
        saved_or_kept now id db _ (λ u. record u { role = dto.role })
          (λ u. record { id = refl; email = refl }) (λ h. ground arith) (λ u h. ground arith)
  ]
  step-Effect now id (deletes by) db = elim (Option-cases (repo.find_by_id id db)) [
    | inl e ↦ kept (ground arith)
    | inr (u, e) ↦ elim (Bool-cases (str_eq id by)) [
      | inl own ↦ kept (ground arith)
      | inr other ↦ removed u e (ground arith)
    ]
  ]
  step-Effect now id (logs_in ip) db =
      patched (logged_in now ip) (λ u. record { id = refl; email = refl }) refl
  step-Effect now id fails_login db =
      saved_or_kept now id db _ (failed_login now) (failed_login-SameUser now) (λ h. ground arith)
        (λ u h. ground arith)
  step-Effect now id unlocks db =
      saved_or_kept now id db _
        (λ u. record u { locked_until = undefined; failed_login_attempts = 0 })
        (λ u. record { id = refl; email = refl }) (λ h. ground arith) (λ u h. ground arith)
  step-Effect now id (sets_active b) db =
      saved_or_kept now id db _ (λ u. record u { is_active = b })
        (λ u. record { id = refl; email = refl }) (λ h. ground arith) (λ u h. ground arith)
