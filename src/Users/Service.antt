-- ===== src/Users/Service.antt =====
-- RbacService: apps/api-service/src/rbac/services/rbac.service.ts. The table of users, the clock
-- and the key of a new row are arguments.
use gas_guard.Prelude.{
  ℕ, ◌+◌, ◌*◌, String, str_eq, str_append, Bool, true, Option, none, some, leb, or_else,
  if◌then◌else◌,
}
use gas_guard.Exec.{Exec, return, query, fail, found_or, write, throw_if, ◌>>=◌, ◌>>◌}
use gas_guard.Http.{HttpException, bad_request, not_found, conflict}
use gas_guard.Users.Role.{UserRole, viewer, has_role_access}
use gas_guard.Users.User.{User, UserRepository, undefined, null, value}

pub record CreateUserDto : Type 0 where
  pub email : String
  pub first_name : Option String
  pub last_name : Option String
  pub password_hash : String
  pub role : Option UserRole
  pub merchant_id : Option String
  pub created_by : Option String
  pub metadata : Option String

-- `none` is a property that the request leaves out.
pub record UpdateUserDto : Type 0 where
  pub first_name : Option String
  pub last_name : Option String
  pub role : Option UserRole
  pub merchant_id : Option String
  pub is_active : Option Bool
  pub metadata : Option String

pub record UpdateUserRoleDto : Type 0 where
  pub role : UserRole
  pub updated_by : String

abbrev pub max_failed_logins : ℕ
max_failed_logins = 5

-- 30 minutes
abbrev pub lock_time : ℕ
lock_time = 30 * 60 * 1000

-- The entity that `create` makes of the request; `id` is the key that the database generates.
abbrev pub new_user : String → CreateUserDto → User
new_user id dto = record {
  id = id;
  email = dto.email;
  first_name = dto.first_name;
  last_name = dto.last_name;
  password_hash = dto.password_hash;
  role = or_else dto.role viewer;
  merchant_id = dto.merchant_id;
  is_active = true;
  last_login_at = none;
  last_login_ip = none;
  password_changed_at = none;
  failed_login_attempts = 0;
  locked_until = undefined;
  created_at = 0;
  updated_at = 0;
  created_by = dto.created_by;
  metadata = dto.metadata;
}

-- `dto.x ?? user.x` for a nullable property
abbrev or_keep : Option String → Option String → Option String
or_keep none old = old
or_keep (some x) old = some x

-- `Object.assign(user, dto)`
abbrev pub assign_user : User → UpdateUserDto → User
assign_user u dto = record u {
  first_name = or_keep dto.first_name u.first_name;
  last_name = or_keep dto.last_name u.last_name;
  role = or_else dto.role u.role;
  merchant_id = or_keep dto.merchant_id u.merchant_id;
  is_active = or_else dto.is_active u.is_active;
  metadata = or_keep dto.metadata u.metadata;
}

-- One more failure; the fifth locks the account.
unfoldable pub failed_login : ℕ → User → User
failed_login now u =
    let n = u.failed_login_attempts + 1 in
    if leb max_failed_logins n
    then record u { failed_login_attempts = n; locked_until = value (now + lock_time) }
    else record u { failed_login_attempts = n }

-- A login that is recorded clears the failures and the lock.
abbrev pub logged_in : ℕ → Option String → User → User
logged_in now ip u = record u {
  last_login_at = some now;
  last_login_ip = or_keep ip u.last_login_ip;
  failed_login_attempts = 0;
  locked_until = null;
}

module _ (repo : UserRepository) where
  open repo use {Db, find_one, save, update, remove}

  abbrev pub Action : Type 0 → Type 0
  Action A = Exec HttpException Db A

  -- `save` returns the entity with the columns that the table sets.
  unfoldable pub save_user : ℕ → User → Action User
  save_user now u = write (save now u) (record u { updated_at = now })

  unfoldable pub find_by_email : String → Db → Option User
  find_by_email email db = find_one (λ u. str_eq u.email email) db

  unfoldable pub find_by_id : String → Action User
  find_by_id id = do
    found ← query (repo.find_by_id id)
    found_or (not_found (str_append "User with ID " (str_append id " not found"))) found

  unfoldable pub create_user : ℕ → String → CreateUserDto → Action User
  unfolding find_by_email
  create_user now id dto = do
    existing ← query (find_by_email dto.email)
    (elim existing [
      | some _ ↦
          fail (conflict (str_append "User with email " (str_append dto.email " already exists")))
      | none ↦
          write (save now (new_user id dto))
            (record (new_user id dto) { created_at = now; updated_at = now })
    ])

  unfoldable pub update_user : ℕ → String → UpdateUserDto → Action User
  unfolding find_by_id save_user
  update_user now id dto = do user ← find_by_id id; save_user now (assign_user user dto)

  unfoldable pub update_user_role : ℕ → String → UpdateUserRoleDto → Action User
  unfolding find_by_id save_user
  update_user_role now id dto = do
    user ← find_by_id id
    throw_if (str_eq id dto.updated_by) (bad_request "Cannot change your own role")
    save_user now (record user { role = dto.role })

  unfoldable pub delete_user : String → String → Action Unit
  unfolding find_by_id
  delete_user id deleted_by = do
    user ← find_by_id id
    throw_if (str_eq id deleted_by) (bad_request "Cannot delete your own account")
    write (remove user) tt

  unfoldable pub has_role : String → UserRole → Action Bool
  unfolding find_by_id
  has_role id required = do user ← find_by_id id; return (has_role_access user.role required)

  unfoldable pub record_login : ℕ → String → Option String → Action Unit
  record_login now id ip = write (update now id (logged_in now ip)) tt

  unfoldable pub record_failed_login : ℕ → String → Action Unit
  unfolding find_by_id failed_login
  record_failed_login now id = do user ← find_by_id id; write (save now (failed_login now user)) tt

  unfoldable pub unlock_user : ℕ → String → Action User
  unfolding find_by_id save_user
  unlock_user now id = do
    user ← find_by_id id
    save_user now (record user { locked_until = undefined; failed_login_attempts = 0 })

  unfoldable pub set_user_active_status : ℕ → String → Bool → Action User
  unfolding find_by_id save_user
  set_user_active_status now id is_active = do
    user ← find_by_id id
    save_user now (record user { is_active = is_active })
