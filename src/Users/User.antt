-- ===== src/Users/User.antt =====
-- apps/api-service/src/database/entities/user.entity.ts. Times are milliseconds.
use gas_guard.Prelude.{ℕ, String, ◌≡◌, refl, Bool, false, not, ◌&&◌, Option, none, some, ltb}
use gas_guard.Storage.Repository.{Repository}
use gas_guard.Users.Role.{UserRole}

-- A nullable property of an entity in memory.
pub data Property {ℓ} (A : Type ℓ) : Type ℓ where
  undefined null : Property A
  value : A → Property A

pub record User : Type 0 where
  pub id : String
  pub email : String
  pub first_name : Option String
  pub last_name : Option String
  pub password_hash : String
  pub role : UserRole
  pub merchant_id : Option String
  pub is_active : Bool
  pub last_login_at : Option ℕ
  pub last_login_ip : Option String
  pub password_changed_at : Option ℕ
  pub failed_login_attempts : ℕ
  pub locked_until : Property ℕ
  pub created_at : ℕ
  pub updated_at : ℕ
  pub created_by : Option String
  pub metadata : Option String

abbrev pub user_id : User → String
user_id u = u.id

-- The lock that a saved row has: what is undefined keeps the column.
abbrev pub stored_lock : Property ℕ → Property ℕ → Property ℕ
stored_lock old undefined = old
stored_lock old null = null
stored_lock old (value t) = value t

-- A save of a new or an old row: `updatedAt` is set, and `createdAt` once.
abbrev pub stored_user : ℕ → Option User → User → User
stored_user now none u = record u {
  created_at = now;
  updated_at = now;
  locked_until = stored_lock null u.locked_until;
}
stored_user now (some old) u = record u {
  created_at = old.created_at;
  updated_at = now;
  locked_until = stored_lock old.locked_until u.locked_until;
}

pub stored_user-id :
    (now : ℕ) (old : Option User) (u : User) → user_id (stored_user now old u) ≡ user_id u
stored_user-id now none u = refl
stored_user-id now (some old) u = refl

abbrev pub UserRepository : Type 1
UserRepository = Repository User user_id stored_user

abbrev locked_at : ℕ → Property ℕ → Bool
locked_at now undefined = false
locked_at now null = false
locked_at now (value t) = ltb now t

-- `new Date() < this.lockedUntil`
unfoldable pub is_locked : ℕ → User → Bool
is_locked now u = locked_at now u.locked_until

unfoldable pub can_authenticate : ℕ → User → Bool
can_authenticate now u = u.is_active && not (is_locked now u)
