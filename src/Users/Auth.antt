-- ===== src/Users/Auth.antt =====
-- AuthService: apps/api-service/src/auth/services/auth.service.ts, and the JWT strategy's check of
-- a token's user (auth/strategies/jwt.strategy.ts). bcrypt and the JWT package are parameters.
use gas_guard.Prelude.{ℕ, String, Bool, not, ◌||◌, Option, none, some, if◌then◌else◌}
use gas_guard.Exec.{Exec, return, query, found_or, write, throw_if, ◌>>=◌, ◌>>◌}
use gas_guard.Http.{HttpException, unauthorized}
use gas_guard.Users.Role.{UserRole}
use gas_guard.Users.User.{User, UserRepository, undefined, is_locked, can_authenticate}
use gas_guard.Users.Service.{failed_login, logged_in, find_by_email}

pub record LoginDto : Type 0 where
  pub email : String
  pub password : String

pub record JwtPayload : Type 0 where
  pub sub : String
  pub email : String
  pub role : UserRole
  pub merchant_id : Option String

pub record LoginUser : Type 0 where
  pub id : String
  pub email : String
  pub first_name : Option String
  pub last_name : Option String
  pub role : UserRole
  pub merchant_id : Option String

pub record LoginResponse : Type 0 where
  pub access_token : String
  pub user : LoginUser

-- What the service calls of `bcrypt` and of `JwtService`.
pub record Credentials : Type 0 where
  -- `bcrypt.compare(password, hash)`
  pub compare : String → String → Bool
  pub sign : JwtPayload → String

abbrev pub payload_of : User → JwtPayload
payload_of u = record { sub = u.id; email = u.email; role = u.role; merchant_id = u.merchant_id }

abbrev pub login_user : User → LoginUser
login_user u = record {
  id = u.id;
  email = u.email;
  first_name = u.first_name;
  last_name = u.last_name;
  role = u.role;
  merchant_id = u.merchant_id;
}

-- The update that a login makes; it leaves `lockedUntil` undefined.
abbrev pub login_recorded : ℕ → Option String → User → User
login_recorded now ip u = record (logged_in now ip u) { locked_until = undefined }

module _ (repo : UserRepository) (lib : Credentials) where
  open repo use {Db, find_by_id, save, update}

  abbrev pub Action : Type 0 → Type 0
  Action A = Exec HttpException Db A

  -- An unknown user is passed over.
  record_failed_login : ℕ → String → Action Unit
  unfolding failed_login
  record_failed_login now id = do
    found ← query (find_by_id id)
    (elim found [ none ↦ return tt | some user ↦ write (save now (failed_login now user)) tt ])

  check_password : ℕ → String → Option User → Action (Option User)
  unfolding record_failed_login
  check_password now password none = return none
  check_password now password (some user) = do
    throw_if (not (can_authenticate now user)) (unauthorized "Account is not active or is locked")
    if lib.compare password user.password_hash
        then return (some user)
        else do record_failed_login now user.id; return none

  unfoldable pub validate_user : ℕ → String → String → Action (Option User)
  unfolding find_by_email check_password
  validate_user now email password = do
    found ← query (find_by_email repo email)
    check_password now password found

  record_successful_login : ℕ → String → Option String → Action Unit
  record_successful_login now id ip = write (update now id (login_recorded now ip)) tt

  unfoldable pub login : ℕ → LoginDto → Option String → Action LoginResponse
  unfolding validate_user record_successful_login
  login now dto ip = do
    found ← validate_user now dto.email dto.password
    user ← found_or (unauthorized "Invalid credentials") found
    record_successful_login now user.id ip
    return (record { access_token = lib.sign (payload_of user); user = login_user user })

  live_user : ℕ → Option User → Option User
  live_user now none = none
  live_user now (some user) = if not user.is_active || is_locked now user then none else some user

  unfoldable pub validate_payload : ℕ → JwtPayload → Db → Option User
  unfolding live_user
  validate_payload now payload db = live_user now (find_by_id payload.sub db)

  -- `validate` of the JWT strategy
  unfoldable pub validate : ℕ → JwtPayload → Action User
  unfolding validate_payload
  validate now payload = do
    found ← query (validate_payload now payload)
    found_or (unauthorized "Invalid token or user not found") found
