-- ===== src/Users/Examples.antt =====
-- Runs of the user services on a small table, and the theorems at these inputs.
use gas_guard.Prelude.{
  ℕ, ◌+◌, ◌≤◌, String, str_eq, eq_iff, ◌≡◌, refl, ◌↔◌, true, ◌&&◌, none, some, List, [], ◌∷◌, arith,
}
use gas_guard.Exec.{ok}
use gas_guard.Storage.Memory.{memory}
use gas_guard.Users.Role.{admin, operator, has_role_access}
use gas_guard.Users.User.{
  User, UserRepository, null, value, user_id, stored_user, stored_user-id, is_locked,
  can_authenticate,
}
use gas_guard.Users.Guard.{can_activate, can_activate_iff, MayPass}
use gas_guard.Users.Service.{
  CreateUserDto, UpdateUserRoleDto, find_by_email, max_failed_logins, failed_login,
}
use gas_guard.Users.Calls.{Call, creates, deletes, run}
use gas_guard.Users.Emails.{IsUniqueEmail, run-IsUniqueEmail}
use gas_guard.Users.Auth.{Credentials, LoginResponse, login, payload_of, login_user}
use gas_guard.Users.Login.{login_accepts}
use gas_guard.Users.Lockout.{tries, tries-le, attempt}

abbrev users : UserRepository
users = memory user_id stored_user stored_user-id

abbrev ann : User
ann = record {
  id = "1";
  email = "ann@gas.io";
  first_name = none;
  last_name = none;
  password_hash = "#sesame";
  role = operator;
  merchant_id = none;
  is_active = true;
  last_login_at = none;
  last_login_ip = none;
  password_changed_at = none;
  failed_login_attempts = 3;
  locked_until = null;
  created_at = 0;
  updated_at = 0;
  created_by = none;
  metadata = none;
}

abbrev locked_ann : User
locked_ann = record ann { failed_login_attempts = 5; locked_until = value 9000000 }

abbrev table : List User
table = ann ∷ []

-- A comparison and a signature that can be followed by hand.
abbrev plain : Credentials
plain = record { compare = λ p h. str_eq h "#sesame" && str_eq p "sesame"; sign = λ p. p.sub }

table-IsUniqueEmail : IsUniqueEmail users table
table-IsUniqueEmail = record { key = λ i j m p q. ground (arith, eq_iff "1" i, eq_iff "1" j) }

can_activate_iff_example :
    (can_activate 5 (some (admin ∷ operator ∷ [])) (some ann) ≡ ok true)
    ↔ MayPass 5 (admin ∷ operator ∷ []) ann
can_activate_iff_example = can_activate_iff 5 admin (operator ∷ []) ann

can_activate-ann : can_activate 5 (some (admin ∷ operator ∷ [])) (some ann) ≡ ok true
unfolding can_activate has_role_access is_locked
can_activate-ann = refl

abbrev ben_dto : CreateUserDto
ben_dto = record {
  email = "ben@gas.io";
  first_name = some "Ben";
  last_name = none;
  password_hash = "#x";
  role = none;
  merchant_id = none;
  created_by = some "1";
  metadata = none;
}

abbrev history : List (ℕ × String × Call)
history = (7, "2", creates ben_dto) ∷ (8, "3", creates ben_dto) ∷ (9, "1", deletes "2") ∷ []

run-IsUniqueEmail_example : IsUniqueEmail users (run users history table)
run-IsUniqueEmail_example = run-IsUniqueEmail users history table table-IsUniqueEmail

ann_found : find_by_email users "ann@gas.io" table ≡ some ann
unfolding find_by_email
ann_found = refl

abbrev ann_response : LoginResponse
ann_response = record { access_token = "1"; user = login_user ann }

login_ann : (login users plain 5 (attempt "ann@gas.io" "sesame") none table).0 ≡ ok ann_response
unfolding login can_authenticate is_locked
login_ann = refl

login_accepts_example :
    ((login users plain 5 (attempt "ann@gas.io" "sesame") none table).0 ≡ ok ann_response) ↔ (
      (u : User) × (find_by_email users "ann@gas.io" table ≡ some u)
      × (can_authenticate 5 u ≡ true)
      × (plain.compare "sesame" u.password_hash ≡ true)
      × (ann_response ≡ record { access_token = plain.sign (payload_of u); user = login_user u }))
login_accepts_example =
    login_accepts users plain 5 (attempt "ann@gas.io" "sesame") none table ann_response

abbrev guesses : List (ℕ × String)
guesses = (10, "a") ∷ (20, "b") ∷ (30, "c") ∷ []

-- The third guess meets the lock.
tries-guesses : tries users plain "ann@gas.io" guesses table ≡ 2
unfolding tries login can_authenticate is_locked failed_login
tries-guesses = refl

tries-le_example : tries users plain "ann@gas.io" guesses table + 3 ≤ max_failed_logins
tries-le_example =
    tries-le users plain 10 "ann@gas.io" guesses table ann table-IsUniqueEmail ann_found
      (omega arith)
      (
        (omega arith, omega arith, refl),
        ((omega arith, omega arith, refl), ((omega arith, omega arith, refl), tt)),
      )

still_locked : is_locked 60 locked_ann ≡ true
unfolding is_locked
still_locked = refl

abbrev promotion : UpdateUserRoleDto
promotion = record { role = admin; updated_by = "1" }
