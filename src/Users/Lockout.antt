-- ===== src/Users/Lockout.antt =====
-- The lock after five failed logins: AuthService and RbacService over the table of users.
use gas_guard.Prelude.{
  ℕ, suc, ◌+◌, ◌≤◌, ◌<◌, String, str_eq, ◌≡◌, refl, inl, inr, Bool, false, none, some, List, [],
  ◌∷◌, All, arith, Bool-cases, leb, leb→le, if◌then◌else◌,
}
use gas_guard.Exec.{Outcome, throw}
use gas_guard.Http.{HttpException, unauthorized}
use gas_guard.Users.User.{User, UserRepository, value, stored_user, can_authenticate, is_locked}
use gas_guard.Users.Service.{find_by_email, lock_time, max_failed_logins, failed_login}
use gas_guard.Users.Effect.{saved, failed_login-SameUser}
use gas_guard.Users.Emails.{IsUniqueEmail, Effect-IsUniqueEmail}
use gas_guard.Users.Auth.{Credentials, LoginDto, LoginResponse, login}
use gas_guard.Users.Login.{find_by_email-failed, find_by_email-some, login_wrong}

-- The password was compared, and was wrong.
abbrev is_invalid : Outcome HttpException LoginResponse → Bool
is_invalid (throw (unauthorized msg)) = str_eq msg "Invalid credentials"
is_invalid _ = false

abbrev pub attempt : String → String → LoginDto
attempt m p = record { email = m; password = p }

-- The account cannot log in before `end`.
abbrev IsLockedUntil : ℕ → User → Type 0
IsLockedUntil end u = (s : ℕ) × (u.locked_until ≡ value s) × (end ≤ s)

locked-can_authenticate :
    (now end : ℕ) (u : User) → IsLockedUntil end u → now < end → can_authenticate now u ≡ false
unfolding can_authenticate is_locked
locked-can_authenticate now end u (s, e, h) p = ground arith

-- The row after a failure: one more is counted, and the fifth locks.
failure :
    (now : ℕ) (u : User)
    → let w = stored_user now (some u) (failed_login now u) in
      (w.failed_login_attempts ≡ u.failed_login_attempts + 1)
      × (w.password_hash ≡ u.password_hash)
      × (4 ≤ u.failed_login_attempts → IsLockedUntil (now + lock_time) w)
unfolding failed_login
failure now u = (ground arith, ground arith, λ h. (now + lock_time, ground arith, ground arith))

module _ (repo : UserRepository) (lib : Credentials) where
  open repo use {Db, save}

  -- How many of the guesses, made in turn at their times, were compared with the password.
  unfoldable pub tries : String → List (ℕ × String) → Db → ℕ
  tries m [] db = 0
  tries m ((now, p) ∷ gs) db =
      let (r, db') = login repo lib now (attempt m p) none db in
      let rest = tries m gs db' in if is_invalid r then suc rest else rest

  -- Every guess falls in the half hour from `start`, and is wrong.
  abbrev pub WrongGuesses : ℕ → String → List (ℕ × String) → Type 0
  WrongGuesses start hash =
      All (λ g. (start ≤ g.0) × (g.0 < start + lock_time) × (lib.compare g.1 hash ≡ false))

  tries_locked :
      (start : ℕ) (m : String) (u : User) (gs : List (ℕ × String)) (db : Db)
      → find_by_email repo m db ≡ some u
      → IsLockedUntil (start + lock_time) u
      → WrongGuesses start u.password_hash gs
      → tries m gs db ≡ 0
  unfolding tries
  tries_locked start m u [] db f l h = refl
  tries_locked start m u ((now, p) ∷ gs) db f l h = ground (
    arith,
    login_wrong repo lib now (attempt m p) none db u f h.0.2,
    locked-can_authenticate now (start + lock_time) u l,
    tries_locked start m u gs db f l h.1,
  )

  -- In a table whose emails are unique, for a user with at most four failures: of guesses that are
  -- all wrong and all within half an hour, those that are compared and the failures before are
  -- together at most five.
  pub tries-le :
      (start : ℕ) (m : String) (gs : List (ℕ × String)) (db : Db) (u : User)
      → IsUniqueEmail repo db
      → find_by_email repo m db ≡ some u
      → u.failed_login_attempts ≤ 4
      → WrongGuesses start u.password_hash gs
      → tries m gs db + u.failed_login_attempts ≤ max_failed_logins
  unfolding tries
  tries-le start m [] db u v f a h = omega arith
  tries-le start m ((now, p) ∷ gs) db u v f a h =
      let w = stored_user now (some u) (failed_login now u) in
      let (counted, same, locks) = failure now u in
      let next = save now (failed_login now u) db in
      let f' : find_by_email repo m next ≡ some w = find_by_email-failed repo m now db u v f in
      let v' : IsUniqueEmail repo next =
        Effect-IsUniqueEmail repo now u.id db next
          (saved u (failed_login now u) (find_by_email-some repo m db u f).1
            (failed_login-SameUser now u) refl)
          v in
      let wrong : WrongGuesses start w.password_hash gs = rw same h.1 in
      elim (Bool-cases (can_authenticate now u)) [
        | inr out ↦ ground (
          arith,
          login_wrong repo lib now (attempt m p) none db u f h.0.2,
          tries-le start m gs db u v f a h.1,
        )
        | inl free ↦ elim (Bool-cases (leb 4 u.failed_login_attempts)) [
          | inl fifth ↦
              let (s, e, late) = locks (leb→le 4 u.failed_login_attempts fifth) in
              ground (
                arith,
                login_wrong repo lib now (attempt m p) none db u f h.0.2,
                tries_locked start m w gs next f' (s, e, omega (arith, h.0.0)) wrong,
              )
          | inr fewer ↦ ground (
            arith,
            login_wrong repo lib now (attempt m p) none db u f h.0.2,
            counted,
            tries-le start m gs next w v' f' (ground (arith, counted)) wrong,
          )
        ]
      ]
