-- ===== src/Users/Login.antt =====
-- Who may log in, and what a wrong password leaves: `login` of AuthService over the table.
use gas_guard.Prelude.{
  ℕ, String, str_eq, eq_iff, eq_refl, ◌≡◌, refl, ◌∙◌, ap, ◌↔◌, inl, inr, true, false, Option, some,
  arith, Option-cases, if◌then◌else◌,
}
use gas_guard.Exec.{ok, throw}
use gas_guard.Http.{HttpException, unauthorized}
use gas_guard.Users.User.{User, UserRepository, stored_user, can_authenticate}
use gas_guard.Users.Service.{find_by_email, failed_login}
use gas_guard.Users.Effect.{SameUser, saved, failed_login-SameUser}
use gas_guard.Users.Emails.{IsUniqueEmail, fresh-email, stored_user-email, Effect-IsUniqueEmail}
use gas_guard.Users.Auth.{Credentials, LoginDto, LoginResponse, payload_of, login_user, login}

abbrev pub invalid : HttpException
invalid = unauthorized "Invalid credentials"

abbrev pub locked : HttpException
locked = unauthorized "Account is not active or is locked"

module _ (repo : UserRepository) where
  open repo use {Db, save, find_by_id, find_by_id-save, find_one-some, find_one-none}

  pub find_by_email-some :
      (m : String) (db : Db) (u : User)
      → find_by_email repo m db ≡ some u
      → (u.email ≡ m) × (find_by_id u.id db ≡ some u)
  unfolding find_by_email
  find_by_email-some m db u h =
      let (p, q) = find_one-some (λ w. str_eq w.email m) db u h in ((eq_iff u.email m).0 p, q)

  -- The row of an email is found by it.
  pub find_by_email-row :
      (m i : String) (db : Db) (u : User)
      → IsUniqueEmail repo db
      → find_by_id i db ≡ some u
      → u.email ≡ m
      → find_by_email repo m db ≡ some u
  find_by_email-row m i db u v row e = elim (Option-cases (find_by_email repo m db)) [
    | inl f ↦ absurd (fresh-email repo m i db f (rw row (ap some e)))
    | inr (w, f) ↦
        let (p, q) = find_by_email-some m db w f in
        let same : w.id ≡ i = v.key w.id i m (rw q (ap some p)) (rw row (ap some e)) in ground arith
  ]

  pub find_by_email-failed :
      (m : String) (now : ℕ) (db : Db) (u : User)
      → IsUniqueEmail repo db
      → find_by_email repo m db ≡ some u
      → find_by_email repo m (save now (failed_login now u) db)
        ≡ some (stored_user now (some u) (failed_login now u))
  find_by_email-failed m now db u v h =
      let (p, row) = find_by_email-some m db u h in
      let bad : User = failed_login now u in
      let same : SameUser bad u = failed_login-SameUser now u in
      find_by_email-row m u.id (save now bad db) (stored_user now (some u) bad)
        (Effect-IsUniqueEmail repo now u.id db (save now bad db) (saved u bad row same refl) v)
        (ground (arith, find_by_id-save u.id now bad db, same.id, eq_refl u.id, row))
        (stored_user-email now (some u) bad ∙ same.email ∙ p)

module _ (repo : UserRepository) (lib : Credentials) where
  open repo use {Db, save, find_by_id, find_by_id-update}

  -- Login succeeds exactly when the email's user is active, is not locked, and the password fits
  -- the stored hash; the response is that user's.
  pub login_accepts :
      (now : ℕ) (dto : LoginDto) (ip : Option String) (db : Db) (r : LoginResponse)
      → ((login repo lib now dto ip db).0 ≡ ok r) ↔ (
          (u : User) × (find_by_email repo dto.email db ≡ some u)
          × (can_authenticate now u ≡ true)
          × (lib.compare dto.password u.password_hash ≡ true)
          × (r ≡ record { access_token = lib.sign (payload_of u); user = login_user u }))
  unfolding login
  login_accepts now dto ip db r = (λ h. accepted h, λ (u, f, c, p, e). ground arith)
    where
      accepted :
          (login repo lib now dto ip db).0 ≡ ok r
          → (u : User) × (find_by_email repo dto.email db ≡ some u)
            × (can_authenticate now u ≡ true)
            × (lib.compare dto.password u.password_hash ≡ true)
            × (r ≡ record { access_token = lib.sign (payload_of u); user = login_user u })
      accepted h = elim (Option-cases (find_by_email repo dto.email db)) [
        | inl f ↦ ground arith
        | inr (u, f) ↦ (u, f, ground arith, ground arith, ground arith)
      ]

  -- What a wrong password leaves.
  pub login_wrong :
      (now : ℕ) (dto : LoginDto) (ip : Option String) (db : Db) (u : User)
      → find_by_email repo dto.email db ≡ some u
      → lib.compare dto.password u.password_hash ≡ false
      → login repo lib now dto ip db ≡ (
          if can_authenticate now u
          then (throw invalid, save now (failed_login now u) db)
          else (throw locked, db))
  unfolding login
  login_wrong now dto ip db u f w = ground (arith, find_by_email-some repo dto.email db u f)
