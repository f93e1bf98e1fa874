-- ===== src/Users/Emails.antt =====
-- What RbacService keeps of the table: the rows that a call is not about, and that no two users
-- share an email.
use mathlib.Core.Option
use gas_guard.Prelude.{
  ℕ, String, str_eq, eq_iff, ◌≡◌, ◌≢◌, refl, sym, ◌∙◌, inl, inr, Option, none, some, List, [], ◌∷◌,
  arith, Option-cases, if◌then◌else◌,
}
use gas_guard.Users.User.{User, UserRepository, stored_user}
use gas_guard.Users.Service.{find_by_email}
use gas_guard.Users.Calls.{Call, step, run}
use gas_guard.Users.Effect.{Effect, kept, created, saved, patched, removed, step-Effect, SameUser}

abbrev pub stored_email : Option User → Option String
stored_email = Option.map (λ u. u.email)

pub stored_user-email :
    (now : ℕ) (old : Option User) (u : User) → (stored_user now old u).email ≡ u.email
stored_user-email now none u = refl
stored_user-email now (some old) u = refl

module _ (repo : UserRepository) where
  open repo use {
    Db, save, update, remove, find_by_id-save, find_by_id-key, find_by_id-update, find_by_id-remove,
    find_one-none,
  }

  -- A call is about one row: every other row stays as it was.
  Effect-other :
      (now : ℕ) (id j : String) (db db' : Db)
      → Effect repo now id db db'
      → id ≢ j
      → repo.find_by_id j db' ≡ repo.find_by_id j db
  Effect-other now id j db db' (kept e) h = rw e
  Effect-other now id j db db' (created u k _ e) h =
      rw e (ground (arith, find_by_id-save j now u db, eq_iff u.id j, h))
  Effect-other now id j db db' (saved old u k same e) h = rw e (
      ground
        (arith, find_by_id-save j now u db, find_by_id-key id db old k, same.id, eq_iff u.id j, h))
  Effect-other now id j db db' (patched f same e) h =
      rw e (ground (arith, find_by_id-update j now id f db (λ u. (same u).id), eq_iff id j, h))
  Effect-other now id j db db' (removed old k e) h =
      rw e
        (ground (arith, find_by_id-remove j old db, find_by_id-key id db old k, eq_iff old.id j, h))

  -- Every call, whatever it returns or throws, leaves the rows of the other users as they were.
  pub find_by_id-step_other :
      (now : ℕ) (id j : String) (c : Call) (db : Db)
      → id ≢ j
      → repo.find_by_id j (step repo now id c db) ≡ repo.find_by_id j db
  find_by_id-step_other now id j c db h =
      Effect-other now id j db (step repo now id c db) (step-Effect repo now id c db) h

  abbrev pub email_at : String → Db → Option String
  email_at i db = stored_email (repo.find_by_id i db)

  -- No two rows have one email.
  pub record IsUniqueEmail (db : Db) : Type 0 where
    pub key : (i j m : String) → email_at i db ≡ some m → email_at j db ≡ some m → i ≡ j

  -- Emails that were there before stay unique.
  IsUniqueEmail-subset :
      (db db' : Db)
      → ((i m : String) → email_at i db' ≡ some m → email_at i db ≡ some m)
      → IsUniqueEmail db
      → IsUniqueEmail db'
  IsUniqueEmail-subset db db' sub v = record {
    key = λ i j m p q. v.key i j m (sub i m p) (sub j m q);
  }

  save-email :
      (now : ℕ) (u : User) (i m : String) (db : Db)
      → email_at i (save now u db) ≡ (if str_eq u.id i then some u.email else email_at i db)
  save-email now u i m db =
      ground (arith, find_by_id-save i now u db, stored_user-email now (repo.find_by_id i db) u)

  update-email :
      (now : ℕ) (id i : String) (f : User → User) (db : Db)
      → ((u : User) → SameUser (f u) u)
      → email_at i (update now id f db) ≡ email_at i db
  update-email now id i f db same = elim (Option-cases (repo.find_by_id i db)) [
    | inl e ↦ ground (arith, find_by_id-update i now id f db (λ u. (same u).id))
    | inr (u, e) ↦ ground (
      arith,
      find_by_id-update i now id f db (λ w. (same w).id),
      stored_user-email now (some u) (f u),
      (same u).email,
    )
  ]

  pub fresh-email :
      (m i : String) (db : Db) → find_by_email repo m db ≡ none → email_at i db ≢ some m
  unfolding find_by_email
  fresh-email m i db fresh h = elim (Option-cases (repo.find_by_id i db)) [
    | inl e ↦ ground arith
    | inr (u, e) ↦
        ground (arith, find_one-none (λ w. str_eq w.email m) db i u fresh e, eq_iff u.email m)
  ]

  pub Effect-IsUniqueEmail :
      (now : ℕ) (id : String) (db db' : Db)
      → Effect repo now id db db'
      → IsUniqueEmail db
      → IsUniqueEmail db'
  Effect-IsUniqueEmail now id db db' (kept e) v = rw e v
  Effect-IsUniqueEmail now id db db' (created u k fresh e) v = rw e (record {
    key = λ i j m p q. ground (
      arith,
      save-email now u i m db,
      save-email now u j m db,
      eq_iff u.id i,
      eq_iff u.id j,
      fresh-email u.email i db fresh,
      fresh-email u.email j db fresh,
      v.key i j m,
    );
  })
  Effect-IsUniqueEmail now id db db' (saved old u k same e) v = rw e (
      IsUniqueEmail-subset db (save now u db)
        (λ i m p. ground (
          arith,
          save-email now u i m db,
          find_by_id-key id db old k,
          same.id,
          same.email,
          eq_iff u.id i,
        ))
        v)
  Effect-IsUniqueEmail now id db db' (patched f same e) v = rw e (
      IsUniqueEmail-subset db (update now id f db)
        (λ i m p. sym (update-email now id i f db same) ∙ p) v)
  Effect-IsUniqueEmail now id db db' (removed old k e) v = rw e (
      IsUniqueEmail-subset db (remove old db)
        (λ i m p. ground (arith, find_by_id-remove i old db, find_by_id-key id db old k)) v)

  -- Every call keeps the emails unique, also one that creates a user and one that throws.
  pub step-IsUniqueEmail :
      (now : ℕ) (id : String) (c : Call) (db : Db)
      → IsUniqueEmail db
      → IsUniqueEmail (step repo now id c db)
  step-IsUniqueEmail now id c db =
      Effect-IsUniqueEmail now id db (step repo now id c db) (step-Effect repo now id c db)

  -- After any calls, in any order, from a table whose emails are unique, they are unique.
  pub run-IsUniqueEmail :
      (cs : List (ℕ × String × Call)) (db : Db) → IsUniqueEmail db → IsUniqueEmail (run repo cs db)
  unfolding run
  run-IsUniqueEmail [] db v = v
  run-IsUniqueEmail ((now, id, c) ∷ cs) db v =
      run-IsUniqueEmail cs (step repo now id c db) (step-IsUniqueEmail now id c db v)
