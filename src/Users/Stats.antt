-- ===== src/Users/Stats.antt =====
-- The statistics of RbacService: apps/api-service/src/rbac/services/rbac.service.ts.
use gas_guard.Prelude.{
  ℕ, ◌+◌, String, ◌≡◌, refl, str_eq, Bool, true, false, not, Option, none, some, List, [], ◌∷◌,
  filter, length, arith, ltb,
}
use gas_guard.Users.Role.{admin, operator, viewer, same_role}
use gas_guard.Users.User.{User, UserRepository, Property, value}

pub record UserStats : Type 0 where
  pub total : ℕ
  pub admins : ℕ
  pub operators : ℕ
  pub viewers : ℕ
  pub active : ℕ
  pub inactive : ℕ
  pub locked : ℕ

-- `lockedUntil > NOW()`, which a null does not meet
abbrev locks_after : ℕ → Property ℕ → Bool
locks_after now (value t) = ltb now t
locks_after now _ = false

abbrev is_of : String → Option String → Bool
is_of m none = false
is_of m (some n) = str_eq n m

-- Each row is in one of the groups.
length-by_role :
    (us : List User)
    → length (filter (λ u. same_role u.role admin) us)
        + length (filter (λ u. same_role u.role operator) us)
        + length (filter (λ u. same_role u.role viewer) us)
      ≡ length us
length-by_role [] = omega arith
length-by_role (u ∷ us) = ground (arith, length-by_role us)

length-by_active :
    (us : List User)
    → length (filter (λ u. u.is_active) us) + length (filter (λ u. not u.is_active) us) ≡ length us
length-by_active [] = omega arith
length-by_active (u ∷ us) = ground (arith, length-by_active us)

length-all : (us : List User) → length (filter (λ u. true) us) ≡ length us
length-all [] = refl
length-all (u ∷ us) = ground (arith, length-all us)

module _ (repo : UserRepository) where
  open repo use {Db, find, count, count_rows}

  unfoldable pub find_by_merchant : String → Db → List User
  find_by_merchant merchant_id db = find (λ u. is_of merchant_id u.merchant_id) db

  unfoldable pub get_user_stats : ℕ → Db → UserStats
  get_user_stats now db = record {
    total = count (λ u. true) db;
    admins = count (λ u. same_role u.role admin) db;
    operators = count (λ u. same_role u.role operator) db;
    viewers = count (λ u. same_role u.role viewer) db;
    active = count (λ u. u.is_active) db;
    inactive = count (λ u. not u.is_active) db;
    locked = count (λ u. locks_after now u.locked_until) db;
  }

  -- The statistics add up: the users of the three roles are all the users, and so are the active and
  -- the inactive ones.
  pub get_user_stats-total :
      (now : ℕ) (db : Db)
      → let s = get_user_stats now db in
        (s.admins + s.operators + s.viewers ≡ s.total) × (s.active + s.inactive ≡ s.total)
  unfolding get_user_stats
  get_user_stats-total now db =
      let rows = find (λ u. true) db in
      (
        omega (
          arith,
          count_rows (λ u. true) db,
          count_rows (λ u. same_role u.role admin) db,
          count_rows (λ u. same_role u.role operator) db,
          count_rows (λ u. same_role u.role viewer) db,
          length-by_role rows,
          length-all rows,
        ),
        omega (
          arith,
          count_rows (λ u. true) db,
          count_rows (λ u. u.is_active) db,
          count_rows (λ u. not u.is_active) db,
          length-by_active rows,
          length-all rows,
        ),
      )
