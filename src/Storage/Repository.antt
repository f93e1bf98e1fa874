-- ===== src/Storage/Repository.antt =====
-- TypeORM's `Repository<E>`, a package: a parameter of the services, with its documented behaviour.
-- `Db` is the contents of the table. Every row has a text primary key, read by `id_of`.
-- `stored now old e` is the row that `save(e)` leaves at time `now` where the key's row was `old`:
-- TypeORM skips the properties that are undefined, and the table keeps its time stamps.
use mathlib.Core.Option
use gas_guard.Prelude.{
  filter, ℕ, String, str_eq, ◌≡◌, Bool, true, false, Option, none, some, List, length, any, All,
  if◌then◌else◌,
}

pub record Repository (E : Type 0) (id_of : E → String) (stored : ℕ → Option E → E → E)
    : Type 1 where
  pub Db : Type 0
  -- `findOne({ where: { id } })`
  pub find_by_id : String → Db → Option E
  -- `findOne({ where })`
  pub find_one : (E → Bool) → Db → Option E
  -- `find({ where })`, and a query builder's `getMany()`
  pub find : (E → Bool) → Db → List E
  pub count : (E → Bool) → Db → ℕ
  pub save : ℕ → E → Db → Db
  -- `update(id, partial)`; nothing happens where no row has the key.
  pub update : ℕ → String → (E → E) → Db → Db
  pub remove : E → Db → Db
  pub find_by_id-key : (i : String) (db : Db) (e : E) → find_by_id i db ≡ some e → id_of e ≡ i
  pub find_by_id-save :
      (i : String) (now : ℕ) (e : E) (db : Db)
      → find_by_id i (save now e db)
        ≡ (if str_eq (id_of e) i then some (stored now (find_by_id i db) e) else find_by_id i db)
  pub find_by_id-update :
      (i : String) (now : ℕ) (k : String) (f : E → E) (db : Db)
      → ((e : E) → id_of (f e) ≡ id_of e)
      → find_by_id i (update now k f db) ≡ (
          if str_eq k i
          then Option.map (λ e. stored now (some e) (f e)) (find_by_id i db)
          else find_by_id i db)
  pub find_by_id-remove :
      (i : String) (e : E) (db : Db)
      → find_by_id i (remove e db) ≡ (if str_eq (id_of e) i then none else find_by_id i db)
  -- A row that a query finds meets the query, and is the row of its key.
  pub find_one-some :
      (p : E → Bool) (db : Db) (e : E)
      → find_one p db ≡ some e
      → (p e ≡ true) × (find_by_id (id_of e) db ≡ some e)
  pub find_one-none :
      (p : E → Bool) (db : Db) (i : String) (e : E)
      → find_one p db ≡ none
      → find_by_id i db ≡ some e
      → p e ≡ false
  pub find-sound :
      (p : E → Bool) (db : Db)
      → All (λ e. (p e ≡ true) × (find_by_id (id_of e) db ≡ some e)) (find p db)
  -- A query finds every row that meets it.
  pub find-complete :
      (p : E → Bool) (db : Db) (i : String) (e : E)
      → find_by_id i db ≡ some e
      → p e ≡ true
      → any (λ x. str_eq (id_of x) i) (find p db) ≡ true
  pub count_lem : (p : E → Bool) (db : Db) → count p db ≡ length (find p db)
  -- A count is over all the rows.
  pub count_rows : (p : E → Bool) (db : Db) → count p db ≡ length (filter p (find (λ e. true) db))
