-- ===== src/Storage/Ordered.antt =====
-- The queries of TypeORM's `Repository` with an order: a parameter beside `Repository`. `time e` is the
-- column by which the rows are ordered, the greatest first.
use gas_guard.Prelude.{ℕ, ◌≤◌, String, ◌≡◌, Bool, true, Option, some, List, length}
use gas_guard.Storage.Repository.{Repository}

pub record Ordered {E : Type 0} {id_of : E → String} {stored : ℕ → Option E → E → E}
    (repo : Repository E id_of stored) : Type 0 where
  -- `findOne({ where, order: { time: 'DESC' } })`
  pub find_latest : (E → Bool) → (E → ℕ) → Repository.Db repo → Option E
  -- `find({ where, order: { time: 'DESC' } })`
  pub find_sorted : (E → Bool) → (E → ℕ) → Repository.Db repo → List E
  -- `find({ where, order: { time: 'DESC' }, take })`
  pub take_latest : ℕ → (E → Bool) → (E → ℕ) → Repository.Db repo → List E
  pub find_latest-some :
      (p : E → Bool) (time : E → ℕ) (db : Repository.Db repo) (e : E)
      → find_latest p time db ≡ some e
      → (p e ≡ true) × (repo.find_by_id (id_of e) db ≡ some e)
  pub length-take_latest :
      (n : ℕ) (p : E → Bool) (time : E → ℕ) (db : Repository.Db repo)
      → length (take_latest n p time db) ≤ n
