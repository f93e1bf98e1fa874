-- ===== src/Storage/Queries.antt =====
-- Consequences of the laws of `Repository` for a query's result.
use gas_guard.Prelude.{
  ℕ, String, str_eq, eq_iff, ◌≡◌, Bool, true, Option, some, List, [], ◌∷◌, any, All, Bool-cases,
  inl, inr,
}
use gas_guard.Storage.Repository.{Repository}

module _ {E : Type 0} {id_of : E → String} {stored : ℕ → Option E → E → E}
    (repo : Repository E id_of stored) where
  open repo use {Db, find_by_id, find, find-sound}

  sound-row :
      (p : E → Bool) (db : Db) (i : String) (xs : List E)
      → All (λ e. (p e ≡ true) × (find_by_id (id_of e) db ≡ some e)) xs
      → any (λ x. str_eq (id_of x) i) xs ≡ true
      → (e : E) × (find_by_id i db ≡ some e) × (p e ≡ true)
  sound-row p db i [] h a = cc
  sound-row p db i (x ∷ xs) h a = elim (Bool-cases (str_eq (id_of x) i)) [
    | inl here ↦ (x, rw (← (eq_iff (id_of x) i).0 here) h.0.1, h.0.0)
    | inr there ↦ sound-row p db i xs h.1 (rw there at a)
  ]

  -- A key in the result of a query is that of a row that meets the query.
  pub find-row :
      (p : E → Bool) (db : Db) (i : String)
      → any (λ x. str_eq (id_of x) i) (find p db) ≡ true
      → (e : E) × (find_by_id i db ≡ some e) × (p e ≡ true)
  find-row p db i a = sound-row p db i (find p db) (find-sound p db) a
