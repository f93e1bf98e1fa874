-- ===== src/Storage/OrderedMemory.antt =====
-- The ordered queries of a table in memory, for the examples.
use gas_guard.Prelude.{
  ℕ, zero, suc, ◌≤◌, String, ◌≡◌, true, Bool, Option, none, some, List, [], ◌∷◌, arith, length,
  filter, take, All, ltb, Bool-cases, inl, inr, Option-cases, if◌then◌else◌,
}
use gas_guard.Storage.Ordered.{Ordered}
use gas_guard.Storage.Memory.{memory, rows, row, IsRow, rows-IsRow, filter_sound}

module _ {E : Type 0} (time : E → ℕ) where
  -- The first of the rows with the greatest time.
  abbrev pub later : E → Option E → E
  later e none = e
  later e (some d) = if ltb (time e) (time d) then d else e

  abbrev pub newest : List E → Option E
  newest [] = none
  newest (e ∷ es) = some (later e (newest es))

  abbrev pub insert : E → List E → List E
  insert e [] = e ∷ []
  insert e (d ∷ ds) = if ltb (time e) (time d) then d ∷ insert e ds else e ∷ d ∷ ds

  abbrev pub newest_first : List E → List E
  newest_first [] = []
  newest_first (e ∷ es) = insert e (newest_first es)

  newest-All : (P : E → Type 0) (es : List E) (e : E) → All P es → newest es ≡ some e → P e
  newest-All P [] e h n = cc
  newest-All P (d ∷ es) e (h, t) n = elim (Option-cases (newest es)) [
    | inl alone ↦ let same : d ≡ e = ground arith in rw (← same) h
    | inr (c, other) ↦ elim (Bool-cases (ltb (time d) (time c))) [
      | inl older ↦ let same : c ≡ e = ground arith in rw (← same) (newest-All P es c t other)
      | inr newer ↦ let same : d ≡ e = ground arith in rw (← same) h
    ]
  ]

pub length-take : {A : Type 0} (n : ℕ) (xs : List A) → length (take n xs) ≤ n
length-take zero xs = omega arith
length-take (suc n) [] = omega arith
length-take (suc n) (x ∷ xs) = omega (arith, length-take n xs)

module _ {E : Type 0} (id_of : E → String) (stored : ℕ → Option E → E → E)
    (stored-id : (now : ℕ) (old : Option E) (e : E) → id_of (stored now old e) ≡ id_of e) where
  pub find_latest-some :
      (p : E → Bool) (time : E → ℕ) (db : List E) (e : E)
      → newest time (filter p (rows id_of stored db)) ≡ some e
      → (p e ≡ true) × (row id_of stored (id_of e) db ≡ some e)
  find_latest-some p time db e h =
      newest-All time (λ x. (p x ≡ true) × IsRow id_of stored db x) _ e
        (filter_sound id_of stored p db (rows id_of stored db) (rows-IsRow id_of stored db)) h

  abbrev pub ordered_memory : Ordered (memory id_of stored stored-id)
  ordered_memory = record {
    find_latest = λ p time db. newest time (filter p (rows id_of stored db));
    find_sorted = λ p time db. newest_first time (filter p (rows id_of stored db));
    take_latest = λ n p time db. take n (newest_first time (filter p (rows id_of stored db)));
    find_latest-some = find_latest-some;
    length-take_latest = λ n p time db. length-take n _;
  }
