-- ===== src/Storage/Memory.antt =====
-- A table in memory that has the laws of `Repository`, for the examples. A row that stands behind
-- another row of its key is not seen.
use mathlib.Core.Option
use gas_guard.Prelude.{
  sym, ap, filter-filter, ℕ, String, str_eq, eq_iff, eq_refl, ◌≡◌, refl, ◌∙◌, Bool, true, false,
  Option, none, some, List, [], ◌∷◌, arith, length, filter, any, find?, All, if◌then◌else◌,
}
use gas_guard.Storage.Repository.{Repository}

module _ {E : Type 0} (id_of : E → String) (stored : ℕ → Option E → E → E) where
  abbrev pub row : String → List E → Option E
  row i [] = none
  row i (x ∷ xs) = if str_eq (id_of x) i then some x else row i xs

  abbrev pub without : String → List E → List E
  without i [] = []
  without i (x ∷ xs) = let rest = without i xs in if str_eq (id_of x) i then rest else x ∷ rest

  abbrev pub rows : List E → List E
  rows [] = []
  rows (x ∷ xs) = x ∷ without (id_of x) (rows xs)

  abbrev pub upsert : ℕ → E → List E → List E
  upsert now e [] = stored now none e ∷ []
  upsert now e (x ∷ xs) =
      if str_eq (id_of x) (id_of e) then stored now (some x) e ∷ xs else x ∷ upsert now e xs

  abbrev pub amend : ℕ → String → (E → E) → List E → List E
  amend now k f [] = []
  amend now k f (x ∷ xs) =
      if str_eq (id_of x) k then stored now (some x) (f x) ∷ xs else x ∷ amend now k f xs

  pub row-key : (i : String) (xs : List E) (e : E) → row i xs ≡ some e → id_of e ≡ i
  row-key i [] e h = cc
  row-key i (x ∷ xs) e h = ground (arith, eq_iff (id_of x) i, row-key i xs e)

  pub row-without :
      (i j : String) (xs : List E) → row i (without j xs) ≡ (if str_eq j i then none else row i xs)
  row-without i j [] = ground arith
  row-without i j (x ∷ xs) =
      ground (arith, eq_iff (id_of x) i, eq_iff (id_of x) j, eq_iff j i, row-without i j xs)

  pub row-rows : (i : String) (xs : List E) → row i (rows xs) ≡ row i xs
  row-rows i [] = refl
  row-rows i (x ∷ xs) = ground (arith, row-without i (id_of x) (rows xs), row-rows i xs)

  module _
      (stored-id : (now : ℕ) (old : Option E) (e : E) → id_of (stored now old e) ≡ id_of e) where
    pub row-upsert :
        (i : String) (now : ℕ) (e : E) (xs : List E)
        → row i (upsert now e xs)
          ≡ (if str_eq (id_of e) i then some (stored now (row i xs) e) else row i xs)
    row-upsert i now e [] = rw (stored-id now none e)
    row-upsert i now e (x ∷ xs) = ground (
      arith,
      stored-id now (some x) e,
      eq_iff (id_of x) i,
      eq_iff (id_of x) (id_of e),
      eq_iff (id_of e) i,
      row-upsert i now e xs,
    )

    pub row-amend :
        (i : String) (now : ℕ) (k : String) (f : E → E) (xs : List E)
        → ((e : E) → id_of (f e) ≡ id_of e)
        → row i (amend now k f xs) ≡ (
            if str_eq k i then Option.map (λ e. stored now (some e) (f e)) (row i xs) else row i xs)
    row-amend i now k f [] h = ground arith
    row-amend i now k f (x ∷ xs) h = ground (
      arith,
      stored-id now (some x) (f x),
      h x,
      eq_iff (id_of x) i,
      eq_iff (id_of x) k,
      eq_iff k i,
      row-amend i now k f xs h,
    )

  -- `e` is the row of its key.
  abbrev pub IsRow : List E → E → Type 0
  IsRow xs e = row (id_of e) xs ≡ some e

  without-IsRow :
      (x : E) (xs ys : List E) → All (IsRow xs) ys → All (IsRow (x ∷ xs)) (without (id_of x) ys)
  without-IsRow x xs [] h = tt
  without-IsRow x xs (y ∷ ys) h =
      ground
        (arith, eq_iff (id_of x) (id_of y), eq_iff (id_of y) (id_of x), without-IsRow x xs ys h.1)

  pub rows-IsRow : (xs : List E) → All (IsRow xs) (rows xs)
  rows-IsRow [] = tt
  rows-IsRow (x ∷ xs) = (rw (eq_refl (id_of x)), without-IsRow x xs (rows xs) (rows-IsRow xs))

  module _ (p : E → Bool) (xs : List E) where
    pub filter_sound :
        (ys : List E) → All (IsRow xs) ys → All (λ e. (p e ≡ true) × IsRow xs e) (filter p ys)
    filter_sound [] h = tt
    filter_sound (y ∷ ys) h = ground (arith, filter_sound ys h.1)

    pub find?-sound :
        (ys : List E) (e : E) → All (IsRow xs) ys → find? p ys ≡ some e → (p e ≡ true) × IsRow xs e
    find?-sound [] e h f = cc
    find?-sound (y ∷ ys) e h f = ground (arith, find?-sound ys e h.1)

    pub filter_complete :
        (ys : List E) (i : String) (e : E)
        → row i ys ≡ some e
        → p e ≡ true
        → any (λ x. str_eq (id_of x) i) (filter p ys) ≡ true
    filter_complete [] i e h t = cc
    filter_complete (y ∷ ys) i e h t = ground (arith, filter_complete ys i e)

    pub find?-none :
        (ys : List E) (i : String) (e : E) → find? p ys ≡ none → row i ys ≡ some e → p e ≡ false
    find?-none [] i e f h = cc
    find?-none (y ∷ ys) i e f h = ground (arith, find?-none ys i e)

  module _
      (stored-id : (now : ℕ) (old : Option E) (e : E) → id_of (stored now old e) ≡ id_of e) where
    abbrev pub memory : Repository E id_of stored
    memory = record {
      Db = List E;
      find_by_id = row;
      find_one = λ p xs. find? p (rows xs);
      find = λ p xs. filter p (rows xs);
      count = λ p xs. length (filter p (rows xs));
      save = upsert;
      update = amend;
      remove = λ e xs. without (id_of e) xs;
      find_by_id-key = row-key;
      find_by_id-save = λ i now e xs. row-upsert stored-id i now e xs;
      find_by_id-update = λ i now k f xs h. row-amend stored-id i now k f xs h;
      find_by_id-remove = λ i e xs. row-without i (id_of e) xs;
      find_one-some = λ p xs e h. find?-sound p xs (rows xs) e (rows-IsRow xs) h;
      find_one-none = λ p xs i e f h. find?-none p xs (rows xs) i e f (row-rows i xs ∙ h);
      find-sound = λ p xs. filter_sound p xs (rows xs) (rows-IsRow xs);
      find-complete = λ p xs i e h t. filter_complete p xs (rows xs) i e (row-rows i xs ∙ h) t;
      count_lem = λ p xs. refl;
      count_rows = λ p xs. sym (ap length (filter-filter p (λ e. true) (rows xs) (λ e h. refl)));
    }
