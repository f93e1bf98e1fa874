-- ===== src/Analysis/Index.antt =====
-- The lists by language against the analyzers that are registered.
use mathlib.Core.List.{append_assoc}
use gas_guard.Prelude.{
  ℕ, zero, suc, ◌+◌, ◌≡◌, refl, sym, ap, ◌∙◌, String, str_eq, eq_iff, true, false, not, none, some,
  List, [], ◌∷◌, ◌++◌, Dict, get, put, get-put, append_nil, without, get-without, values,
  filter-append, if◌then◌else◌, arith, Bool-cases, inl, inr, EachEntry,
}
use gas_guard.Analysis.Analyzer.{Analyzer}
use gas_guard.Analysis.Removal.{times, copies, others, count}

-- No key stands twice.
abbrev pub UniqueKeys : {A : Type 0} → Dict A → Type 0
UniqueKeys [] = Unit
UniqueKeys ((k, v) ∷ m) = (get k m ≡ none) × UniqueKeys m

pub UniqueKeys-put :
    {A : Type 0} (k : String) (v : A) (m : Dict A)
    → get k m ≡ none
    → UniqueKeys m
    → UniqueKeys (put k v m)
unfolding get put
UniqueKeys-put k v [] h u = (refl, tt)
UniqueKeys-put k v ((j, w) ∷ m) h (n, u) = elim (Bool-cases (str_eq j k)) [
  | inl here ↦ ground (arith, here, h)
  | inr there ↦
      let fresh : get k m ≡ none = ground (arith, there, h) in
      let still : get j (put k v m) ≡ none =
        ground (arith, there, n, get-put k j v m, eq_iff k j, eq_iff j k) in
      rw there (still, UniqueKeys-put k v m fresh u)
]

pub UniqueKeys-without :
    {A : Type 0} (k : String) (m : Dict A) → UniqueKeys m → UniqueKeys (without k m)
UniqueKeys-without k [] u = tt
UniqueKeys-without k ((j, w) ∷ m) (n, u) =
    ground (arith, n, get-without k j m, UniqueKeys-without k m u)

module _ (Rule Config : Type 0) where
  -- The analyzers for a language, as often as each lists it.
  abbrev pub index : String → List (Analyzer Rule Config) → List (Analyzer Rule Config)
  index l [] = []
  index l (a ∷ xs) = copies Rule Config (times l a.supported_languages) a ++ index l xs

  pub index-append :
      (l : String) (xs : List (Analyzer Rule Config)) (a : Analyzer Rule Config)
      → index l (xs ++ a ∷ []) ≡ index l xs ++ copies Rule Config (times l a.supported_languages) a
  index-append l [] a = append_nil (copies Rule Config (times l a.supported_languages) a)
  index-append l (x ∷ xs) a =
      let here = copies Rule Config (times l x.supported_languages) x in
      ap (λ ys. here ++ ys) (index-append l xs a)
      ∙ sym (append_assoc here (index l xs) (copies Rule Config (times l a.supported_languages) a))

  others-copies :
      (name : String) (n : ℕ) (a : Analyzer Rule Config)
      → others Rule Config name (copies Rule Config n a)
        ≡ (if str_eq a.name name then [] else copies Rule Config n a)
  others-copies name zero a = ground arith
  others-copies name (suc n) a = ground (arith, others-copies name n a)

  pub index-others :
      (l name : String) (xs : List (Analyzer Rule Config))
      → index l (others Rule Config name xs) ≡ others Rule Config name (index l xs)
  index-others l name [] = refl
  index-others l name (x ∷ xs) =
      let n = times l x.supported_languages in
      let split =
        filter-append (λ a. not (str_eq a.name name)) (copies Rule Config n x) (index l xs) in
      elim (Bool-cases (str_eq x.name name)) [
        | inl gone ↦ rw (gone, split, others-copies name n x) (rw gone (index-others l name xs))
        | inr kept ↦
            rw (kept, split, others-copies name n x)
              (rw kept (ap (λ ys. copies Rule Config n x ++ ys) (index-others l name xs)))
      ]

  count-append :
      (name : String) (xs ys : List (Analyzer Rule Config))
      → count Rule Config name (xs ++ ys) ≡ count Rule Config name xs + count Rule Config name ys
  count-append name [] ys = omega arith
  count-append name (x ∷ xs) ys = ground (arith, count-append name xs ys)

  count-copies :
      (name : String) (n : ℕ) (a : Analyzer Rule Config)
      → count Rule Config name (copies Rule Config n a) ≡ (if str_eq a.name name then n else 0)
  count-copies name zero a = ground arith
  count-copies name (suc n) a = ground (arith, count-copies name n a)

  abbrev pub IsNamed : String → Analyzer Rule Config → Type 0
  IsNamed k a = a.name ≡ k

  abbrev Analyzers : Type 0
  Analyzers = Dict (Analyzer Rule Config)

  count-index :
      (l name : String) (a : Analyzer Rule Config) (xs : List (Analyzer Rule Config))
      → count Rule Config name (index l (a ∷ xs))
        ≡ (if str_eq a.name name then times l a.supported_languages else 0)
          + count Rule Config name (index l xs)
  count-index l name a xs =
      let n = times l a.supported_languages in
      rw (count-append name (copies Rule Config n a) (index l xs), count-copies name n a) refl

  absent-count :
      (l name : String) (m : Analyzers)
      → EachEntry IsNamed m
      → get name m ≡ none
      → count Rule Config name (index l (values m)) ≡ 0
  unfolding get
  absent-count l name [] e h = refl
  absent-count l name ((k, a) ∷ m) (d, e) h =
      let off : str_eq k name ≡ false = ground (arith, h) in
      let rest : get name m ≡ none = ground (arith, off, h) in
      let differs : str_eq a.name name ≡ false = rw d off in
      let none_left = absent-count l name m e rest in
      rw (count-index l name a (values m), differs) (omega (arith, none_left))

  pub present-count :
      (l name : String) (a : Analyzer Rule Config) (m : Analyzers)
      → EachEntry IsNamed m
      → UniqueKeys m
      → get name m ≡ some a
      → count Rule Config name (index l (values m)) ≡ times l a.supported_languages
  unfolding get
  present-count l name a [] e u h = ground (arith, h)
  present-count l name a ((k, b) ∷ m) (d, e) (n, u) h = elim (Bool-cases (str_eq k name)) [
    | inl here ↦
        let same : k ≡ name = ground (arith, here, eq_iff k name) in
        let found : b ≡ a = ground (arith, here, h) in
        let gone : get name m ≡ none = rw (← same) n in
        let none_left = absent-count l name m e gone in
        let its_own : str_eq b.name name ≡ true = rw d here in
        rw (count-index l name b (values m), its_own, ← found) (omega (arith, none_left))
    | inr there ↦
        let rest : get name m ≡ some a = ground (arith, there, h) in
        let differs : str_eq b.name name ≡ false = rw d there in
        rw (count-index l name b (values m), differs)
          (omega (arith, present-count l name a m e u rest))
  ]

  pub values-without :
      (name : String) (m : Analyzers)
      → EachEntry IsNamed m
      → values (without name m) ≡ others Rule Config name (values m)
  values-without name [] e = refl
  values-without name ((k, a) ∷ m) (d, e) = elim (Bool-cases (str_eq k name)) [
    | inl here ↦
        let own : str_eq a.name name ≡ true = rw d here in rw (here, own) (values-without name m e)
    | inr there ↦
        let differs : str_eq a.name name ≡ false = rw d there in
        rw (there, differs) (ap (λ ys. a ∷ ys) (values-without name m e))
  ]
