-- ===== src/Analysis/Removal.antt =====
-- How often an analyzer stands in a list, and what its removal leaves.
use gas_guard.Prelude.{
  ℕ, zero, suc, ◌≡◌, refl, sym, ap, ◌∙◌, String, str_eq, eq_iff, Bool, true, false, not, none, some,
  List, [], ◌∷◌, ◌++◌, Dict, get, put, get-put, without, get-without, filter, if◌then◌else◌, arith,
  Bool-cases, Option-cases, inl, inr, append_nil, append_one,
}
use gas_guard.Analysis.Analyzer.{Analyzer}
use gas_guard.Analysis.Registry.{
  at_language, push_all, remove_first, remove_one, store_or_delete, remove_all,
}

abbrev pub times : String → List String → ℕ
times l [] = 0
times l (k ∷ ks) = let rest = times l ks in if str_eq k l then suc rest else rest

module _ (Rule Config : Type 0) where
  abbrev pub copies : ℕ → Analyzer Rule Config → List (Analyzer Rule Config)
  copies zero a = []
  copies (suc n) a = a ∷ copies n a

  abbrev pub remove_times : ℕ → String → List (Analyzer Rule Config) → List (Analyzer Rule Config)
  remove_times zero name xs = xs
  remove_times (suc n) name xs = remove_times n name (remove_first Rule Config name xs)

  abbrev other : String → Analyzer Rule Config → Bool
  other name a = not (str_eq a.name name)

  abbrev pub others : String → List (Analyzer Rule Config) → List (Analyzer Rule Config)
  others name xs = filter (other name) xs

  abbrev pub count : String → List (Analyzer Rule Config) → ℕ
  count name [] = 0
  count name (a ∷ xs) = let rest = count name xs in if str_eq a.name name then suc rest else rest

  at_language-put :
      (k l : String) (xs : List (Analyzer Rule Config)) (m : Dict (List (Analyzer Rule Config)))
      → at_language Rule Config l (put k xs m)
        ≡ (if str_eq k l then xs else at_language Rule Config l m)
  at_language-put k l xs m = elim (Bool-cases (str_eq k l)) [
    | inl own ↦ rw (get-put k l xs m, own) refl
    | inr off ↦ rw (get-put k l xs m, off) refl
  ]

  at_language-without :
      (k l : String) (m : Dict (List (Analyzer Rule Config)))
      → at_language Rule Config l (without k m)
        ≡ (if str_eq k l then [] else at_language Rule Config l m)
  at_language-without k l m = elim (Bool-cases (str_eq k l)) [
    | inl own ↦ rw (get-without k l m, own) refl
    | inr off ↦ rw (get-without k l m, off) refl
  ]

  -- After `push_all` the list of a language has the analyzer once more for each time it is listed.
  pub at_language-push_all :
      (a : Analyzer Rule Config) (l : String) (ls : List String)
      (m : Dict (List (Analyzer Rule Config)))
      → at_language Rule Config l (push_all Rule Config a ls m)
        ≡ at_language Rule Config l m ++ copies (times l ls) a
  unfolding push_all
  at_language-push_all a l [] m = sym (append_nil (at_language Rule Config l m))
  at_language-push_all a l (k ∷ ks) m =
      let xs = at_language Rule Config k m ++ a ∷ [] in
      let rest = at_language-push_all a l ks (put k xs m) in
      elim (Bool-cases (str_eq k l)) [
        | inl own ↦
            let same : k ≡ l = ground (arith, own, eq_iff k l) in
            rw own (
              rest
              ∙ ap (λ ys. ys ++ copies (times l ks) a)
                  (at_language-put k l xs m
                    ∙ rw own (ap (λ j. at_language Rule Config j m ++ a ∷ []) same))
              ∙ append_one a (at_language Rule Config l m) (copies (times l ks) a))
        | inr off ↦
            rw off (
              rest
              ∙ ap (λ ys. ys ++ copies (times l ks) a) (at_language-put k l xs m ∙ rw off refl))
      ]

  at_language-store_or_delete :
      (k l : String) (xs : List (Analyzer Rule Config)) (m : Dict (List (Analyzer Rule Config)))
      → at_language Rule Config l (store_or_delete Rule Config k xs m)
        ≡ (if str_eq k l then xs else at_language Rule Config l m)
  at_language-store_or_delete k l [] m = at_language-without k l m
  at_language-store_or_delete k l (x ∷ xs) m = at_language-put k l (x ∷ xs) m

  missing-language :
      (name k l : String) (m : Dict (List (Analyzer Rule Config)))
      → get k m ≡ none
      → at_language Rule Config l m ≡ (
          if str_eq k l
          then remove_first Rule Config name (at_language Rule Config l m)
          else at_language Rule Config l m)
  missing-language name k l m h = elim (Bool-cases (str_eq k l)) [
    | inl own ↦
        let same : k ≡ l = ground (arith, own, eq_iff k l) in
        let nothing : get l m ≡ none = rw (← same) h in rw (own, nothing) refl
    | inr off ↦ rw off refl
  ]

  -- One turn of the removal.
  at_language-remove_one :
      (name k l : String) (m : Dict (List (Analyzer Rule Config)))
      → at_language Rule Config l (remove_one Rule Config name k (get k m) m) ≡ (
          if str_eq k l
          then remove_first Rule Config name (at_language Rule Config l m)
          else at_language Rule Config l m)
  at_language-remove_one name k l m = elim (Option-cases (get k m)) [
    | inl e ↦ rw e (missing-language name k l m e)
    | inr (xs, e) ↦ elim (Bool-cases (str_eq k l)) [
      | inl own ↦
          let same : k ≡ l = ground (arith, own, eq_iff k l) in
          let here : get l m ≡ some xs = rw (← same) e in
          rw (e, here, own)
            (at_language-store_or_delete k l (remove_first Rule Config name xs) m ∙ rw own refl)
      | inr off ↦
          rw (e, off)
            (at_language-store_or_delete k l (remove_first Rule Config name xs) m ∙ rw off refl)
    ]
  ]

  -- After `remove_all` the list of a language has lost the analyzer once for each time it was listed.
  pub at_language-remove_all :
      (name l : String) (ls : List String) (m : Dict (List (Analyzer Rule Config)))
      → at_language Rule Config l (remove_all Rule Config name ls m)
        ≡ remove_times (times l ls) name (at_language Rule Config l m)
  unfolding remove_all
  at_language-remove_all name l [] m = refl
  at_language-remove_all name l (k ∷ ks) m =
      let rest = at_language-remove_all name l ks (remove_one Rule Config name k (get k m) m) in
      elim (Bool-cases (str_eq k l)) [
        | inl own ↦ rw own (
            rest
            ∙ ap (remove_times (times l ks) name) (at_language-remove_one name k l m ∙ rw own refl))
        | inr off ↦ rw off (
            rest
            ∙ ap (remove_times (times l ks) name) (at_language-remove_one name k l m ∙ rw off refl))
      ]

  remove_first-here :
      (name : String) (a : Analyzer Rule Config) (xs : List (Analyzer Rule Config))
      → str_eq a.name name ≡ true
      → remove_first Rule Config name (a ∷ xs) ≡ xs
  remove_first-here name a xs here = rw here refl

  remove_times-there :
      (n : ℕ) (name : String) (a : Analyzer Rule Config) (xs : List (Analyzer Rule Config))
      → str_eq a.name name ≡ false
      → remove_times n name (a ∷ xs) ≡ a ∷ remove_times n name xs
  remove_times-there zero name a xs there = refl
  remove_times-there (suc n) name a xs there =
      ap (remove_times n name) (remove_first-there name a xs there)
      ∙ remove_times-there n name a (remove_first Rule Config name xs) there
    where
      remove_first-there :
          (name : String) (a : Analyzer Rule Config) (xs : List (Analyzer Rule Config))
          → str_eq a.name name ≡ false
          → remove_first Rule Config name (a ∷ xs) ≡ a ∷ remove_first Rule Config name xs
      remove_first-there name a xs there = rw there refl

  pub remove_times-others :
      (name : String) (xs : List (Analyzer Rule Config))
      → remove_times (count name xs) name xs ≡ others name xs
  remove_times-others name [] = refl
  remove_times-others name (a ∷ xs) = elim (Bool-cases (str_eq a.name name)) [
    | inl here ↦ rw here (
        ap (remove_times (count name xs) name) (remove_first-here name a xs here)
        ∙ remove_times-others name xs)
    | inr there ↦ rw there (
        remove_times-there (count name xs) name a xs there
        ∙ ap (λ ys. a ∷ ys) (remove_times-others name xs))
  ]
