-- ===== src/Exports/Slices.antt =====
-- Loops of ExportsService over a list or a range in steps: what `i` and the slice at `i` are at each
-- turn. The first argument bounds the turns; as many as there are elements are enough.
use gas_guard.Prelude.{
  ℕ, zero, suc, ◌+◌, ◌-◌, ◌≡◌, ◌≤◌, ◌<◌, List, [], All, ◌∷◌, ◌++◌, arith, length, ltb, slice, take,
  drop, take-drop, drop-drop, drop_all, Bool-cases, inl, inr, sym, if◌then◌else◌,
}

module _ {ℓ} {A : Type ℓ} where
  -- `for (let i = …; i < xs.length; i += size) … xs.slice(i, i + size) …`
  unfoldable pub slices_from : ℕ → ℕ → ℕ → List A → List (List A)
  slices_from zero size i xs = []
  slices_from (suc turns) size i xs =
      let rest = slices_from turns size (i + size) xs in
      if ltb i (length xs) then slice i (i + size) xs ∷ rest else []

  unfoldable pub slices : ℕ → List A → List (List A)
  slices size xs = slices_from (length xs) size 0 xs

  abbrev pub concat : List (List A) → List A
  concat [] = []
  concat (xs ∷ xss) = xs ++ concat xss

  concat-slices_from :
      (turns size i : ℕ) (xs : List A)
      → 0 < size
      → length xs ≤ i + turns
      → concat (slices_from turns size i xs) ≡ drop i xs
  unfolding slices_from
  concat-slices_from zero size i xs p h = sym (drop_all i xs (omega arith))
  concat-slices_from (suc turns) size i xs p h = elim (Bool-cases (ltb i (length xs))) [
    | inl more ↦
        let width : i + size - i ≡ size = omega arith in
        rw (more, width, concat-slices_from turns size (i + size) xs p (omega arith))
          (rw (← drop-drop size i xs) (take-drop size (drop i xs)))
    | inr over ↦ rw over (sym (drop_all i xs (ground arith)))
  ]

  -- The slices are the list, in order and with nothing left out.
  pub concat-slices : (size : ℕ) (xs : List A) → 0 < size → concat (slices size xs) ≡ xs
  unfolding slices
  concat-slices size xs p = concat-slices_from (length xs) size 0 xs p (omega arith)

  take-drop_filled :
      (n i : ℕ) (xs : List A) → 0 < n → i < length xs → 0 < length (take n (drop i xs))
  take-drop_filled zero i xs p h = absurd (omega arith)
  take-drop_filled (suc n) zero [] p h = absurd (omega arith)
  take-drop_filled (suc n) zero (x ∷ xs) p h = omega arith
  take-drop_filled (suc n) (suc i) [] p h = absurd (omega arith)
  take-drop_filled (suc n) (suc i) (x ∷ xs) p h = take-drop_filled (suc n) i xs p (omega arith)

  slices_from_filled :
      (turns size i : ℕ) (xs : List A)
      → 0 < size
      → All (λ ys. 0 < length ys) (slices_from turns size i xs)
  unfolding slices_from
  slices_from_filled zero size i xs p = tt
  slices_from_filled (suc turns) size i xs p = elim (Bool-cases (ltb i (length xs))) [
    | inl more ↦ rw more (
      take-drop_filled _ i xs (omega arith) (ground arith),
      slices_from_filled turns size (i + size) xs p,
    )
    | inr over ↦ rw over tt
  ]

  pub slices_filled :
      (size : ℕ) (xs : List A) → 0 < size → All (λ ys. 0 < length ys) (slices size xs)
  unfolding slices
  slices_filled size xs p = slices_from_filled (length xs) size 0 xs p
