-- ===== src/Spikes/History.antt =====
-- What the history of a chain holds.
use gas_guard.Prelude.{
  append_one, append_nil, ℕ, zero, suc, ◌-◌, ◌≤◌, ◌≡◌, refl, sym, ap, ◌∙◌, inl, inr, true, false,
  List, [], ◌∷◌, ◌++◌, filter, length, length-append, ltb, ◌==◌, ltb→lt, ◌<◌, arith, Bool-cases,
}
use gas_guard.Numbers.{Arithmetic}
use gas_guard.Spikes.Config.{GasSnapshot, max_history_points}
use gas_guard.Spikes.Classifier.{Classifier, add_snapshot, get_history, push_bounded, drop, last_of}

length-drop : {A : Type 0} (n : ℕ) (xs : List A) → length (drop n xs) ≡ length xs - n
length-drop zero xs = omega arith
length-drop (suc n) [] = omega arith
length-drop (suc n) (x ∷ xs) = omega (arith, length-drop n xs)

drop-append :
    {A : Type 0} (n : ℕ) (xs ys : List A) → n ≤ length xs → drop n (xs ++ ys) ≡ drop n xs ++ ys
drop-append zero xs ys h = refl
drop-append (suc n) [] ys h = ground (arith, h)
drop-append (suc n) (x ∷ xs) ys h = drop-append n xs ys (omega (arith, h))

drop-drop : {A : Type 0} (n : ℕ) (xs : List A) → drop 1 (drop n xs) ≡ drop (suc n) xs
drop-drop zero xs = refl
drop-drop (suc n) [] = refl
drop-drop (suc n) (x ∷ xs) = drop-drop n xs

push_within :
    {A : Type 0} (x : A) (xs : List A)
    → length xs < max_history_points
    → push_bounded x (last_of max_history_points xs) ≡ last_of max_history_points (xs ++ x ∷ [])
unfolding push_bounded
push_within x xs h =
    let all : length xs - 100 ≡ 0 = omega (arith, h) in
    let more : length (xs ++ x ∷ []) - 100 ≡ 0 = omega (arith, h, length-append xs (x ∷ [])) in
    let fits : ltb 100 (length (xs ++ x ∷ [])) ≡ false =
      ground (arith, h, length-append xs (x ∷ [])) in
    rw (all, more) (rw fits refl)

push_full :
    {A : Type 0} (x : A) (xs : List A)
    → max_history_points ≤ length xs
    → push_bounded x (last_of max_history_points xs) ≡ last_of max_history_points (xs ++ x ∷ [])
unfolding push_bounded
push_full x xs h =
    let n = length xs - 100 in
    let both = drop-append n xs (x ∷ []) (omega (arith, h)) in
    let over : ltb 100 (length (drop n xs ++ x ∷ [])) ≡ true =
      ground (arith, h, length-append (drop n xs) (x ∷ []), length-drop n xs) in
    let next : length (xs ++ x ∷ []) - 100 ≡ suc n = omega (arith, h, length-append xs (x ∷ [])) in
    rw (over, next) (ap (drop 1) (sym both) ∙ drop-drop n (xs ++ x ∷ []))

-- A full buffer gives up its oldest entry.
push_bounded-last_of :
    {A : Type 0} (x : A) (xs : List A)
    → push_bounded x (last_of max_history_points xs) ≡ last_of max_history_points (xs ++ x ∷ [])
unfolding push_bounded
push_bounded-last_of x xs = elim (Bool-cases (ltb (length xs) max_history_points)) [
  | inl room ↦ push_within x xs (ltb→lt (length xs) max_history_points room)
  | inr full ↦ push_full x xs (ground (arith, full))
]

module _ (ar : Arithmetic) where
  open ar use {Number}

  abbrev pub add_all : List (GasSnapshot Number) → Classifier ar → Classifier ar
  add_all [] s = s
  add_all (x ∷ xs) s = add_all xs (add_snapshot ar x s)

  abbrev pub of_chain : ℕ → List (GasSnapshot Number) → List (GasSnapshot Number)
  of_chain chain xs = filter (λ x. x.chain_id == chain) xs

  history-own :
      (x : GasSnapshot Number) (chain : ℕ) (s : Classifier ar)
      → (x.chain_id == chain) ≡ true
      → get_history ar chain (add_snapshot ar x s) ≡ push_bounded x (get_history ar chain s)
  unfolding get_history add_snapshot
  history-own x chain s own =
      let same : x.chain_id ≡ chain = ground (arith, own) in
      rw own (ap (λ c. push_bounded x (get_history ar c s)) same)

  history-other :
      (x : GasSnapshot Number) (chain : ℕ) (s : Classifier ar)
      → (x.chain_id == chain) ≡ false
      → get_history ar chain (add_snapshot ar x s) ≡ get_history ar chain s
  unfolding get_history add_snapshot
  history-other x chain s other = rw other refl

  history-of_chain :
      (chain : ℕ) (xs ys : List (GasSnapshot Number)) (s : Classifier ar)
      → get_history ar chain s ≡ last_of max_history_points ys
      → get_history ar chain (add_all xs s) ≡ last_of max_history_points (ys ++ of_chain chain xs)
  history-of_chain chain [] ys s h = rw (append_nil ys) h
  history-of_chain chain (x ∷ xs) ys s h = elim (Bool-cases (x.chain_id == chain)) [
    | inl own ↦
        rw (own, ← append_one x ys (of_chain chain xs))
          (history-of_chain chain xs (ys ++ x ∷ []) (add_snapshot ar x s)
            (history-own x chain s own ∙ ap (push_bounded x) h ∙ push_bounded-last_of x ys))
    | inr other ↦
        rw other
          (history-of_chain chain xs ys (add_snapshot ar x s) (history-other x chain s other ∙ h))
  ]

  -- Where the history of a chain is empty, after any snapshots of any chains it holds the last hundred
  -- of that chain, in order.
  pub get_history-add_all :
      (chain : ℕ) (xs : List (GasSnapshot Number)) (s : Classifier ar)
      → get_history ar chain s ≡ []
      → get_history ar chain (add_all xs s) ≡ last_of max_history_points (of_chain chain xs)
  get_history-add_all chain xs s h = history-of_chain chain xs [] s h
