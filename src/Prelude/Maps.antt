-- ===== src/Prelude/Maps.antt =====
-- A `Map` with text keys, as an association list.
use Prim.Native.Nat.{ℕ}
use Prim.Native.String.{String}
use text.Mathlib.Text.{◌==◌}
use text.Mathlib.TextEquality.{eq_iff}
use mathlib.Core.Path.{◌≡◌, refl}
use mathlib.Core.Logic.{inl, inr}
use mathlib.Core.Option.{Option, none, some}
use mathlib.Core.Bool.{not}
use mathlib.Core.List.{List, [], ◌∷◌, ◌++◌}
use gas_guard.Prelude.Lists.{filter}
use native.Mathlib.Omega.{arith}
use gas_guard.Prelude.Tests.{◌==◌ as same_number, if◌then◌else◌, Bool-cases}

abbrev pub Dict {ℓ} : Type ℓ → Type ℓ
Dict V = List (String × V)

module _ {ℓ} {V : Type ℓ} where
  -- `m.get(k)`
  unfoldable pub get : String → Dict V → Option V
  get k [] = none
  get k ((j, v) ∷ m) = if j == k then some v else get k m

  -- `m.set(k, v)`
  unfoldable pub put : String → V → Dict V → Dict V
  put k v [] = (k, v) ∷ []
  put k v ((j, w) ∷ m) = if j == k then (k, v) ∷ m else (j, w) ∷ put k v m

  -- `m.delete(k)`
  abbrev pub without : String → Dict V → Dict V
  without k m = filter (λ e. not (e.0 == k)) m

  -- `[...m.values()]`
  abbrev pub values : Dict V → List V
  values [] = []
  values ((k, v) ∷ m) = v ∷ values m

  pub get_empty : (k : String) → get k [] ≡ none
  unfolding get
  get_empty k = refl

  pub get-put :
      (k j : String) (v : V) (m : Dict V) → get j (put k v m) ≡ (if k == j then some v else get j m)
  unfolding get put
  get-put k j v [] = refl
  get-put k j v ((i, w) ∷ m) = ground (arith, eq_iff k j, eq_iff i k, eq_iff i j, get-put k j v m)

  pub get-without :
      (k j : String) (m : Dict V) → get j (without k m) ≡ (if k == j then none else get j m)
  unfolding get
  get-without k j [] = ground arith
  get-without k j ((i, w) ∷ m) =
      ground (arith, eq_iff k j, eq_iff i k, eq_iff i j, get-without k j m)

  pub values-put :
      (k : String) (v : V) (m : Dict V) → get k m ≡ none → values (put k v m) ≡ values m ++ v ∷ []
  unfolding get put
  values-put k v [] h = refl
  values-put k v ((j, w) ∷ m) h = ground (arith, h, values-put k v m)

  -- `P` holds of each value.
  abbrev pub Every {κ} : (V → Type κ) → Dict V → Type κ
  Every P [] = Unit
  Every P ((k, v) ∷ m) = P v × Every P m

  pub Every-put {κ} :
      (P : V → Type κ) (k : String) (v : V) (m : Dict V) → P v → Every P m → Every P (put k v m)
  unfolding put
  Every-put P k v [] h e = (h, tt)
  Every-put P k v ((j, w) ∷ m) h (d, e) = ground (arith, h, d, e, Every-put P k v m h e)

  pub Every-get {κ} :
      (P : V → Type κ) (k : String) (v : V) (m : Dict V) → Every P m → get k m ≡ some v → P v
  unfolding get
  Every-get P k v [] e h = ground arith
  Every-get P k v ((j, w) ∷ m) (d, e) h = elim (Bool-cases (j == k)) [
    | inl here ↦ ground arith
    | inr there ↦ Every-get P k v m e (ground arith)
  ]

-- A `Map` whose keys are numbers.
abbrev pub NumberMap {ℓ} : Type ℓ → Type ℓ
NumberMap V = ℕ → Option V

abbrev pub set_number {ℓ} : {V : Type ℓ} → ℕ → V → NumberMap V → NumberMap V
set_number k v m j = if same_number k j then some v else m j
