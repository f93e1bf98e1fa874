-- ===== src/Prelude/Entries.antt =====
-- What holds of every entry of a table, whatever its key.
use Prim.Native.String.{String}
use text.Mathlib.Text.{◌==◌ as str_eq}
use text.Mathlib.TextEquality.{eq_iff}
use mathlib.Core.Path.{◌≡◌}
use mathlib.Core.Logic.{inl, inr}
use mathlib.Core.Option.{some}
use mathlib.Core.List.{[], ◌∷◌}
use native.Mathlib.Omega.{arith}
use gas_guard.Prelude.Tests.{Bool-cases}
use gas_guard.Prelude.Maps.{Dict, get, put, without}

-- `P` holds of each key with its value.
abbrev pub EachEntry : {A : Type 0} → (String → A → Type 0) → Dict A → Type 0
EachEntry P [] = Unit
EachEntry P ((k, v) ∷ m) = P k v × EachEntry P m

pub EachEntry-put :
    {A : Type 0} (P : String → A → Type 0) (k : String) (v : A) (m : Dict A)
    → P k v
    → EachEntry P m
    → EachEntry P (put k v m)
unfolding put
EachEntry-put P k v [] h e = (h, tt)
EachEntry-put P k v ((j, w) ∷ m) h (d, e) = ground (arith, h, d, e, EachEntry-put P k v m h e)

pub EachEntry-without :
    {A : Type 0} (P : String → A → Type 0) (k : String) (m : Dict A)
    → EachEntry P m
    → EachEntry P (without k m)
EachEntry-without P k [] e = tt
EachEntry-without P k ((j, w) ∷ m) (d, e) = ground (arith, d, e, EachEntry-without P k m e)

pub EachEntry-get :
    {A : Type 0} (P : String → A → Type 0) (k : String) (v : A) (m : Dict A)
    → EachEntry P m
    → get k m ≡ some v
    → P k v
unfolding get
EachEntry-get P k v [] e h = ground arith
EachEntry-get P k v ((j, w) ∷ m) (d, e) h = elim (Bool-cases (str_eq j k)) [
  | inl here ↦
      let same : j ≡ k = ground (arith, here, eq_iff j k) in
      let value : w ≡ v = ground (arith, h, here) in rw (← same, ← value) d
  | inr there ↦ EachEntry-get P k v m e (ground arith)
]

pub EachEntry-map :
    {A : Type 0} (P Q : String → A → Type 0) (m : Dict A)
    → ((k : String) (v : A) → P k v → Q k v)
    → EachEntry P m
    → EachEntry Q m
EachEntry-map P Q [] f e = tt
EachEntry-map P Q ((k, v) ∷ m) f (d, e) = (f k v d, EachEntry-map P Q m f e)
