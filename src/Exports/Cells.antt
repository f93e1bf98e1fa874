-- ===== src/Exports/Cells.antt =====
-- A cell that is written by `escape_csv`, or a number, is read back whole.
use mathlib.Core.List.{foldl-append}
use gas_guard.Prelude.{
  ℕ, zero, suc, ◌+◌, ◌%◌, ◌/◌, ◌≤◌, either_way, Text, decimal, digits_before, List, [], ◌∷◌, ◌++◌,
  ◌==◌, ◌≡◌, refl, ◌∙◌, false, arith, Bool-cases, inl, inr, ◌⊎◌, append_one, append_nil,
}
use gas_guard.Exports.Csv.{quote, doubled, needs_quotes, escape_csv}
use gas_guard.Exports.Reader.{Mode, start, plain, inside, closing, Reader, step, run}

abbrev pub at : Mode → Text → List Text → List (List Text) → Reader
at m cell cells rows = record { mode = m; cell = cell; cells = cells; rows = rows }

abbrev pub IsOutside : Mode → Type 0
IsOutside m = m ≡ start ⊎ (m ≡ plain ⊎ m ≡ closing)

run-plain :
    (v cell : Text) (cells : List Text) (rows : List (List Text))
    → needs_quotes v ≡ false
    → run (at plain cell cells rows) v ≡ at plain (cell ++ v) cells rows
unfolding step
run-plain [] cell cells rows h = rw append_nil
run-plain (c ∷ v) cell cells rows h =
    ground (arith, run-plain v (cell ++ c ∷ []) cells rows, append_one c cell v)

run-doubled :
    (v cell : Text) (cells : List Text) (rows : List (List Text))
    → run (at inside cell cells rows) (doubled v) ≡ at inside (cell ++ v) cells rows
unfolding step
run-doubled [] cell cells rows = rw append_nil
run-doubled (c ∷ v) cell cells rows =
    ground (arith, run-doubled v (cell ++ c ∷ []) cells rows, append_one c cell v)

-- What is written is read as the value, in a state that a separator ends.
abbrev pub Reads : Text → Text → Type 0
Reads w v =
    (cells : List Text) (rows : List (List Text))
    → (m : Mode) × IsOutside m × (run (at start [] cells rows) w ≡ at m v cells rows)

pub Reads-plain : (v : Text) → needs_quotes v ≡ false → Reads v v
unfolding step
Reads-plain [] h cells rows = (start, inl refl, refl)
Reads-plain (c ∷ v) h cells rows =
    (plain, inr (inl refl), ground (arith, run-plain v (c ∷ []) cells rows))

pub Reads-escape_csv : (v : Text) → Reads (escape_csv v) v
unfolding escape_csv step
Reads-escape_csv v cells rows = elim (Bool-cases (needs_quotes v)) [
  | inl dirty ↦ (
    closing,
    inr (inr refl),
    rw dirty (
        foldl-append step (at inside [] cells rows) (doubled v) (quote ∷ [])
        ∙ rw (run-doubled v [] cells rows) refl),
  )
  | inr clean ↦ rw clean (Reads-plain v clean cells rows)
]

digit-clean :
    (n : ℕ) (out : Text) → needs_quotes out ≡ false → needs_quotes ((b'0' + n % 10) ∷ out) ≡ false
digit-clean n out h = let low : n % 10 ≤ 9 = omega arith in ground arith

digits_before-clean :
    (f n : ℕ) (out : Text) → needs_quotes out ≡ false → needs_quotes (digits_before f n out) ≡ false
unfolding digits_before
digits_before-clean zero n out h = h
digits_before-clean (suc f) n out h =
    either_way (n == 0) (λ t. needs_quotes t ≡ false) out
      (digits_before f (n / 10) ((b'0' + n % 10) ∷ out)) h
      (digits_before-clean f (n / 10) ((b'0' + n % 10) ∷ out) (digit-clean n out h))

pub Reads-decimal : (n : ℕ) → Reads (decimal n) (decimal n)
unfolding decimal
Reads-decimal n =
    Reads-plain (decimal n)
      (digits_before-clean n (n / 10) ((b'0' + n % 10) ∷ []) (digit-clean n [] refl))
