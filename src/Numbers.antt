-- ===== src/Numbers.antt =====
-- JavaScript's numbers where a price, a percentage or an average is not whole: a parameter, of which
-- nothing is assumed, so that the theorems hold whatever a double's rounding gives.
use gas_guard.Prelude.{ℕ, ◌+◌, ◌-◌, ◌*◌, ◌/◌, Bool, ltb, leb, ◌==◌}

pub record Arithmetic : Type 1 where
  pub Number : Type 0
  -- The literal `n / d` in decimal: `literal 1 100` is 0.01.
  pub literal : ℕ → ℕ → Number
  pub add : Number → Number → Number
  pub sub : Number → Number → Number
  pub mul : Number → Number → Number
  pub div : Number → Number → Number
  -- `Math.abs`
  pub abs : Number → Number
  -- `Math.sqrt`
  pub sqrt : Number → Number
  pub lt : Number → Number → Bool
  pub le : Number → Number → Bool
  -- `===`
  pub same : Number → Number → Bool

-- Multiples of 0.0000001 from 0 on, for the examples.
abbrev pub fixed : Arithmetic
fixed = record {
  Number = ℕ;
  literal = λ n d. n * 10000000 / d;
  add = λ a b. a + b;
  sub = λ a b. a - b;
  mul = λ a b. a * b / 10000000;
  div = λ a b. a * 10000000 / b;
  abs = λ a. a;
  sqrt = λ a. a;
  lt = ltb;
  le = leb;
  same = ◌==◌;
}
