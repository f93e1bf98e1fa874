-- ===== src/Exec.antt =====
-- An `async` method of a service: it reads and writes a state, and returns or throws. What was
-- saved before a throw stays saved.
use gas_guard.Prelude.{Option, none, some, Bool, true, false}

pub data Outcome {ℓ} (X A : Type ℓ) : Type ℓ where
  ok : A → Outcome X A
  throw : X → Outcome X A

abbrev pub Exec {ℓ} : Type ℓ → Type ℓ → Type ℓ → Type ℓ
Exec X S A = S → Outcome X A × S

module _ {ℓ} {X S A : Type ℓ} where
  abbrev pub return : A → Exec X S A
  return a s = (ok a, s)

  abbrev pub fail : X → Exec X S A
  fail x s = (throw x, s)

  -- A query: the state stays.
  abbrev pub query : (S → A) → Exec X S A
  query f s = (ok (f s), s)

  -- `if (!a) throw x`
  abbrev pub found_or : X → Option A → Exec X S A
  found_or x none = fail x
  found_or x (some a) = return a

  -- A write, with the value that the method returns.
  abbrev pub write : (S → S) → A → Exec X S A
  write f a s = (ok a, f s)

module _ {ℓ} {X S A B : Type ℓ} where
  abbrev pub continue : Outcome X A → (A → Exec X S B) → Exec X S B
  continue (ok a) f s = f a s
  continue (throw x) f s = (throw x, s)

  infixl 10 ◌>>=◌ ◌>>◌
  abbrev pub ◌>>=◌ : Exec X S A → (A → Exec X S B) → Exec X S B
  ◌>>=◌ m f s = continue (m s).0 f (m s).1

  abbrev pub ◌>>◌ : Exec X S A → Exec X S B → Exec X S B
  m >> n = m >>= λ _. n

-- `if (b) throw x`
abbrev pub throw_if : {X S : Type 0} → Bool → X → Exec X S Unit
throw_if true x = fail x
throw_if false x = return tt
