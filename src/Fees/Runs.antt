-- ===== src/Fees/Runs.antt =====
-- A run of requests to FeeConfigurationService, in the order of their arrival.
use gas_guard.Prelude.{ℕ, String, List, [], ◌∷◌, All}
use gas_guard.Numbers.{Arithmetic}
use gas_guard.Fees.Store.{Store}
use gas_guard.Fees.Steps.{Request, step}

-- A request, when it comes, and the ids that `generateId` gives while it is served.
pub record Turn (N : Type 0) : Type 0 where
  pub now : ℕ
  pub ids : ℕ → String
  pub request : Request N

module _ (ar : Arithmetic) where
  open ar use {Number}

  unfoldable pub run : List (Turn Number) → Store ar → Store ar
  unfolding step
  run [] s = s
  run (t ∷ ts) s = run ts (step ar t.now t.ids t.request s)

  -- What each turn keeps, where `Q` holds of the turn, a run keeps.
  pub run-keeps {ℓ κ} :
      (P : Store ar → Type ℓ) (Q : Turn Number → Type κ)
      → ((t : Turn Number) (s : Store ar) → Q t → P s → P (step ar t.now t.ids t.request s))
      → (ts : List (Turn Number)) (s : Store ar) → All Q ts
      → P s
      → P (run ts s)
  unfolding run
  run-keeps P Q turn [] s a h = h
  run-keeps P Q turn (t ∷ ts) s (q, a) h =
      run-keeps P Q turn ts (step ar t.now t.ids t.request s) a (turn t s q h)

  pub every_turn : (ts : List (Turn Number)) → All {0, 0} (λ t. Unit) ts
  every_turn [] = tt
  every_turn (t ∷ ts) = (tt, every_turn ts)
