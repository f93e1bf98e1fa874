-- ===== src/Transactions/Burst.antt =====
-- A burst of transactions is always noticed.
use gas_guard.Prelude.{ℕ, String, List, [], ◌∷◌}
use gas_guard.Numbers.{Arithmetic}
use gas_guard.Transactions.Suspicious.{TxWindow, Windows, analyze}

module _ (ar : Arithmetic) (merchant : String) (chain : ℕ) where
  abbrev pub analyze_all : List (TxWindow ar) → Windows ar → Windows ar
  analyze_all [] s = s
  analyze_all (x ∷ xs) s = analyze_all xs (analyze ar merchant chain x s).1
