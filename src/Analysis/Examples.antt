-- ===== src/Analysis/Examples.antt =====
-- The registry with two analyzers, one of which is taken away.
use gas_guard.Prelude.{ℕ, ◌≡◌, refl, String, true, List, [], ◌∷◌}
use gas_guard.Exec.{ok, throw}
use gas_guard.Analysis.Analyzer.{Analyzer}
use gas_guard.Analysis.Registry.{get_analyzers_for_language, get_all_analyzers}
use gas_guard.Analysis.Index.{index}
use gas_guard.Analysis.Runs.{
  Call, registers, unregisters, run, empty_registry, get_analyzers_for_language-run,
}

abbrev analyzer : String → List String → Analyzer ℕ ℕ
analyzer name languages = record {
  name = name;
  supported_languages = languages;
  supports_language = λ language. true;
  rules = 1 ∷ 2 ∷ [];
  analyze = λ code path config. throw "no parser";
  analyze_multiple = λ files config. throw "no parser";
}

abbrev calls : List (Call ℕ ℕ)
calls =
    registers (analyzer "sol" ("solidity" ∷ "vyper" ∷ []))
    ∷ registers (analyzer "rs" ("rust" ∷ "vyper" ∷ []))
    ∷ unregisters "sol" (ok tt)
    ∷ []

get_analyzers_for_language-run_example :
    get_analyzers_for_language ℕ ℕ "vyper" (run ℕ ℕ calls (empty_registry ℕ ℕ))
    ≡ index ℕ ℕ "vyper" (get_all_analyzers ℕ ℕ (run ℕ ℕ calls (empty_registry ℕ ℕ)))
get_analyzers_for_language-run_example = get_analyzers_for_language-run ℕ ℕ "vyper" calls

vyper_left :
    get_analyzers_for_language ℕ ℕ "vyper" (run ℕ ℕ calls (empty_registry ℕ ℕ))
    ≡ analyzer "rs" ("rust" ∷ "vyper" ∷ []) ∷ []
unfolding get_analyzers_for_language run
vyper_left = refl
