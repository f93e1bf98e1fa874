-- ===== src/Analysis/Registry.antt =====
-- AnalyzerRegistry: libs/engine/core/analyzer-registry.ts. An analyzer is told from another by its name,
-- which no two that are registered share.
use gas_guard.Prelude.{
  ℕ, String, str_append, str_eq, Bool, true, false, Option, none, some, List, [], ◌∷◌, ◌++◌, Dict,
  get, put, without, values, map, or_else, if◌then◌else◌,
}
use gas_guard.Exec.{Exec, Outcome, ok, throw, return, query, fail, throw_if, write, ◌>>=◌, ◌>>◌}
use gas_guard.Analysis.Analyzer.{AnalysisResult, Analyzer}
use gas_guard.Analysis.Results.{merge_results}

abbrev pub has : {A : Type 0} → Option A → Bool
has none = false
has (some a) = true

module _ (Rule Config : Type 0) where
  pub record Registry : Type 0 where
    pub analyzers : Dict (Analyzer Rule Config)
    pub language_map : Dict (List (Analyzer Rule Config))

  abbrev pub Action : Type 0 → Type 0
  Action A = Exec String Registry A

  abbrev pub at_language : String → Dict (List (Analyzer Rule Config)) → List (Analyzer Rule Config)
  at_language language m = or_else (get language m) []

  unfoldable pub push_all :
      Analyzer Rule Config
      → List String
      → Dict (List (Analyzer Rule Config))
      → Dict (List (Analyzer Rule Config))
  unfolding get put
  push_all a [] m = m
  push_all a (l ∷ ls) m = push_all a ls (put l (at_language l m ++ a ∷ []) m)

  unfoldable pub register : Analyzer Rule Config → Action Unit
  unfolding get put push_all
  register a = do
    found ← query (λ s. get a.name s.analyzers)
    throw_if (has found)
        (str_append "Analyzer with name \"" (str_append a.name "\" is already registered"))
    write
        (λ s. record {
          analyzers = put a.name a s.analyzers;
          language_map = push_all a a.supported_languages s.language_map;
        })
        tt

  -- `splice` at `indexOf`
  abbrev pub remove_first : String → List (Analyzer Rule Config) → List (Analyzer Rule Config)
  remove_first name [] = []
  remove_first name (a ∷ xs) = if str_eq a.name name then xs else a ∷ remove_first name xs

  abbrev pub store_or_delete :
      String
      → List (Analyzer Rule Config)
      → Dict (List (Analyzer Rule Config))
      → Dict (List (Analyzer Rule Config))
  store_or_delete l [] m = without l m
  store_or_delete l (a ∷ xs) m = put l (a ∷ xs) m

  abbrev pub remove_one :
      String
      → String
      → Option (List (Analyzer Rule Config))
      → Dict (List (Analyzer Rule Config))
      → Dict (List (Analyzer Rule Config))
  remove_one name l none m = m
  remove_one name l (some xs) m = store_or_delete l (remove_first name xs) m

  unfoldable pub remove_all :
      String → List String → Dict (List (Analyzer Rule Config)) → Dict (List (Analyzer Rule Config))
  unfolding get put
  remove_all name [] m = m
  remove_all name (l ∷ ls) m = remove_all name ls (remove_one name l (get l m) m)

  abbrev unregistered : String → Outcome String Unit → Option (Analyzer Rule Config) → Action Unit
  unregistered name disposed none = return tt
  unregistered name (throw e) (some a) = fail e
  unregistered name (ok _) (some a) =
      write
        (λ s. record {
          analyzers = without name s.analyzers;
          language_map = remove_all name a.supported_languages s.language_map;
        })
        tt

  -- `disposed` is how the analyzer's own `dispose` ends.
  unfoldable pub unregister : String → Outcome String Unit → Action Unit
  unfolding get remove_all
  unregister name disposed = do
    found ← query (λ s. get name s.analyzers)
    unregistered name disposed found

  unfoldable pub get_analyzers_for_language : String → Registry → List (Analyzer Rule Config)
  unfolding get
  get_analyzers_for_language language s = at_language language s.language_map

  unfoldable pub get_all_analyzers : Registry → List (Analyzer Rule Config)
  get_all_analyzers s = values s.analyzers

  unfoldable pub is_language_supported : String → Registry → Bool
  unfolding get
  is_language_supported language s = has (get language s.language_map)

  -- `disposed` is how the dispositions end together.
  unfoldable pub dispose_all : Outcome String Unit → Action Unit
  dispose_all (ok _) = write (λ s. record { analyzers = []; language_map = [] }) tt
  dispose_all (throw e) = fail e

  abbrev all_rules : List (Analyzer Rule Config) → List Rule
  all_rules [] = []
  all_rules (a ∷ xs) = a.rules ++ all_rules xs

  abbrev analyzers_of : Option String → Registry → List (Analyzer Rule Config)
  analyzers_of none s = values s.analyzers
  analyzers_of (some language) s =
      if str_eq language "" then values s.analyzers else at_language language s.language_map

  unfoldable pub get_all_rules : Option String → Registry → List Rule
  unfolding get
  get_all_rules language s = all_rules (analyzers_of language s)

  -- `Promise.all`: the results, or the first failure in the order of the analyzers.
  abbrev pub all_of : List (Outcome String AnalysisResult) → Outcome String (List AnalysisResult)
  all_of [] = ok []
  all_of (throw e ∷ os) = throw e
  all_of (ok r ∷ os) = elim (all_of os) [ throw e ↦ throw e | ok rs ↦ ok (r ∷ rs) ]

  abbrev merged : Outcome String (List AnalysisResult) → Outcome String AnalysisResult
  merged (throw e) = throw e
  merged (ok rs) = ok (merge_results rs)

  abbrev about : String → String → String → String
  about before x after = str_append before (str_append x after)

  -- The analyzer that is named, if it is one for the language.
  abbrev named :
      String → String → Option (Analyzer Rule Config) → Outcome String (List (Analyzer Rule Config))
  named name language none = throw (about "Analyzer \"" name "\" not found")
  named name language (some a) =
      if a.supports_language language
      then ok (a ∷ [])
      else throw (about "Analyzer \"" name (about "\" does not support language \"" language "\""))

  abbrev some_for :
      String → List (Analyzer Rule Config) → Outcome String (List (Analyzer Rule Config))
  some_for language [] = throw (about "No analyzer found for language \"" language "\"")
  some_for language (a ∷ xs) = ok (a ∷ xs)

  unfoldable pub analyzers_for :
      String → Option String → Registry → Outcome String (List (Analyzer Rule Config))
  unfolding get
  analyzers_for language none s = some_for language (at_language language s.language_map)
  analyzers_for language (some name) s =
      if str_eq name ""
      then some_for language (at_language language s.language_map)
      else named name language (get name s.analyzers)

  unfoldable pub analyze :
      String
      → String
      → String
      → Option Config
      → Option String
      → Registry
      → Outcome String AnalysisResult
  unfolding analyzers_for merge_results
  analyze code path language config name s = elim (analyzers_for language name s) [
    | throw e ↦ throw e
    | ok xs ↦ merged (all_of (map (λ a. a.analyze code path config) xs))
  ]

  -- The files of each language, in the order in which the languages first come up.
  unfoldable pub group_files : Dict String → Dict String → Dict (Dict String) → Dict (Dict String)
  unfolding get put
  group_files languages [] groups = groups
  group_files languages ((path, code) ∷ files) groups = elim (get path languages) [
    | none ↦ group_files languages files groups
    | some l ↦
        if str_eq l ""
        then group_files languages files groups
        else group_files languages files (put l (put path code (or_else (get l groups) [])) groups)
  ]

  abbrev results_of :
      Option Config → Dict (Dict String) → Registry → List (Outcome String AnalysisResult)
  results_of config [] s = []
  results_of config ((l, files) ∷ groups) s =
      map (λ a. a.analyze_multiple files config) (at_language l s.language_map)
      ++ results_of config groups s

  abbrev timed : ℕ → Outcome String AnalysisResult → Outcome String AnalysisResult
  timed elapsed (throw e) = throw e
  timed elapsed (ok r) = ok (record r { analysis_time = elapsed })

  unfoldable pub analyze_multiple :
      ℕ → Dict String → Dict String → Option Config → Registry → Outcome String AnalysisResult
  unfolding get group_files merge_results
  analyze_multiple elapsed files languages config s =
      timed elapsed (merged (all_of (results_of config (group_files languages files []) s)))
