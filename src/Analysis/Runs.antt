-- ===== src/Analysis/Runs.antt =====
-- Runs of the registry: the lists by language stay those of the registered analyzers.

use gas_guard.Prelude.{
  get_empty, or_else, ◌≡◌, refl, sym, ap, ◌∙◌, String, List, [], ◌∷◌, ◌++◌, get, values, values-put,
  Option-cases, inl, inr, EachEntry, EachEntry-put, EachEntry-without,
}
use gas_guard.Exec.{Outcome, ok, throw}
use gas_guard.Analysis.Analyzer.{Analyzer}
use gas_guard.Analysis.Registry.{
  Registry, at_language, register, unregister, dispose_all, get_analyzers_for_language,
  get_all_analyzers,
}
use gas_guard.Analysis.Removal.{
  times, copies, remove_times, at_language-push_all, at_language-remove_all, remove_times-others,
}
use gas_guard.Analysis.Index.{
  UniqueKeys, UniqueKeys-put, UniqueKeys-without, IsNamed, index, index-append, index-others,
  present-count, values-without,
}

module _ (Rule Config : Type 0) where
  pub data Call : Type 0 where
    registers : Analyzer Rule Config → Call
    -- the name, and how the analyzer's own `dispose` ends
    unregisters : String → Outcome String Unit → Call
    disposes : Outcome String Unit → Call

  -- The lists by language are those that the registered analyzers give.
  abbrev IsIndexed : Registry Rule Config → Type 0
  IsIndexed s =
      EachEntry (IsNamed Rule Config) s.analyzers
      × UniqueKeys s.analyzers
      × ((l : String)
          → at_language Rule Config l s.language_map ≡ index Rule Config l (values s.analyzers))

  register-IsIndexed :
      (a : Analyzer Rule Config) (s : Registry Rule Config)
      → IsIndexed s
      → IsIndexed (register Rule Config a s).1
  unfolding register
  register-IsIndexed a s (e, u, h) = elim (Option-cases (get a.name s.analyzers)) [
    | inr (b, taken) ↦ rw taken (e, u, h)
    | inl fresh ↦ rw fresh (
      EachEntry-put (IsNamed Rule Config) a.name a s.analyzers refl e,
      UniqueKeys-put a.name a s.analyzers fresh u,
      λ l.
          at_language-push_all Rule Config a l a.supported_languages s.language_map
          ∙ ap (λ xs. xs ++ copies Rule Config (times l a.supported_languages) a) (h l)
          ∙ sym (index-append Rule Config l (values s.analyzers) a)
          ∙ ap (index Rule Config l) (sym (values-put a.name a s.analyzers fresh)),
    )
  ]

  unregister-IsIndexed :
      (name : String) (disposed : Outcome String Unit) (s : Registry Rule Config)
      → IsIndexed s
      → IsIndexed (unregister Rule Config name disposed s).1
  unfolding unregister
  unregister-IsIndexed name (throw x) s h = elim (Option-cases (get name s.analyzers)) [
    | inl missing ↦ rw missing h
    | inr (a, found) ↦ rw found h
  ]
  unregister-IsIndexed name (ok done) s (e, u, h) = elim (Option-cases (get name s.analyzers)) [
    | inl missing ↦ rw missing (e, u, h)
    | inr (a, found) ↦ rw found (
      EachEntry-without (IsNamed Rule Config) name s.analyzers e,
      UniqueKeys-without name s.analyzers u,
      λ l.
          at_language-remove_all Rule Config name l a.supported_languages s.language_map
          ∙ ap (remove_times Rule Config (times l a.supported_languages) name) (h l)
          ∙ ap (λ n. remove_times Rule Config n name (index Rule Config l (values s.analyzers)))
              (sym (present-count Rule Config l name a s.analyzers e u found))
          ∙ remove_times-others Rule Config name (index Rule Config l (values s.analyzers))
          ∙ sym (index-others Rule Config l name (values s.analyzers))
          ∙ ap (index Rule Config l) (sym (values-without Rule Config name s.analyzers e)),
    )
  ]

  step : Call → Registry Rule Config → Registry Rule Config
  unfolding register unregister dispose_all
  step (registers a) s = (register Rule Config a s).1
  step (unregisters name disposed) s = (unregister Rule Config name disposed s).1
  step (disposes disposed) s = (dispose_all Rule Config disposed s).1

  step-IsIndexed : (c : Call) (s : Registry Rule Config) → IsIndexed s → IsIndexed (step c s)
  unfolding step dispose_all
  step-IsIndexed (registers a) s h = register-IsIndexed a s h
  step-IsIndexed (unregisters name disposed) s h = unregister-IsIndexed name disposed s h
  step-IsIndexed (disposes (ok done)) s h = (tt, tt, λ l. ap (λ o. or_else o []) (get_empty l))
  step-IsIndexed (disposes (throw e)) s h = h

  unfoldable pub run : List Call → Registry Rule Config → Registry Rule Config
  unfolding step
  run [] s = s
  run (c ∷ cs) s = run cs (step c s)

  run-IsIndexed : (cs : List Call) (s : Registry Rule Config) → IsIndexed s → IsIndexed (run cs s)
  unfolding run
  run-IsIndexed [] s h = h
  run-IsIndexed (c ∷ cs) s h = run-IsIndexed cs (step c s) (step-IsIndexed c s h)

  abbrev pub empty_registry : Registry Rule Config
  empty_registry = record { analyzers = []; language_map = [] }

  -- Whatever has been registered, unregistered and disposed of, and however the dispositions ended: the
  -- analyzers for a language are those of all registered analyzers that list it, as often as they list
  -- it, in the order of their registration.
  pub get_analyzers_for_language-run :
      (language : String) (cs : List Call)
      → let s = run cs empty_registry in
        get_analyzers_for_language Rule Config language s
        ≡ index Rule Config language (get_all_analyzers Rule Config s)
  unfolding get_analyzers_for_language get_all_analyzers
  get_analyzers_for_language-run language cs =
      (run-IsIndexed cs empty_registry (tt, tt, λ l. ap (λ o. or_else o []) (get_empty l))).2
        language
