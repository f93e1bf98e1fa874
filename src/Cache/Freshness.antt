-- ===== src/Cache/Freshness.antt =====
-- How old an answer of the cache can be.
use gas_guard.Prelude.{
  EachEntry, EachEntry-put, EachEntry-without, EachEntry-get, EachEntry-map, either_way, ℕ, zero,
  suc, ◌+◌, ◌*◌, ◌≤◌, ◌<◌, String, str_eq, or_else, ◌≡◌, refl, sym, ◌∙◌, ◌⊎◌, inl, inr, Bool, true,
  false, not, Option, none, some, List, [], ◌∷◌, get, put, leb, arith, Bool-cases, Option-cases,
}
use gas_guard.Numbers.{Arithmetic}
use gas_guard.Exec.{Outcome, ok, throw}
use gas_guard.Cache.Config.{CacheConfig, get_ttl, or_default}
use gas_guard.Cache.Memory.{
  Item, Memory, keys_of, del_first, fetch, set, setex, del, delete_pattern, flushdb, ring, is_over,
}
use gas_guard.Cache.Service.{
  Json, Cache, set_text, stored, counted, missed, hit, answered, set_value, get_or_fetch, get_value,
  invalidate, invalidate_pattern, clear_all,
}
use gas_guard.Cache.Calls.{
  Call, asks, sets, reads, invalidates, invalidates_matching, clears, rings, AnyOf, Wrote, step,
  run, empty_cache,
}

live_until : (now e : ℕ) (o : Option ℕ) → o ≡ some e → 0 < e → is_over now o ≡ false → now ≤ e
live_until now e o h more live = ground (arith, h, more, live)

set-store :
    {V : Type 0} (now : ℕ) (key : String) (v : V) (ttl : ℕ) (m : Memory V)
    → 0 < ttl
    → (set now key v ttl m).store
      ≡ put key (record { value = v; expires = some (now + ttl * 1000) }) m.store
unfolding set setex
set-store now key v zero m h = ground arith
set-store now key v (suc n) m h = refl

module _ (ar : Arithmetic) (V : Type 0) (cfg : CacheConfig) (json : Json V) where
  -- The entry comes from a call, and expires when that call's TTL has passed.
  abbrev IsFresh : List (Call V) → String → Item String → Type 0
  IsFresh cs key item =
      (e : ℕ) × ((item.expires ≡ some e)
        × (0 < e)
        × AnyOf (Wrote ar V cfg json key item.value e) cs)

  abbrev AllFresh : List (Call V) → Memory String → Type 0
  AllFresh cs m = EachEntry (IsFresh cs) m.store

  older :
      (c : Call V) (cs : List (Call V)) (m : Memory String) → AllFresh cs m → AllFresh (c ∷ cs) m
  older c cs m h =
      EachEntry-map (IsFresh cs) (IsFresh (c ∷ cs)) m.store
        (λ k item f. (f.0, (f.1.0, f.1.1, inr f.1.2))) h

  fetch-AllFresh :
      (cs : List (Call V)) (now : ℕ) (key : String) (m : Memory String)
      → AllFresh cs m
      → AllFresh cs (fetch now key m).1
  unfolding fetch
  fetch-AllFresh cs now key m h = elim (Option-cases (get key m.store)) [
    | inl e ↦ rw e h
    | inr (item, e) ↦ elim (Bool-cases (is_over now item.expires)) [
      | inl over ↦ rw (e, over) (EachEntry-without (IsFresh cs) key m.store h)
      | inr live ↦ rw (e, live) h
    ]
  ]

  del-AllFresh :
      (cs : List (Call V)) (key : String) (m : Memory String)
      → AllFresh cs m
      → AllFresh cs (del key m).1
  unfolding del
  del-AllFresh cs key m h = EachEntry-without (IsFresh cs) key m.store h

  del_first-AllFresh :
      (cs : List (Call V)) (keys : List String) (m : Memory String)
      → AllFresh cs m
      → AllFresh cs (del_first keys m).1
  del_first-AllFresh cs [] m h = h
  del_first-AllFresh cs (k ∷ ks) m h = del-AllFresh cs k m h

  delete_pattern-AllFresh :
      (cs : List (Call V)) (test : String → Bool) (m : Memory String)
      → AllFresh cs m
      → AllFresh cs (delete_pattern test m).1
  unfolding delete_pattern
  delete_pattern-AllFresh cs test m h = del_first-AllFresh cs (keys_of test m.store) m h

  ring-AllFresh :
      (cs : List (Call V)) (now : ℕ) (key : String) (m : Memory String)
      → AllFresh cs m
      → AllFresh cs (ring now key m)
  unfolding ring
  ring-AllFresh cs now key m h = elim (Option-cases (get key m.timers)) [
    | inl e ↦ rw e h
    | inr (at, e) ↦ elim (Bool-cases (leb at now)) [
      | inl due ↦ rw (e, due) (EachEntry-without (IsFresh cs) key m.store h)
      | inr early ↦ rw (e, early) h
    ]
  ]

  set-AllFresh :
      (cs : List (Call V)) (now : ℕ) (key v : String) (ttl : ℕ) (m : Memory String)
      → 0 < ttl
      → AnyOf (Wrote ar V cfg json key v (now + ttl * 1000)) cs
      → AllFresh cs m
      → AllFresh cs (set now key v ttl m)
  set-AllFresh cs now key v ttl m more wrote h = rw (set-store now key v ttl m more) (
      EachEntry-put (IsFresh cs) key _ m.store
        (now + ttl * 1000, (refl, omega (arith, more), wrote)) h)

  module _ (some_ttl : 0 < cfg.ttl.default_ttl) where
    positive : (n : ℕ) → 0 < or_default n cfg.ttl.default_ttl
    positive zero = some_ttl
    positive (suc n) = omega arith

    set_text-AllFresh :
        (c : Call V) (cs : List (Call V)) (now : ℕ) (key : String) (o : Option String) (ttl : ℕ)
        (s : Cache ar V cfg json)
        → 0 < ttl
        → ((text : String) → o ≡ some text → Wrote ar V cfg json key text (now + ttl * 1000) c)
        → AllFresh cs s.memory
        → AllFresh (c ∷ cs) (Cache.memory (set_text ar V cfg json now key o ttl s))
    set_text-AllFresh c cs now key none ttl s more wrote h = older c cs s.memory h
    set_text-AllFresh c cs now key (some text) ttl s more wrote h =
        set-AllFresh (c ∷ cs) now key text ttl s.memory more (inl (wrote text refl))
          (older c cs s.memory h)

    stored-AllFresh :
        (cs : List (Call V)) (now elapsed later : ℕ) (key type : String) (chain : Option ℕ)
        (result : Outcome String V) (s : Cache ar V cfg json)
        → AllFresh cs s.memory
        → let c = asks now elapsed later key type chain result in
          AllFresh (c ∷ cs) (stored ar V cfg json later key type result s).1.memory
    unfolding set_value
    stored-AllFresh cs now elapsed later key type chain (throw e) s h =
        older (asks now elapsed later key type chain (throw e)) cs s.memory h
    stored-AllFresh cs now elapsed later key type chain (ok v) s h =
        set_text-AllFresh (asks now elapsed later key type chain (ok v)) cs later key
          (json.stringify v) (or_default (get_ttl cfg.ttl type) cfg.ttl.default_ttl) s
          (positive (get_ttl cfg.ttl type)) (λ text e. (refl, e, refl)) h

    missed-AllFresh :
        (cs : List (Call V)) (now elapsed later : ℕ) (key type : String) (chain : Option ℕ)
        (result : Outcome String V) (m : Memory String) (s : Cache ar V cfg json)
        → AllFresh cs m
        → let c = asks now elapsed later key type chain result in
          AllFresh (c ∷ cs) (missed ar V cfg json elapsed later key type chain result m s).1.memory
    missed-AllFresh cs now elapsed later key type chain result m s h =
        stored-AllFresh cs now elapsed later key type chain result
          (counted ar V cfg json false key chain elapsed m s) h

    hit-AllFresh :
        (cs : List (Call V)) (now elapsed later : ℕ) (key type : String) (chain : Option ℕ)
        (result : Outcome String V) (o : Option V) (m : Memory String) (s : Cache ar V cfg json)
        → AllFresh cs m
        → let c = asks now elapsed later key type chain result in
          AllFresh (c ∷ cs) (hit ar V cfg json elapsed later key type chain result o m s).1.memory
    hit-AllFresh cs now elapsed later key type chain result (some v) m s h =
        older (asks now elapsed later key type chain result) cs m h
    hit-AllFresh cs now elapsed later key type chain result none m s h =
        missed-AllFresh cs now elapsed later key type chain result m
          (counted ar V cfg json true key chain elapsed m s) h

    answered-AllFresh :
        (cs : List (Call V)) (now elapsed later : ℕ) (key type : String) (chain : Option ℕ)
        (result : Outcome String V) (found : Option String) (m : Memory String)
        (s : Cache ar V cfg json)
        → AllFresh cs m
        → let c = asks now elapsed later key type chain result in
          AllFresh
            (c ∷ cs)
            (answered ar V cfg json elapsed later key type chain result (found, m) s).1.memory
    answered-AllFresh cs now elapsed later key type chain result none m s h =
        missed-AllFresh cs now elapsed later key type chain result m s h
    answered-AllFresh cs now elapsed later key type chain result (some text) m s h =
        let c = asks now elapsed later key type chain result in
        either_way (str_eq text "") (λ r. AllFresh (c ∷ cs) r.1.memory)
          (missed ar V cfg json elapsed later key type chain result m s)
          (hit ar V cfg json elapsed later key type chain result (json.parse text) m s)
          (missed-AllFresh cs now elapsed later key type chain result m s h)
          (hit-AllFresh cs now elapsed later key type chain result (json.parse text) m s h)

    ask-AllFresh :
        (cs : List (Call V)) (now elapsed later : ℕ) (key type : String) (chain : Option ℕ)
        (result : Outcome String V) (s : Cache ar V cfg json)
        → AllFresh cs s.memory
        → let c = asks now elapsed later key type chain result in
          AllFresh (c ∷ cs) (step ar V cfg json c s).memory
    unfolding step get_or_fetch
    ask-AllFresh cs now elapsed later key type chain result s h =
        let c = asks now elapsed later key type chain result in
        let found = fetch now key s.memory in
        either_way (not cfg.enabled) (λ r. AllFresh (c ∷ cs) r.1.memory) (result, s)
          (answered ar V cfg json elapsed later key type chain result found s)
          (older c cs s.memory h)
          (answered-AllFresh cs now elapsed later key type chain result found.0 found.1 s
            (fetch-AllFresh cs now key s.memory h))

    step-AllFresh :
        (c : Call V) (cs : List (Call V)) (s : Cache ar V cfg json)
        → AllFresh cs s.memory
        → AllFresh (c ∷ cs) (step ar V cfg json c s).memory
    unfolding step set_value get_value invalidate invalidate_pattern clear_all flushdb
    step-AllFresh (asks now elapsed later key type chain result) cs s h =
        ask-AllFresh cs now elapsed later key type chain result s h
    step-AllFresh (sets now key v ttl) cs s h =
        set_text-AllFresh (sets now key v ttl) cs now key (json.stringify v)
          (or_default ttl cfg.ttl.default_ttl) s (positive ttl) (λ text e. (refl, e, refl)) h
    step-AllFresh (reads now key) cs s h =
        older (reads now key) cs (fetch now key s.memory).1 (fetch-AllFresh cs now key s.memory h)
    step-AllFresh (invalidates key) cs s h =
        older (invalidates key) cs (del key s.memory).1 (del-AllFresh cs key s.memory h)
    step-AllFresh (invalidates_matching test) cs s h =
        older (invalidates_matching test) cs (delete_pattern test s.memory).1
          (delete_pattern-AllFresh cs test s.memory h)
    step-AllFresh clears cs s h = tt
    step-AllFresh (rings now key) cs s h =
        older (rings now key) cs (ring now key s.memory) (ring-AllFresh cs now key s.memory h)

    run-AllFresh :
        (cs : List (Call V)) → AllFresh cs (run ar V cfg json cs (empty_cache ar V cfg json)).memory
    unfolding run
    run-AllFresh [] = tt
    run-AllFresh (c ∷ cs) =
        step-AllFresh c cs (run ar V cfg json cs (empty_cache ar V cfg json)) (run-AllFresh cs)

    fetch-fresh :
        (cs : List (Call V)) (now : ℕ) (key v : String) (m : Memory String)
        → AllFresh cs m
        → (fetch now key m).0 ≡ some v
        → (e : ℕ) × ((now ≤ e) × AnyOf (Wrote ar V cfg json key v e) cs)
    unfolding fetch
    fetch-fresh cs now key v m h served = elim (Option-cases (get key m.store)) [
      | inl e ↦ ground (arith, e, served)
      | inr (item, e) ↦
          let (until, facts) = EachEntry-get (IsFresh cs) key item m.store h e in
          let (expires, more, wrote) = facts in
          elim (Bool-cases (is_over now item.expires)) [
            | inl over ↦ ground (arith, e, over, served)
            | inr live ↦
                let value : item.value ≡ v = ground (arith, e, live, served) in
                (until, (live_until now until item.expires expires more live, rw (← value) wrote))
          ]
    ]

    -- An answer is fetched, or is read from the text that was found.
    abbrev Source : Outcome String V → Option String → V → Type 0
    Source result found v =
        (result ≡ ok v) ⊎ ((text : String) × (found ≡ some text) × (json.parse text ≡ some v))

    missed-result :
        (elapsed later : ℕ) (key type : String) (chain : Option ℕ) (result : Outcome String V)
        (m : Memory String) (s : Cache ar V cfg json)
        → (missed ar V cfg json elapsed later key type chain result m s).0 ≡ result
    missed-result elapsed later key type chain (ok w) m s = refl
    missed-result elapsed later key type chain (throw e) m s = refl

    hit-result :
        (elapsed later : ℕ) (key type : String) (chain : Option ℕ) (result : Outcome String V)
        (text : String) (o : Option V) (m : Memory String) (s : Cache ar V cfg json) (v : V)
        → json.parse text ≡ o
        → (hit ar V cfg json elapsed later key type chain result o m s).0 ≡ ok v
        → Source result (some text) v
    hit-result elapsed later key type chain result text (some w) m s v read h =
        inr (text, refl, ground (arith, read, h))
    hit-result elapsed later key type chain result text none m s v read h = inl (
        sym (
          missed-result elapsed later key type chain result m
            (counted ar V cfg json true key chain elapsed m s))
        ∙ h)

    answered-result :
        (elapsed later : ℕ) (key type : String) (chain : Option ℕ) (result : Outcome String V)
        (found : Option String) (m : Memory String) (s : Cache ar V cfg json) (v : V)
        → (answered ar V cfg json elapsed later key type chain result (found, m) s).0 ≡ ok v
        → Source result found v
    answered-result elapsed later key type chain result none m s v h =
        inl (sym (missed-result elapsed later key type chain result m s) ∙ h)
    answered-result elapsed later key type chain result (some text) m s v h =
        either_way (str_eq text "") (λ r. r.0 ≡ ok v → Source result (some text) v)
          (missed ar V cfg json elapsed later key type chain result m s)
          (hit ar V cfg json elapsed later key type chain result (json.parse text) m s)
          (λ e. inl (sym (missed-result elapsed later key type chain result m s) ∙ e))
          (hit-result elapsed later key type chain result text (json.parse text) m s v refl) h

  -- Where the default TTL is not 0: after any calls on a new cache and any timers, an answer of
  -- `getOrFetch` is what the fetcher gives now, or is read from a text that one of those calls stored under the same
  -- key for its value, and whose TTL has not been over for longer than stale answers may be served.
  pub get_or_fetch-fresh :
      (cs : List (Call V)) (now elapsed later : ℕ) (key type : String) (chain : Option ℕ)
      (result : Outcome String V) (v : V)
      → 0 < cfg.ttl.default_ttl
      → (get_or_fetch ar V cfg json now elapsed later key type chain result
          (run ar V cfg json cs (empty_cache ar V cfg json))).0
        ≡ ok v
      → (result ≡ ok v)
        ⊎ ((text : String) × (e : ℕ) × (json.parse text ≡ some v)
            × (now ≤ e + or_else cfg.stale_while_revalidate 0 * 1000)
            × AnyOf (Wrote ar V cfg json key text e) cs)
  unfolding get_or_fetch
  get_or_fetch-fresh cs now elapsed later key type chain result v some_ttl served =
      let s = run ar V cfg json cs (empty_cache ar V cfg json) in
      let found = fetch now key s.memory in
      let source =
        either_way (not cfg.enabled)
          (λ (r : Outcome String V × Cache ar V cfg json).
            r.0 ≡ ok v → Source some_ttl result found.0 v)
          (result, s) (answered ar V cfg json elapsed later key type chain result found s)
          (λ h. inl h)
          (λ h. answered-result some_ttl elapsed later key type chain result found.0 found.1 s v h)
          served in
      elim source [
        | inl fetched ↦ inl fetched
        | inr (text, cached, read) ↦
            let (e, (live, wrote)) =
              fetch-fresh some_ttl cs now key text s.memory (run-AllFresh some_ttl cs) cached in
            inr (text, e, read, omega (arith, live), wrote)
      ]
