-- ===== src/Exports/Hashes.antt =====
-- The hashes that an export looks at are those of the blocks' logs, each once.
use gas_guard.Prelude.{
  ℕ, zero, suc, ◌+◌, ◌-◌, ◌≤◌, ◌<◌, String, ◌≡◌, ◌≢◌, refl, ◌↔◌, ◌⊎◌, true, Option, none, some,
  List, [], arith, inl, inr, Bool-cases, leb,
}
use gas_guard.Exports.Chain.{
  Provider, includes_hash, add_chunk, chunk_at, lesser, log_chunk_size, scan_from,
  collect_wallet_tx_hashes,
}
use gas_guard.Exports.HashSet.{Unique, Unique-add_chunk, keeps-add_chunk, includes-add_hashes}

-- What `getLogs` answers, where it does: the hashes of the logs of the blocks in the range.
abbrev pub Honest : Provider → (ℕ → List String) → Type 0
Honest p logs_at =
    (a b : ℕ) (hs : List String)
    → p.get_logs a b ≡ some hs
    → (h : String)
    → (includes_hash h hs ≡ true)
      ↔ ((n : ℕ) × (a ≤ n) × (n ≤ b) × (includes_hash h (logs_at n) ≡ true))

module _ (p : Provider) where
  Unique-scan_from :
      (turns start to : ℕ) (hs : List String) → Unique hs → Unique (scan_from p turns start to hs)
  unfolding scan_from
  Unique-scan_from zero start to hs u = u
  Unique-scan_from (suc turns) start to hs u = elim (Bool-cases (leb start to)) [
    | inl more ↦ rw more (
        Unique-scan_from turns (start + log_chunk_size) to _
          (Unique-add_chunk (chunk_at p start to) hs u))
    | inr over ↦ rw over u
  ]

  keeps-scan_from :
      (h : String) (turns start to : ℕ) (hs : List String)
      → includes_hash h hs ≡ true
      → includes_hash h (scan_from p turns start to hs) ≡ true
  unfolding scan_from
  keeps-scan_from h zero start to hs e = e
  keeps-scan_from h (suc turns) start to hs e = elim (Bool-cases (leb start to)) [
    | inl more ↦ rw more (
        keeps-scan_from h turns (start + log_chunk_size) to _
          (keeps-add_chunk h (chunk_at p start to) hs e))
    | inr over ↦ rw over e
  ]

  module _ (logs_at : ℕ → List String) (honest : Honest p logs_at) where
    -- A hash in the set was there before, or is that of a log from `start` to `to`.
    abbrev FromLogs : String → ℕ → ℕ → Type 0
    FromLogs h a b = (n : ℕ) × (a ≤ n) × (n ≤ b) × (includes_hash h (logs_at n) ≡ true)

    widen : (h : String) (a b a' b' : ℕ) → a' ≤ a → b ≤ b' → FromLogs h a b → FromLogs h a' b'
    widen h a b a' b' l m (n, i, j, e) = (n, omega arith, omega arith, e)

    chunk_complete :
        (h : String) (a b : ℕ) (o : Option (List String)) (hs : List String)
        → p.get_logs a b ≡ o
        → o ≢ none
        → FromLogs h a b
        → includes_hash h (add_chunk o hs) ≡ true
    chunk_complete h a b none hs e ne f = absurd (ne refl)
    chunk_complete h a b (some xs) hs e ne f =
        ground (arith, includes-add_hashes h xs hs, (honest a b xs e h).1 f)

    chunk_sound :
        (h : String) (a b : ℕ) (o : Option (List String)) (hs : List String)
        → p.get_logs a b ≡ o
        → includes_hash h (add_chunk o hs) ≡ true
        → (includes_hash h hs ≡ true) ⊎ FromLogs h a b
    chunk_sound h a b none hs e i = inl i
    chunk_sound h a b (some xs) hs e i = elim (Bool-cases (includes_hash h hs)) [
      | inl old ↦ inl old
      | inr new ↦ inr ((honest a b xs e h).0 (ground (arith, includes-add_hashes h xs hs)))
    ]

    scan_from_sound :
        (h : String) (turns start to : ℕ) (hs : List String)
        → includes_hash h (scan_from p turns start to hs) ≡ true
        → (includes_hash h hs ≡ true) ⊎ FromLogs h start to
    unfolding scan_from
    scan_from_sound h zero start to hs i = inl i
    scan_from_sound h (suc turns) start to hs i = elim (Bool-cases (leb start to)) [
      | inl more ↦
          elim (scan_from_sound h turns (start + log_chunk_size) to
            (add_chunk (chunk_at p start to) hs) (rw more at i)) [
              | inl now ↦
                  elim (chunk_sound h start (lesser to (start + log_chunk_size - 1))
                    (chunk_at p start to) hs refl now) [
                      | inl old ↦ inl old
                      | inr f ↦ inr (widen h start _ start to (omega arith) (ground arith) f)
                    ]
              | inr f ↦
                  inr (widen h (start + log_chunk_size) to start to (omega arith) (omega arith) f)
            ]
      | inr over ↦ inl (rw over at i)
    ]

    -- With every chunk answered, no log is missed.
    scan_from_complete :
        (h : String) (turns start to n : ℕ) (hs : List String)
        → ((a b : ℕ) → p.get_logs a b ≢ none)
        → to < start + turns
        → start ≤ n
        → n ≤ to
        → includes_hash h (logs_at n) ≡ true
        → includes_hash h (scan_from p turns start to hs) ≡ true
    unfolding scan_from
    scan_from_complete h zero start to n hs all t l m i = absurd (omega arith)
    scan_from_complete h (suc turns) start to n hs all t l m i =
        let more : leb start to ≡ true = ground arith in
        rw more (elim (Bool-cases (leb n (start + log_chunk_size - 1))) [
          | inl near ↦
              keeps-scan_from h turns (start + log_chunk_size) to
                (add_chunk (chunk_at p start to) hs)
                (chunk_complete h start (lesser to (start + log_chunk_size - 1))
                  (chunk_at p start to) hs refl (all _ _) (n, l, ground arith, i))
          | inr far ↦
              scan_from_complete h turns (start + log_chunk_size) to n
                (add_chunk (chunk_at p start to) hs) all (omega arith) (ground arith) m i
        ])

    -- Where the provider answers each request for logs, with the hashes of the blocks from the first to the last
    -- that it names: the hashes that an export collects are those of the logs in its range of blocks, none
    -- left out and none twice.
    pub collect_wallet_tx_hashes_lem :
        (from to : ℕ)
        → ((a b : ℕ) → p.get_logs a b ≢ none)
        → Unique (collect_wallet_tx_hashes p from to)
          × ((h : String)
              → (includes_hash h (collect_wallet_tx_hashes p from to) ≡ true)
                ↔ ((n : ℕ) × (from ≤ n) × (n ≤ to) × (includes_hash h (logs_at n) ≡ true)))
    unfolding collect_wallet_tx_hashes
    collect_wallet_tx_hashes_lem from to all = (
      Unique-scan_from (to + 1 - from) from to [] tt,
      λ h. (
        λ i. from_logs h (scan_from_sound h (to + 1 - from) from to [] i),
        λ f.
            scan_from_complete h (to + 1 - from) from to f.0 [] all (omega (arith, f.1, f.2)) f.1
              f.2 f.3,
      ),
    )
      where
        from_logs :
            (h : String) → (includes_hash h [] ≡ true) ⊎ FromLogs h from to → FromLogs h from to
        from_logs h (inl e) = cc
        from_logs h (inr f) = f
