-- ===== src/Reports/Breakdown.antt =====
-- Each transaction is counted once, under its chain.
use gas_guard.Prelude.{
  ℕ, ◌+◌, String, str_eq, eq_iff, ◌≡◌, refl, ◌∙◌, ap, Bool, Option, none, some, List, [], ◌∷◌, map,
  filter, length, Dict, get, put, get-put, get_empty, or_else, arith, if◌then◌else◌, Bool-cases,
  inl, inr,
}
use gas_guard.Numbers.{Arithmetic}
use gas_guard.Reports.Aggregation.{
  Transaction, ChainData, Totals, ChainUsage, GasUsage, no_data, count_in_chain, count, count_all,
  nothing_counted, aggregate_gas_usage_data, chain_usage, succeeded,
}

module _ (ar : Arithmetic) where
  open ar use {Number}

  abbrev pub is_on : String → Transaction Number → Bool
  is_on k t = str_eq t.chain_id k

  -- The data of transactions of one chain, in their order, added to what is there.
  abbrev pub data_of :
      Option (ChainData Number) → List (Transaction Number) → Option (ChainData Number)
  data_of o [] = o
  data_of o (t ∷ ts) = data_of (some (count_in_chain ar (or_else o (no_data ar)) t)) ts

  get-count :
      (k : String) (t : Transaction Number) (a : Totals Number)
      → get k (Totals.chain_map (count ar a t)) ≡ (
          if is_on k t
          then some (count_in_chain ar (or_else (get k a.chain_map) (no_data ar)) t)
          else get k a.chain_map)
  get-count k t a = elim (Bool-cases (is_on k t)) [
    | inl here ↦
        let same : t.chain_id ≡ k = (eq_iff t.chain_id k).0 here in
        get-put t.chain_id k _ a.chain_map ∙ rw (here, same) refl
    | inr there ↦ get-put t.chain_id k _ a.chain_map ∙ rw there refl
  ]

  get-count_all :
      (k : String) (ts : List (Transaction Number)) (a : Totals Number)
      → get k (Totals.chain_map (count_all ar a ts))
        ≡ data_of (get k a.chain_map) (filter (is_on k) ts)
  get-count_all k [] a = refl
  get-count_all k (t ∷ ts) a =
      get-count_all k ts (count ar a t)
      ∙ ap (λ o. data_of o (filter (is_on k) ts)) (get-count k t a)
      ∙ elim (Bool-cases (is_on k t)) [ inl here ↦ rw here refl | inr there ↦ rw there refl ]

  totals :
      (ts : List (Transaction Number)) (a : Totals Number)
      → (Totals.successful (count_all ar a ts) ≡ a.successful + length (filter succeeded ts))
        × (Totals.successful (count_all ar a ts) + Totals.failed (count_all ar a ts)
            ≡ a.successful + a.failed + length ts)
  totals [] a = (omega arith, omega arith)
  totals (t ∷ ts) a = ground (arith, totals ts (count ar a t))

  abbrev pub counted : Option (ChainData Number) → ℕ
  counted none = 0
  counted (some d) = d.transaction_count

  abbrev pub all_counted : Dict (ChainData Number) → ℕ
  all_counted [] = 0
  all_counted ((k, d) ∷ m) = d.transaction_count + all_counted m

  all_counted-put :
      (k : String) (d : ChainData Number) (m : Dict (ChainData Number))
      → all_counted (put k d m) + counted (get k m) ≡ d.transaction_count + all_counted m
  unfolding get put
  all_counted-put k d [] = omega arith
  all_counted-put k d ((i, e) ∷ m) = elim (Bool-cases (str_eq i k)) [
    | inl here ↦ rw here (omega arith)
    | inr there ↦ rw there (omega (arith, all_counted-put k d m))
  ]

  or_else-counted :
      (o : Option (ChainData Number))
      → ChainData.transaction_count (or_else o (no_data ar)) ≡ counted o
  or_else-counted none = refl
  or_else-counted (some d) = refl

  all_counted-count_all :
      (ts : List (Transaction Number)) (a : Totals Number)
      → all_counted (Totals.chain_map (count_all ar a ts)) ≡ all_counted a.chain_map + length ts
  all_counted-count_all [] a = omega arith
  all_counted-count_all (t ∷ ts) a =
      let before = get t.chain_id a.chain_map in
      let after = count_in_chain ar (or_else before (no_data ar)) t in
      omega (
        arith,
        all_counted-put t.chain_id after a.chain_map,
        or_else-counted before,
        all_counted-count_all ts (count ar a t),
      )

  abbrev pub usage_on : String → List (ChainUsage Number) → Option (ChainUsage Number)
  usage_on k [] = none
  usage_on k (u ∷ us) = if str_eq u.chain_id k then some u else usage_on k us

  abbrev pub all_listed : List (ChainUsage Number) → ℕ
  all_listed [] = 0
  all_listed (u ∷ us) = u.transaction_count + all_listed us

  abbrev pub usage_of :
      (String → Option String) → String → Option (ChainData Number) → Option (ChainUsage Number)
  usage_of name_of k none = none
  usage_of name_of k (some d) = some (chain_usage ar name_of (k, d))

  usage_on-map :
      (name_of : String → Option String) (k : String) (m : Dict (ChainData Number))
      → usage_on k (map (chain_usage ar name_of) m) ≡ usage_of name_of k (get k m)
  unfolding get
  usage_on-map name_of k [] = refl
  usage_on-map name_of k ((i, d) ∷ m) = elim (Bool-cases (str_eq i k)) [
    | inl here ↦ let same : i ≡ k = (eq_iff i k).0 here in rw here (rw same refl)
    | inr there ↦ rw there (usage_on-map name_of k m)
  ]

  all_listed-map :
      (name_of : String → Option String) (m : Dict (ChainData Number))
      → all_listed (map (chain_usage ar name_of) m) ≡ all_counted m
  all_listed-map name_of [] = refl
  all_listed-map name_of ((i, d) ∷ m) = omega (arith, all_listed-map name_of m)

  -- The usage of a merchant counts each transaction once: the successful and the failed ones are all of them, the
  -- counts of the chains add up to all of them, and the entry of a chain has the data of the transactions on that chain,
  -- in their order, and is missing where there is none.
  pub aggregate_gas_usage_data_lem :
      (ts : List (Transaction Number)) (name_of : String → Option String)
      → (GasUsage.successful_transactions (aggregate_gas_usage_data ar ts name_of)
          ≡ length (filter succeeded ts))
        × (GasUsage.successful_transactions (aggregate_gas_usage_data ar ts name_of)
              + GasUsage.failed_transactions (aggregate_gas_usage_data ar ts name_of)
            ≡ length ts)
        × (all_listed (GasUsage.chain_breakdown (aggregate_gas_usage_data ar ts name_of))
            ≡ length ts)
        × ((k : String)
            → usage_on k (GasUsage.chain_breakdown (aggregate_gas_usage_data ar ts name_of))
              ≡ usage_of name_of k (data_of none (filter (is_on k) ts)))
  unfolding aggregate_gas_usage_data
  aggregate_gas_usage_data_lem ts name_of =
      let start = nothing_counted ar in
      let m = Totals.chain_map (count_all ar start ts) in
      (
        omega (arith, totals ts start),
        omega (arith, totals ts start),
        all_listed-map name_of m ∙ omega (arith, all_counted-count_all ts start),
        λ k.
            usage_on-map name_of k m
            ∙ ap (usage_of name_of k) (
                get-count_all k ts start ∙ ap (λ o. data_of o (filter (is_on k) ts)) (get_empty k)),
      )
