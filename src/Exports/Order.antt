-- ===== src/Exports/Order.antt =====
-- The records of an export are in the order of time, and are those of its hashes.
use mathlib.Core.List.{Perm}
use mathlib.Core.List.Perm
use gas_guard.Prelude.{
  ℕ, ◌≤◌, String, ◌≡◌, refl, sym, ap, ◌∙◌, Option, none, some, List, [], ◌∷◌, ◌++◌, map, All, arith,
  inl, inr, leb, Bool-cases,
}
use gas_guard.Numbers.{Arithmetic}
use gas_guard.Exports.Record.{GasUsageRecord}
use gas_guard.Exports.Slices.{slices, concat, concat-slices}
use gas_guard.Exports.Chain.{
  Provider, Formats, Request, Transaction, Receipt, collect_wallet_tx_hashes, parse_tx_to_record,
  in_block, with_receipt,
}
use gas_guard.Exports.Collect.{
  insert, sort, with_result, tx_batch_size, collected, collect_gas_records,
}

-- Each record is followed by none that is earlier.
abbrev pub IsChronological : List GasUsageRecord → Type 0
IsChronological [] = Unit
IsChronological (r ∷ rs) = All (λ s. r.seconds ≤ s.seconds) rs × IsChronological rs

pub All-map :
    {A : Type 0} (P Q : A → Type 0) (xs : List A) → ((x : A) → P x → Q x) → All P xs → All Q xs
All-map P Q [] f h = tt
All-map P Q (x ∷ xs) f (h, t) = (f x h, All-map P Q xs f t)

All-insert :
    (P : GasUsageRecord → Type 0) (r : GasUsageRecord) (rs : List GasUsageRecord)
    → P r
    → All P rs
    → All P (insert r rs)
All-insert P r [] p h = (p, tt)
All-insert P r (s ∷ rs) p (h, t) = elim (Bool-cases (leb r.seconds s.seconds)) [
  | inl first ↦ rw first (p, (h, t))
  | inr later ↦ rw later (h, All-insert P r rs p t)
]

insert-IsChronological :
    (r : GasUsageRecord) (rs : List GasUsageRecord)
    → IsChronological rs
    → IsChronological (insert r rs)
insert-IsChronological r [] c = (tt, tt)
insert-IsChronological r (s ∷ rs) (h, c) = elim (Bool-cases (leb r.seconds s.seconds)) [
  | inl first ↦
      let le : r.seconds ≤ s.seconds = ground arith in
      rw first ((le, All-map _ _ rs (λ x i. omega arith) h), (h, c))
  | inr later ↦ rw later (All-insert _ r rs (ground arith) h, insert-IsChronological r rs c)
]

sort-IsChronological : (rs : List GasUsageRecord) → IsChronological (sort rs)
sort-IsChronological [] = tt
sort-IsChronological (r ∷ rs) = insert-IsChronological r (sort rs) (sort-IsChronological rs)

insert-perm : (r : GasUsageRecord) (rs : List GasUsageRecord) → Perm (insert r rs) (r ∷ rs)
insert-perm r [] = Perm.refl _
insert-perm r (s ∷ rs) = elim (Bool-cases (leb r.seconds s.seconds)) [
  | inl first ↦ rw first (Perm.refl _)
  | inr later ↦ rw later (Perm.trans (Perm.cons s (insert-perm r rs)) (Perm.swap r s rs))
]

sort-perm : (rs : List GasUsageRecord) → Perm (sort rs) rs
sort-perm [] = Perm.refl _
sort-perm (r ∷ rs) = Perm.trans (insert-perm r (sort rs)) (Perm.cons r (sort-perm rs))

All-sort : (P : GasUsageRecord → Type 0) (rs : List GasUsageRecord) → All P rs → All P (sort rs)
All-sort P [] h = tt
All-sort P (r ∷ rs) (h, t) = All-insert P r (sort rs) h (All-sort P rs t)

with_result-append :
    (o : Option GasUsageRecord) (xs ys : List GasUsageRecord)
    → with_result o (xs ++ ys) ≡ with_result o xs ++ ys
with_result-append none xs ys = refl
with_result-append (some r) xs ys = refl

collected-append :
    (parse : String → Option GasUsageRecord) (xs ys : List String)
    → collected parse (xs ++ ys) ≡ collected parse xs ++ collected parse ys
collected-append parse [] ys = refl
collected-append parse (x ∷ xs) ys =
    ap (with_result (parse x)) (collected-append parse xs ys)
    ∙ with_result-append (parse x) (collected parse xs) (collected parse ys)

-- The batches make no difference.
concat-collected :
    (parse : String → Option GasUsageRecord) (batches : List (List String))
    → concat (map (collected parse) batches) ≡ collected parse (concat batches)
concat-collected parse [] = refl
concat-collected parse (b ∷ bs) =
    rw (concat-collected parse bs) (sym (collected-append parse b (concat bs)))

All-with_result :
    (P : GasUsageRecord → Type 0) (o : Option GasUsageRecord) (rs : List GasUsageRecord)
    → ((r : GasUsageRecord) → o ≡ some r → P r)
    → All P rs
    → All P (with_result o rs)
All-with_result P none rs f h = h
All-with_result P (some r) rs f h = (f r refl, h)

All-collected :
    (P : GasUsageRecord → Type 0) (parse : String → Option GasUsageRecord) (hs : List String)
    → ((h : String) (r : GasUsageRecord) → parse h ≡ some r → P r)
    → All P (collected parse hs)
All-collected P parse [] f = tt
All-collected P parse (h ∷ hs) f =
    All-with_result P (parse h) (collected parse hs) (f h) (All-collected P parse hs f)

module _ (ar : Arithmetic) (fmt : Formats (Arithmetic.Number ar))
    (q : Request (Arithmetic.Number ar)) (p : Provider) where
  -- What is asked for: the period, and what all records share.
  abbrev pub Fits : GasUsageRecord → Type 0
  Fits r =
      (q.from_timestamp ≤ r.seconds)
      × (r.seconds ≤ q.to_timestamp)
      × (r.wallet ≡ q.wallet)
      × (r.merchant_id ≡ q.merchant_id)
      × (r.timestamp ≡ fmt.iso r.seconds)

  in_block-Fits :
      (h : String) (tx : Transaction) (receipt : Receipt) (b : Option (Option ℕ))
      (r : GasUsageRecord)
      → in_block ar fmt q h tx receipt b ≡ some r
      → Fits r
  in_block-Fits h tx receipt none r e = cc
  in_block-Fits h tx receipt (some none) r e = cc
  in_block-Fits h tx receipt (some (some t)) r e = ground arith

  with_receipt-Fits :
      (h : String) (t : Option (Option Transaction)) (u : Option (Option Receipt))
      (r : GasUsageRecord)
      → with_receipt ar fmt q p h t u ≡ some r
      → Fits r
  with_receipt-Fits h none u r e = cc
  with_receipt-Fits h (some none) u r e = cc
  with_receipt-Fits h (some (some tx)) none r e = cc
  with_receipt-Fits h (some (some tx)) (some none) r e = cc
  with_receipt-Fits h (some (some tx)) (some (some c)) r e =
      in_block-Fits h tx c (p.get_block c.block_number) r (ground arith)

  parse-Fits : (h : String) (r : GasUsageRecord) → parse_tx_to_record ar fmt q p h ≡ some r → Fits r
  unfolding parse_tx_to_record
  parse-Fits h r e = with_receipt-Fits h _ _ r e

  -- The records of an export are in the order of their times; they are, as often as there are, the
  -- records that the collected hashes give; and each is of the wallet and the merchant that were asked for, with a
  -- time in the period, of which its timestamp is the text.
  pub collect_gas_records_lem :
      (from to : ℕ)
      → IsChronological (collect_gas_records ar fmt q p from to)
        × Perm
            (collect_gas_records ar fmt q p from to)
            (collected (parse_tx_to_record ar fmt q p) (collect_wallet_tx_hashes p from to))
        × All Fits (collect_gas_records ar fmt q p from to)
  unfolding collect_gas_records
  collect_gas_records_lem from to =
      let parse : String → Option GasUsageRecord = parse_tx_to_record ar fmt q p in
      let hashes : List String = collect_wallet_tx_hashes p from to in
      let all : concat (map (collected parse) (slices tx_batch_size hashes))
          ≡ collected parse hashes =
        concat-collected parse (slices tx_batch_size hashes)
        ∙ ap (collected parse) (concat-slices tx_batch_size hashes (omega arith)) in
      rw all (
        sort-IsChronological (collected parse hashes),
        sort-perm (collected parse hashes),
        All-sort Fits (collected parse hashes) (All-collected Fits parse hashes parse-Fits),
      )
