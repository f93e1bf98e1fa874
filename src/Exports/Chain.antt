-- ===== src/Exports/Chain.antt =====
-- What an export asks of a chain: collectWalletTxHashes and parseTxToRecord of
-- apps/api/src/exports/exports.service.ts. The ethers provider is a parameter: what each call answers,
-- with none where it throws.
use gas_guard.Prelude.{
  ℕ, zero, suc, ◌+◌, ◌-◌, ◌*◌, String, str_eq, Text, codes, to_lower_case, same_text, Bool, false,
  ◌||◌, Option, none, some, List, [], ◌∷◌, ◌++◌, any, ltb, leb, length, take, or_else,
  if◌then◌else◌,
}
use gas_guard.Numbers.{Arithmetic}
use gas_guard.Exports.Record.{GasUsageRecord}

pub record Transaction : Type 0 where
  pub from : Option Text
  pub gas_price : Option ℕ
  pub input : Option Text

pub record Receipt : Type 0 where
  pub block_number : ℕ
  pub gas_used : ℕ
  pub gas_price : Option ℕ

pub record Provider : Type 0 where
  -- the hashes of the logs' transactions, from one block to another
  pub get_logs : ℕ → ℕ → Option (List String)
  pub get_transaction : String → Option (Option Transaction)
  pub get_transaction_receipt : String → Option (Option Receipt)
  -- the seconds of a block
  pub get_block : ℕ → Option (Option ℕ)

-- Texts for numbers: `ethers.formatUnits`, `toFixed`, `toISOString`; and `parseFloat`.
pub record Formats (Number : Type 0) : Type 0 where
  -- the price of gas in gwei, with four decimals
  pub gwei : ℕ → Text
  -- a cost in the native token, with eight decimals
  pub native : ℕ → Text
  -- the ISO text of a time in seconds
  pub iso : ℕ → Text
  pub parse_float : Text → Number
  pub to_fixed : ℕ → Number → Text

abbrev pub includes_hash : String → List String → Bool
includes_hash h hs = any (λ x. str_eq x h) hs

-- `hashes.add(h)`: a Set keeps the order of insertion.
abbrev pub add_hash : String → List String → List String
add_hash h hs = if includes_hash h hs then hs else hs ++ h ∷ []

abbrev pub add_hashes : List String → List String → List String
add_hashes [] hs = hs
add_hashes (x ∷ xs) hs = add_hashes xs (add_hash x hs)

-- A chunk whose logs cannot be read is skipped.
abbrev pub add_chunk : Option (List String) → List String → List String
add_chunk none hs = hs
add_chunk (some xs) hs = add_hashes xs hs

abbrev pub log_chunk_size : ℕ
log_chunk_size = 2000

abbrev pub lesser : ℕ → ℕ → ℕ
lesser a b = if leb a b then a else b

-- The logs of the chunk at `start`.
abbrev pub chunk_at : Provider → ℕ → ℕ → Option (List String)
chunk_at p start to = p.get_logs start (lesser to (start + log_chunk_size - 1))

-- The loop, from `start` on: one turn for each chunk.
unfoldable pub scan_from : Provider → ℕ → ℕ → ℕ → List String → List String
scan_from p zero start to hs = hs
scan_from p (suc turns) start to hs =
    let rest = scan_from p turns (start + log_chunk_size) to (add_chunk (chunk_at p start to) hs) in
    if leb start to then rest else hs

unfoldable pub collect_wallet_tx_hashes : Provider → ℕ → ℕ → List String
collect_wallet_tx_hashes p from to = scan_from p (to + 1 - from) from to []

-- What all the records of an export share.
pub record Request (Number : Type 0) : Type 0 where
  pub wallet : Text
  pub merchant_id : Text
  pub chain_id : ℕ
  pub chain_name : Text
  pub native_usd_price : Number
  pub from_timestamp : ℕ
  pub to_timestamp : ℕ

abbrev sender_is : Text → Option Text → Bool
sender_is wallet none = false
sender_is wallet (some from) = same_text (to_lower_case from) (to_lower_case wallet)

abbrev function_selector : Text → Text
function_selector input =
    if leb 10 (length input) then to_lower_case (take 10 input) else codes "0x"

module _ (ar : Arithmetic) where
  open ar use {Number, mul}

  module _ (fmt : Formats Number) (q : Request Number) where
    abbrev pub record_of : String → Transaction → Receipt → ℕ → GasUsageRecord
    record_of hash tx receipt seconds =
        let gas_price = or_else receipt.gas_price (or_else tx.gas_price 0) in
        let cost = fmt.native (receipt.gas_used * gas_price) in
        record {
          merchant_id = q.merchant_id;
          wallet = q.wallet;
          chain = q.chain_name;
          chain_id = q.chain_id;
          tx_hash = codes hash;
          function_selector = function_selector (or_else tx.input (codes "0x"));
          gas_used = receipt.gas_used;
          gas_price_gwei = fmt.gwei gas_price;
          gas_cost_native = cost;
          gas_cost_usd = fmt.to_fixed 6 (mul (fmt.parse_float cost) q.native_usd_price);
          timestamp = fmt.iso seconds;
          seconds = seconds;
          block_number = receipt.block_number;
        }

    -- With the block's answer.
    abbrev pub in_block : String → Transaction → Receipt → Option (Option ℕ) → Option GasUsageRecord
    in_block hash tx receipt none = none
    in_block hash tx receipt (some none) = none
    in_block hash tx receipt (some (some seconds)) =
        if ltb seconds q.from_timestamp || ltb q.to_timestamp seconds
        then none
        else some (record_of hash tx receipt seconds)

    -- With the answers for the transaction and its receipt.
    abbrev pub with_receipt :
        Provider
        → String
        → Option (Option Transaction)
        → Option (Option Receipt)
        → Option GasUsageRecord
    with_receipt p hash (some (some tx)) (some (some receipt)) =
        if sender_is q.wallet tx.from
        then in_block hash tx receipt (p.get_block receipt.block_number)
        else none
    with_receipt p hash _ _ = none

    unfoldable pub parse_tx_to_record : Provider → String → Option GasUsageRecord
    parse_tx_to_record p hash =
        with_receipt p hash (p.get_transaction hash) (p.get_transaction_receipt hash)
