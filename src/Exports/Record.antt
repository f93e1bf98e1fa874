-- ===== src/Exports/Record.antt =====
-- The rows and the head of an export: interfaces/gas-export.interface.ts and dto/gas-usage-filter.dto.ts
-- of apps/api/src/exports. A text is the list of its characters.
use gas_guard.Prelude.{ℕ, Text, codes, Option, List, [], ◌∷◌, map}

pub record GasUsageRecord : Type 0 where
  pub merchant_id : Text
  pub wallet : Text
  pub chain : Text
  pub chain_id : ℕ
  pub tx_hash : Text
  pub function_selector : Text
  pub gas_used : ℕ
  pub gas_price_gwei : Text
  pub gas_cost_native : Text
  pub gas_cost_usd : Text
  -- the ISO text, and the seconds that it was made of
  pub timestamp : Text
  pub seconds : ℕ
  pub block_number : ℕ

-- What a request asks for; a field that is left out is none.
pub record GasUsageFilter : Type 0 where
  pub merchant_id : Option Text
  pub wallet : Option Text
  pub from : Option Text
  pub to : Option Text
  pub chain : Option Text
  pub tx_type : Option Text
  pub rpc_url : Option Text

pub record ExportFilters : Type 0 where
  pub merchant_id : Option Text
  pub wallet : Option Text
  pub from : Option Text
  pub to : Option Text
  pub chain : Option Text
  pub tx_type : Option Text

pub record ExportMetadata : Type 0 where
  pub generated_at : Text
  pub filters : ExportFilters
  pub total_records : ℕ
  pub total_gas_cost_native : Text
  pub total_gas_cost_usd : Text

abbrev pub csv_headers : List Text
csv_headers = map codes (
    "MerchantID" ∷ "Wallet" ∷ "Chain" ∷ "ChainID" ∷ "TxHash" ∷ "FunctionSelector" ∷ "GasUsed"
    ∷ "GasPriceGwei" ∷ "GasCostNative" ∷ "GasCostUSD" ∷ "Timestamp" ∷ "BlockNumber" ∷ [])
