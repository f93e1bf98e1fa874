-- ===== src/Exports/Collect.antt =====
-- The records of an export: collectGasRecords of apps/api/src/exports/exports.service.ts.
use gas_guard.Prelude.{ℕ, String, Option, none, some, List, [], ◌∷◌, leb, map, if◌then◌else◌}
use gas_guard.Numbers.{Arithmetic}
use gas_guard.Exports.Record.{GasUsageRecord}
use gas_guard.Exports.Slices.{slices, concat}
use gas_guard.Exports.Chain.{
  Provider, Formats, Request, collect_wallet_tx_hashes, parse_tx_to_record,
}

-- `records.sort((a, b) => …)`, which keeps the order of those of one time.
abbrev pub insert : GasUsageRecord → List GasUsageRecord → List GasUsageRecord
insert r [] = r ∷ []
insert r (s ∷ rs) = if leb r.seconds s.seconds then r ∷ s ∷ rs else s ∷ insert r rs

abbrev pub sort : List GasUsageRecord → List GasUsageRecord
sort [] = []
sort (r ∷ rs) = insert r (sort rs)

abbrev pub tx_batch_size : ℕ
tx_batch_size = 20

-- `if (result.status === 'fulfilled' && result.value) records.push(result.value)`
abbrev pub with_result : Option GasUsageRecord → List GasUsageRecord → List GasUsageRecord
with_result none rs = rs
with_result (some r) rs = r ∷ rs

-- The results of a batch that are records.
abbrev pub collected : (String → Option GasUsageRecord) → List String → List GasUsageRecord
collected parse [] = []
collected parse (h ∷ hs) = with_result (parse h) (collected parse hs)

module _ (ar : Arithmetic) (fmt : Formats (Arithmetic.Number ar))
    (q : Request (Arithmetic.Number ar)) (p : Provider) where
  unfoldable pub collect_gas_records : ℕ → ℕ → List GasUsageRecord
  unfolding collect_wallet_tx_hashes
  collect_gas_records from_block to_block =
      let hashes = collect_wallet_tx_hashes p from_block to_block in
      sort (concat (map (collected (parse_tx_to_record ar fmt q p)) (slices tx_batch_size hashes)))
