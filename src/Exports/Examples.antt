-- ===== src/Exports/Examples.antt =====
-- The theorems on exports at a concrete wallet: two transactions, the later one in the earlier log, and a
-- merchant whose name has a comma and quotation marks.
use mathlib.Core.List.{Perm}
use gas_guard.Prelude.{
  ℕ, ◌≤◌, String, str_eq, Text, codes, decimal, true, ◌&&◌, none, some, List, [], ◌∷◌, map, All,
  ◌≡◌, refl, length, drop, leb, arith, ◌==◌, if◌then◌else◌, ◌↔◌,
}
use gas_guard.Numbers.{fixed}
use gas_guard.Exec.{ok}
use gas_guard.Exports.Record.{GasUsageRecord, GasUsageFilter, ExportMetadata, csv_headers}
use gas_guard.Exports.Chain.{
  Provider, Formats, Request, scan_from, includes_hash, collect_wallet_tx_hashes,
  parse_tx_to_record,
}
use gas_guard.Exports.Collect.{collected, collect_gas_records}
use gas_guard.Exports.Slices.{slices, slices_from}
use gas_guard.Exports.Csv.{escape_csv, write_metadata, build_csv_stream}
use gas_guard.Exports.Reader.{read_csv}
use gas_guard.Exports.Table.{values_of}
use gas_guard.Exports.RoundTrip.{read_csv-build_csv_stream}
use gas_guard.Exports.HashSet.{Unique}
use gas_guard.Exports.Hashes.{Honest, collect_wallet_tx_hashes_lem}
use gas_guard.Exports.Order.{IsChronological, Fits, collect_gas_records_lem}
use gas_guard.Exports.Network.{resolve_chain_id, BlockRange, resolve_block_range}
use gas_guard.Exports.Service.{
  when_present, World, request_of, metadata_of, generate_gas_usage_stream,
}
use gas_guard.Exports.Streams.{Delivers, generate_gas_usage_stream-Delivers}

abbrev wallet : Text
wallet = codes "0xAb"

-- A block's number is that of its seconds.
abbrev provider : Provider
provider = record {
  get_logs = λ a b. some (if leb a 3 && leb 3 b then "0x2" ∷ "0x1" ∷ "0x2" ∷ [] else []);
  get_transaction =
      λ h. some (some (record { from = some (codes "0xaB"); gas_price = some 7; input = none }));
  get_transaction_receipt = λ h. some (
      some (record {
        block_number = if str_eq h "0x1" then 20 else 30;
        gas_used = 100;
        gas_price = none;
      }));
  get_block = λ n. some (some n);
}

abbrev logs_at : ℕ → List String
logs_at n = if n == 3 then "0x2" ∷ "0x1" ∷ [] else []

abbrev formats : Formats ℕ
formats = record {
  gwei = decimal;
  native = decimal;
  iso = decimal;
  parse_float = λ s. length s;
  to_fixed = λ d n. decimal n;
}

abbrev request : Request ℕ
request = record {
  wallet = wallet;
  merchant_id = codes "a,\"b\"";
  chain_id = 1;
  chain_name = codes "Ethereum";
  native_usd_price = 2;
  from_timestamp = 10;
  to_timestamp = 40;
}

seconds_in_order :
    map (λ r. GasUsageRecord.seconds r) (collect_gas_records fixed formats request provider 0 5)
    ≡ 20 ∷ 30 ∷ []
unfolding collect_gas_records slices slices_from scan_from parse_tx_to_record
seconds_in_order = refl

provider-Honest : Honest provider logs_at
provider-Honest a b hs e h =
    (λ i. (3, ground arith, ground arith, ground arith), λ (n, l, m, i). ground arith)

collect_wallet_tx_hashes_lem_example :
    Unique (collect_wallet_tx_hashes provider 0 5)
    × ((h : String)
        → (includes_hash h (collect_wallet_tx_hashes provider 0 5) ≡ true)
          ↔ ((n : ℕ) × (0 ≤ n) × (n ≤ 5) × (includes_hash h (logs_at n) ≡ true)))
collect_wallet_tx_hashes_lem_example =
    collect_wallet_tx_hashes_lem provider logs_at provider-Honest 0 5 (λ a b e. cc)

collect_gas_records_lem_example :
    IsChronological (collect_gas_records fixed formats request provider 0 5)
    × Perm (collect_gas_records fixed formats request provider 0 5) (
        collected
          (parse_tx_to_record fixed formats request provider)
          (collect_wallet_tx_hashes provider 0 5))
    × All
        (Fits fixed formats request provider)
        (collect_gas_records fixed formats request provider 0 5)
collect_gas_records_lem_example = collect_gas_records_lem fixed formats request provider 0 5

abbrev filters : GasUsageFilter
filters = record {
  merchant_id = some (codes "a,\"b\"");
  wallet = none;
  from = none;
  to = none;
  chain = some (codes " Ethereum");
  tx_type = none;
  rpc_url = none;
}

abbrev world : World ℕ
world = record {
  rpc_url = some (codes "http://localhost");
  ethereum_rpc_url = none;
  eth_usd_price = none;
  connect = λ url. record { network = some 1; block_number = some 5; provider = provider };
  coin_price = λ coin. none;
  get_address = λ s. some s;
  date_seconds = λ s. 0;
  now = 40;
  now_text = codes "now";
}

abbrev range : BlockRange
range = resolve_block_range 5 40 1 none none

abbrev found : List GasUsageRecord
found =
    collect_gas_records fixed formats (request_of fixed formats world filters wallet wallet 1 range)
      provider range.from_block range.to_block

abbrev head : ExportMetadata
head = metadata_of fixed formats world filters wallet found

generated :
    generate_gas_usage_stream fixed formats world filters (some wallet)
    ≡ ok (build_csv_stream found head, head)
unfolding generate_gas_usage_stream collect_gas_records slices slices_from scan_from
    parse_tx_to_record resolve_chain_id resolve_block_range
generated = refl

generate_gas_usage_stream-Delivers_example :
    (url : Text) × (when_present (λ u. u) world.rpc_url ≡ some url)
    × (address : Text) × (some wallet ≡ some address)
    × Delivers fixed formats world filters wallet url address (build_csv_stream found head) head
generate_gas_usage_stream-Delivers_example =
    generate_gas_usage_stream-Delivers fixed formats world filters (some wallet)
      (build_csv_stream found head) head generated

read_csv-build_csv_stream_example :
    read_csv (drop (length (write_metadata head)) (build_csv_stream found head))
    ≡ csv_headers ∷ map values_of found
read_csv-build_csv_stream_example = read_csv-build_csv_stream found head

merchant_is_quoted : escape_csv (codes "a,\"b\"") ≡ codes "\"a,\"\"b\"\"\""
unfolding escape_csv
merchant_is_quoted = refl
