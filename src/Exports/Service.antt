-- ===== src/Exports/Service.antt =====
-- A request for an export: generateGasUsageStream and fetchNativeTokenUsdPrice of
-- apps/api/src/exports/exports.service.ts.
use mathlib.Core.Option
use gas_guard.Prelude.{
  ℕ, String, Text, codes, decimal, not, Option, none, some, List, [], ◌∷◌, ◌++◌, or_else, length,
  if◌then◌else◌,
}
use gas_guard.Numbers.{Arithmetic}
use gas_guard.Exec.{Outcome, ok, throw}
use gas_guard.Http.{HttpException, bad_request, internal_error}
use gas_guard.Exports.Record.{GasUsageRecord, GasUsageFilter, ExportMetadata}
use gas_guard.Exports.Chain.{Provider, Formats, Request}
use gas_guard.Exports.Collect.{collect_gas_records}
use gas_guard.Exports.Csv.{present, build_csv_stream}
use gas_guard.Exports.Network.{
  chain_names, row_of, resolve_chain_id, other_chain, BlockRange, resolve_block_range,
}

-- CoinGecko's id of a chain's token.
abbrev coin_gecko_ids : List (ℕ × String)
coin_gecko_ids =
    (1, "ethereum")
    ∷ (5, "ethereum")
    ∷ (11155111, "ethereum")
    ∷ (137, "matic-network")
    ∷ (80001, "matic-network")
    ∷ (42161, "ethereum")
    ∷ (10, "ethereum")
    ∷ (56, "binancecoin")
    ∷ (97, "binancecoin")
    ∷ (43114, "avalanche-2")
    ∷ (250, "fantom")
    ∷ (8453, "ethereum")
    ∷ (100, "xdai")
    ∷ []

-- What a JSON-RPC endpoint answers; none where the call throws.
pub record Connection : Type 0 where
  pub network : Option ℕ
  pub block_number : Option ℕ
  pub provider : Provider

-- What the service is given: its settings, and the answers of others.
pub record World (Number : Type 0) : Type 0 where
  pub rpc_url : Option Text
  pub ethereum_rpc_url : Option Text
  pub eth_usd_price : Option Number
  pub connect : Text → Connection
  -- CoinGecko's price of a coin: none where the request fails, and a price where it is named
  pub coin_price : String → Option (Option Number)
  -- `ethers.getAddress`, which throws at what is no address
  pub get_address : Text → Option Text
  -- `Math.floor(new Date(s).getTime() / 1000)`
  pub date_seconds : Text → ℕ
  -- the time now, in seconds, and its ISO text
  pub now : ℕ
  pub now_text : Text

-- `o ? f(o) : undefined`, where the empty text is as none
abbrev pub when_present : {A : Type 0} → (Text → A) → Option Text → Option A
when_present f none = none
when_present f (some []) = none
when_present f (some (c ∷ s)) = some (f (c ∷ s))

abbrev pub first_of : Option Text → Option Text → Option Text
first_of none o = o
first_of (some s) o = some s

module _ (ar : Arithmetic) (fmt : Formats (Arithmetic.Number ar))
    (w : World (Arithmetic.Number ar)) where
  open ar use {Number, literal, add}

  abbrev fallback_usd_price : Number
  fallback_usd_price = or_else w.eth_usd_price (literal 2500 1)

  abbrev usd_price : Option (Option Number) → Number
  usd_price none = fallback_usd_price
  usd_price (some o) = or_else o fallback_usd_price

  unfoldable pub fetch_native_token_usd_price : ℕ → Number
  fetch_native_token_usd_price chain_id =
      usd_price (w.coin_price (or_else (row_of chain_id coin_gecko_ids) "ethereum"))

  -- `records.reduce((s, r) => s + parseFloat(…), 0)`
  abbrev total_from : (GasUsageRecord → Text) → Number → List GasUsageRecord → Number
  total_from cost sum [] = sum
  total_from cost sum (r ∷ rs) = total_from cost (add sum (fmt.parse_float (cost r))) rs

  unfoldable pub metadata_of : GasUsageFilter → Text → List GasUsageRecord → ExportMetadata
  metadata_of filters wallet records = record {
    generated_at = w.now_text;
    filters = record {
      merchant_id = filters.merchant_id;
      wallet = some wallet;
      from = filters.from;
      to = filters.to;
      chain = filters.chain;
      tx_type = filters.tx_type;
    };
    total_records = length records;
    total_gas_cost_native =
        fmt.to_fixed 8 (total_from (λ r. r.gas_cost_native) (literal 0 1) records);
    total_gas_cost_usd = fmt.to_fixed 2 (total_from (λ r. r.gas_cost_usd) (literal 0 1) records);
  }

  abbrev Export : Type 0
  Export = Outcome HttpException (Text × ExportMetadata)

  -- What is done with the records.
  unfoldable pub deliver : GasUsageFilter → Text → List GasUsageRecord → Export
  deliver filters wallet [] = throw (bad_request "No transactions found for the given filters.")
  deliver filters wallet (r ∷ rs) =
      let md = metadata_of filters wallet (r ∷ rs) in ok (build_csv_stream (r ∷ rs) md, md)

  unfoldable pub request_of : GasUsageFilter → Text → Text → ℕ → BlockRange → Request Number
  request_of filters wallet address id range = record {
    wallet = address;
    merchant_id = or_else filters.merchant_id wallet;
    chain_id = id;
    chain_name = or_else (Option.map codes (row_of id chain_names)) (codes "Chain " ++ decimal id);
    native_usd_price = fetch_native_token_usd_price id;
    from_timestamp = range.from_timestamp;
    to_timestamp = range.to_timestamp;
  }

  -- With the latest block and the wallet's address.
  unfoldable pub export_range :
      GasUsageFilter → Text → Connection → ℕ → Option ℕ → Option Text → Export
  export_range filters wallet c id none a = throw (internal_error "getBlockNumber")
  export_range filters wallet c id (some latest) none = throw (internal_error "getAddress")
  export_range filters wallet c id (some latest) (some address) =
      let range =
        resolve_block_range latest w.now id (when_present w.date_seconds filters.from)
          (when_present w.date_seconds filters.to) in
      deliver filters wallet (
        collect_gas_records ar fmt (request_of filters wallet address id range) c.provider
          range.from_block range.to_block)

  -- With the chain of the endpoint.
  unfoldable pub export_chain : GasUsageFilter → Text → Connection → Option ℕ → Export
  export_chain filters wallet c none = throw (internal_error "getNetwork")
  export_chain filters wallet c (some id) =
      if other_chain id (resolve_chain_id filters.chain)
      then throw (bad_request "The configured RPC endpoint is on another chain.")
      else export_range filters wallet c id c.block_number (w.get_address wallet)

  -- With the url, where there is one.
  unfoldable pub export_url : GasUsageFilter → Text → Option Text → Export
  export_url filters wallet none = throw (bad_request "No RPC URL configured.")
  export_url filters wallet (some url) =
      export_chain filters wallet (w.connect url) (Connection.network (w.connect url))

  unfoldable pub generate_gas_usage_stream : GasUsageFilter → Option Text → Export
  unfolding export_url export_chain export_range deliver request_of metadata_of
  generate_gas_usage_stream filters wallet_override =
      let wallet = first_of wallet_override filters.wallet in
      let url = first_of filters.rpc_url (first_of w.rpc_url w.ethereum_rpc_url) in
      if not (present wallet)
      then throw (bad_request "A wallet address is required.")
      else export_url filters (or_else wallet []) (when_present (λ s. s) url)
