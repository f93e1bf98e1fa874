-- ===== src/Exports/Streams.antt =====
-- What a request for an export that succeeds gets.
use mathlib.Core.List.{Perm}
use gas_guard.Prelude.{
  ℕ, ◌<◌, Text, Option, none, some, List, [], ◌∷◌, ◌≡◌, refl, ap, map, All, length, drop, or_else,
  arith, Bool-cases, inl, inr,
}
use gas_guard.Numbers.{Arithmetic}
use gas_guard.Exec.{ok}
use gas_guard.Exports.Record.{GasUsageRecord, GasUsageFilter, ExportMetadata, csv_headers}
use gas_guard.Exports.Chain.{
  Formats, Provider, Request, collect_wallet_tx_hashes, parse_tx_to_record,
}
use gas_guard.Exports.Collect.{collected, collect_gas_records}
use gas_guard.Exports.Csv.{present, write_metadata, build_csv_stream}
use gas_guard.Exports.Reader.{read_csv}
use gas_guard.Exports.Table.{values_of}
use gas_guard.Exports.RoundTrip.{read_csv-build_csv_stream}
use gas_guard.Exports.Order.{IsChronological, Fits, collect_gas_records_lem}
use gas_guard.Exports.Network.{BlockRange, other_chain, resolve_chain_id, resolve_block_range}
use gas_guard.Exports.Service.{
  World, Connection, first_of, when_present, metadata_of, deliver, request_of, export_range,
  export_chain, export_url, generate_gas_usage_stream,
}

module _ (ar : Arithmetic) (fmt : Formats (Arithmetic.Number ar))
    (w : World (Arithmetic.Number ar)) where
  -- What the filters ask of the node behind `c`, which is on chain `id` at block `latest`.
  abbrev pub asked :
      GasUsageFilter → Text → Text → ℕ → ℕ → Request (Arithmetic.Number ar) × BlockRange
  asked filters wallet address id latest =
      let range =
        resolve_block_range latest w.now id (when_present w.date_seconds filters.from)
          (when_present w.date_seconds filters.to) in
      (request_of ar fmt w filters wallet address id range, range)

  -- The stream and its head are those of the records: one at least, in the order of their times, and as often as
  -- there are those that the hashes in the range of blocks give.
  abbrev pub DeliversRecords :
      Provider
      → Request (Arithmetic.Number ar) × BlockRange
      → List GasUsageRecord
      → Text
      → ExportMetadata
      → Type 0
  DeliversRecords p (q, range) records s md =
      (0 < length records)
      × IsChronological records
      × Perm records (
          collected (parse_tx_to_record ar fmt q p)
            (collect_wallet_tx_hashes p range.from_block range.to_block))
      × All (Fits ar fmt q p) records
      × (md.total_records ≡ length records)
      × (read_csv (drop (length (write_metadata md)) s) ≡ csv_headers ∷ map values_of records)

  -- The node at the url tells its chain and its latest block, and the records are the ones collected from it.
  abbrev pub Delivers : GasUsageFilter → Text → Text → Text → Text → ExportMetadata → Type 0
  Delivers filters wallet url address s md =
      (id : ℕ) × (latest : ℕ) × (Connection.network (w.connect url) ≡ some id)
      × (Connection.block_number (w.connect url) ≡ some latest)
      × (let q = asked filters wallet address id latest in
          DeliversRecords (Connection.provider (w.connect url)) q
            (collect_gas_records ar fmt q.0 (Connection.provider (w.connect url)) q.1.from_block
              q.1.to_block)
            s md)

  -- A delivery, taken apart.
  delivered :
      (filters : GasUsageFilter) (wallet : Text) (r : GasUsageRecord) (rs : List GasUsageRecord)
      (s : Text) (md : ExportMetadata)
      → deliver ar fmt w filters wallet (r ∷ rs) ≡ ok (s, md)
      → (md ≡ metadata_of ar fmt w filters wallet (r ∷ rs)) × (s ≡ build_csv_stream (r ∷ rs) md)
  unfolding deliver
  delivered filters wallet r rs s md e = (cc, cc)

  deliver-Delivers :
      (filters : GasUsageFilter) (wallet : Text) (p : Provider)
      (q : Request (Arithmetic.Number ar) × BlockRange) (records : List GasUsageRecord) (s : Text)
      (md : ExportMetadata)
      → IsChronological records
      → Perm records (
          collected
            (parse_tx_to_record ar fmt q.0 p)
            (collect_wallet_tx_hashes p q.1.from_block q.1.to_block))
      → All (Fits ar fmt q.0 p) records
      → deliver ar fmt w filters wallet records ≡ ok (s, md)
      → DeliversRecords p q records s md
  deliver-Delivers filters wallet p q [] s md c same f e = unfold deliver in cc
  deliver-Delivers filters wallet p q (r ∷ rs) s md c same f e =
      let (head, stream) = delivered filters wallet r rs s md e in
      (
        omega arith,
        c,
        same,
        f,
        unfold metadata_of in ap ExportMetadata.total_records head,
        rw stream (read_csv-build_csv_stream (r ∷ rs) md),
      )

  export_range-Delivers :
      (filters : GasUsageFilter) (wallet url : Text) (id : ℕ) (b : Option ℕ) (a : Option Text)
      (s : Text) (md : ExportMetadata)
      → Connection.network (w.connect url) ≡ some id
      → Connection.block_number (w.connect url) ≡ b
      → export_range ar fmt w filters wallet (w.connect url) id b a ≡ ok (s, md)
      → (address : Text) × (a ≡ some address) × Delivers filters wallet url address s md
  unfolding export_range
  export_range-Delivers filters wallet url id none a s md n l e = cc
  export_range-Delivers filters wallet url id (some latest) none s md n l e = cc
  export_range-Delivers filters wallet url id (some latest) (some address) s md n l e =
      let (q, range) = asked filters wallet address id latest in
      let p = Connection.provider (w.connect url) in
      let (order, same, fits) =
        collect_gas_records_lem ar fmt q p range.from_block range.to_block in
      (
        address,
        refl,
        (id, latest, n, l, deliver-Delivers filters wallet p (q, range) _ s md order same fits e),
      )

  export_chain-Delivers :
      (filters : GasUsageFilter) (wallet url : Text) (network : Option ℕ) (s : Text)
      (md : ExportMetadata)
      → Connection.network (w.connect url) ≡ network
      → export_chain ar fmt w filters wallet (w.connect url) network ≡ ok (s, md)
      → (address : Text) × (w.get_address wallet ≡ some address)
        × Delivers filters wallet url address s md
  unfolding export_chain
  export_chain-Delivers filters wallet url none s md n e = cc
  export_chain-Delivers filters wallet url (some id) s md n e =
      elim (Bool-cases (other_chain id (resolve_chain_id filters.chain))) [
        | inl other ↦ absurd (ground arith)
        | inr same ↦
            export_range-Delivers filters wallet url id _ (w.get_address wallet) s md n refl
              (rw same at e)
      ]

  export_url-Delivers :
      (filters : GasUsageFilter) (wallet : Text) (o : Option Text) (s : Text) (md : ExportMetadata)
      → export_url ar fmt w filters wallet o ≡ ok (s, md)
      → (url : Text) × (o ≡ some url)
        × (address : Text) × (w.get_address wallet ≡ some address)
        × Delivers filters wallet url address s md
  unfolding export_url
  export_url-Delivers filters wallet none s md e = cc
  export_url-Delivers filters wallet (some url) s md e =
      let (address, known, delivers) = export_chain-Delivers filters wallet url _ s md refl e in
      (url, refl, address, known, delivers)

  -- A request for an export that succeeds gets a stream and its head: a url is configured, whose node tells its chain
  -- and its latest block, and the wallet is an address. The records are those that collectGasRecords takes from that
  -- node for the filters: one at least, as often as there are those that the hashes give, in the order of their times,
  -- which are in the period and are written as their timestamps. The head gives their number, and the stream, after
  -- the head's lines, is read as the row of headers and one row for each of them in this order.
  pub generate_gas_usage_stream-Delivers :
      (filters : GasUsageFilter) (wallet_override : Option Text) (s : Text) (md : ExportMetadata)
      → generate_gas_usage_stream ar fmt w filters wallet_override ≡ ok (s, md)
      → let wallet = or_else (first_of wallet_override filters.wallet) [] in
        (url : Text) × (when_present
            (λ u. u)
            (first_of filters.rpc_url (first_of w.rpc_url w.ethereum_rpc_url))
          ≡ some url)
        × (address : Text) × (w.get_address wallet ≡ some address)
        × Delivers filters wallet url address s md
  unfolding generate_gas_usage_stream
  generate_gas_usage_stream-Delivers filters wallet_override s md e =
      elim (Bool-cases (present (first_of wallet_override filters.wallet))) [
        | inl there ↦ export_url-Delivers filters _ _ s md (rw there at e)
        | inr missing ↦ absurd (ground arith)
      ]
