-- ===== src/Exports/Csv.antt =====
-- The text that an export writes: recordToCsvRow, escapeCsv and buildCsvStream of
-- apps/api/src/exports/exports.service.ts. What is written to the stream is one text.
use gas_guard.Prelude.{
  ℕ, Text, codes, decimal, Bool, true, false, ◌||◌, Option, none, some, List, [], ◌∷◌, ◌++◌, map,
  ◌==◌, or_else, any, if◌then◌else◌,
}
use gas_guard.Exports.Record.{GasUsageRecord, ExportMetadata, csv_headers}
use gas_guard.Exports.Slices.{slices, concat}

abbrev pub quote : ℕ
quote = b'"'

abbrev pub comma : ℕ
comma = b','

abbrev pub newline : ℕ
newline = b'\n'

-- `parts.join(separator)`
unfoldable pub join : Text → List Text → Text
join sep [] = []
join sep (x ∷ []) = x
join sep (x ∷ y ∷ xs) = x ++ (sep ++ join sep (y ∷ xs))

-- `str.replace(/"/g, '""')`
abbrev pub doubled : Text → Text
doubled [] = []
doubled (c ∷ s) = let rest = doubled s in if c == quote then quote ∷ quote ∷ rest else c ∷ rest

abbrev pub includes : ℕ → Text → Bool
includes c s = any (λ d. d == c) s

abbrev pub needs_quotes : Text → Bool
needs_quotes s = includes comma s || (includes quote s || includes newline s)

unfoldable pub escape_csv : Text → Text
escape_csv s = if needs_quotes s then quote ∷ doubled s ++ quote ∷ [] else s

-- The cells of a row, as they are written.
unfoldable pub written_cells : GasUsageRecord → List Text
written_cells r =
    escape_csv r.merchant_id
    ∷ escape_csv r.wallet
    ∷ escape_csv r.chain
    ∷ decimal r.chain_id
    ∷ escape_csv r.tx_hash
    ∷ escape_csv r.function_selector
    ∷ decimal r.gas_used
    ∷ escape_csv r.gas_price_gwei
    ∷ escape_csv r.gas_cost_native
    ∷ escape_csv r.gas_cost_usd
    ∷ escape_csv r.timestamp
    ∷ decimal r.block_number
    ∷ []

unfoldable pub record_to_csv_row : GasUsageRecord → Text
unfolding written_cells
record_to_csv_row r = join (comma ∷ []) (written_cells r)

abbrev pub csv_write_chunk : ℕ
csv_write_chunk = 500

-- What one turn of the loop writes.
unfoldable pub write_chunk : List GasUsageRecord → Text
unfolding record_to_csv_row
write_chunk chunk = join (newline ∷ []) (map record_to_csv_row chunk) ++ newline ∷ []

unfoldable pub write_rows : List GasUsageRecord → Text
unfolding write_chunk
write_rows records = concat (map write_chunk (slices csv_write_chunk records))

-- An empty text is falsy, as one left out is.
abbrev pub present : Option Text → Bool
present none = false
present (some []) = false
present (some (c ∷ s)) = true

-- `# <label>: <text>`, where there is one
abbrev line : Text → Text → Text
line label s = label ++ (s ++ newline ∷ [])

abbrev line_if : Text → Option Text → Text
line_if label s = if present s then line label (or_else s []) else []

unfoldable pub write_metadata : ExportMetadata → Text
write_metadata md =
    codes "# Gas Usage Export Report\n"
    ++ (line (codes "# Generated: ") md.generated_at
        ++ (line (codes "# Total Records: ") (decimal md.total_records)
            ++ (line (codes "# Total Gas Cost (Native): ") md.total_gas_cost_native
                ++ (line (codes "# Total Gas Cost (USD): $") md.total_gas_cost_usd
                    ++ (line_if (codes "# Merchant: ") md.filters.merchant_id
                        ++ (line_if (codes "# Wallet: ") md.filters.wallet
                            ++ ((if present md.filters.from || present md.filters.to
                                  then line (codes "# Date Range: ") (
                                      or_else md.filters.from (codes "N/A")
                                      ++ (codes " → " ++ or_else md.filters.to (codes "N/A")))
                                  else [])
                                ++ (line_if (codes "# Chain: ") md.filters.chain
                                    ++ (line_if (codes "# Tx Type Filter: ") md.filters.tx_type
                                        ++ newline ∷ [])))))))))

unfoldable pub build_csv_stream : List GasUsageRecord → ExportMetadata → Text
unfolding write_metadata write_rows
build_csv_stream records md =
    write_metadata md ++ (join (comma ∷ []) csv_headers ++ (newline ∷ write_rows records))
