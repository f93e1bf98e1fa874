-- ===== src/Exports/RoundTrip.antt =====
-- What an export writes is read back as its records.
use mathlib.Core.List.{foldl-append}
use gas_guard.Prelude.{
  ◌<◌, List, [], ◌∷◌, ◌++◌, ◌≡◌, refl, sym, ap, ◌∙◌, arith, map, append_one, length, drop, All,
}
use gas_guard.Exports.Record.{GasUsageRecord, ExportMetadata, csv_headers}
use gas_guard.Exports.Slices.{slices, concat, concat-slices, slices_filled}
use gas_guard.Exports.Csv.{
  comma, newline, join, record_to_csv_row, write_chunk, write_rows, write_metadata,
  build_csv_stream, csv_write_chunk,
}
use gas_guard.Exports.Reader.{Reader, reading, step, run, read_csv}
use gas_guard.Exports.Table.{lines, lines-append, join-newline, run-lines, values_of}

-- Chunks that are not empty.
abbrev Filled : List (List GasUsageRecord) → Type 0
Filled = All (λ rs. 0 < length rs)

write_chunks :
    (chunks : List (List GasUsageRecord))
    → Filled chunks
    → concat (map write_chunk chunks) ≡ lines record_to_csv_row (concat chunks)
unfolding write_chunk
write_chunks [] h = refl
write_chunks ([] ∷ cs) h = absurd (omega arith)
write_chunks ((r ∷ rs) ∷ cs) (p, h) =
    rw (join-newline record_to_csv_row r rs, write_chunks cs h)
      (sym (lines-append record_to_csv_row (r ∷ rs) (concat cs)))

write_rows_lem : (rs : List GasUsageRecord) → write_rows rs ≡ lines record_to_csv_row rs
unfolding write_rows
write_rows_lem rs =
    write_chunks (slices csv_write_chunk rs) (slices_filled csv_write_chunk rs (omega arith))
    ∙ ap (lines record_to_csv_row) (concat-slices csv_write_chunk rs (omega arith))

drop-append : {A : Type 0} (xs ys : List A) → drop (length xs) (xs ++ ys) ≡ ys
drop-append [] ys = refl
drop-append (x ∷ xs) ys = drop-append xs ys

run-headers :
    run (reading []) (join (comma ∷ []) csv_headers ++ newline ∷ []) ≡ reading (csv_headers ∷ [])
unfolding join step
run-headers = refl

-- Whatever the records and the head of the export hold, commas, quotation marks and line breaks included: what the
-- stream holds after the lines of its head is read as the row of the headers and then, in order, one row for each
-- record, whose cells are the values of the record.
pub read_csv-build_csv_stream :
    (records : List GasUsageRecord) (md : ExportMetadata)
    → read_csv (drop (length (write_metadata md)) (build_csv_stream records md))
      ≡ csv_headers ∷ map values_of records
unfolding build_csv_stream
read_csv-build_csv_stream records md =
    ap read_csv (
      drop-append (write_metadata md)
        (join (comma ∷ []) csv_headers ++ (newline ∷ write_rows records)))
    ∙ ap read_csv (sym (append_one newline (join (comma ∷ []) csv_headers) (write_rows records)))
    ∙ ap Reader.rows (
        foldl-append step (reading []) (join (comma ∷ []) csv_headers ++ newline ∷ [])
          (write_rows records)
        ∙ ap (λ r. run r (write_rows records)) run-headers
        ∙ ap (run (reading (csv_headers ∷ []))) (write_rows_lem records)
        ∙ run-lines records (csv_headers ∷ []))
