-- ===== src/Exports/Reader.antt =====
-- An independent reader of CSV: what a spreadsheet makes of a text. Cells end with a comma or the end of
-- the line; a cell that begins with a quotation mark ends with the next one that is not doubled.
use mathlib.Core.List.{foldl}
use gas_guard.Prelude.{ℕ, Text, List, [], ◌∷◌, ◌++◌, ◌==◌, if◌then◌else◌}
use gas_guard.Exports.Csv.{quote, comma, newline}

pub data Mode : Type 0 where
  start plain inside closing : Mode

pub record Reader : Type 0 where
  pub mode : Mode
  pub cell : Text
  pub cells : List Text
  pub rows : List (List Text)

abbrev pub next_cell : Reader → Reader
next_cell r = record r { mode = start; cell = []; cells = r.cells ++ r.cell ∷ [] }

abbrev pub next_row : Reader → Reader
next_row r = record r {
  mode = start;
  cell = [];
  cells = [];
  rows = r.rows ++ (r.cells ++ r.cell ∷ []) ∷ [];
}

abbrev put_char : Mode → ℕ → Reader → Reader
put_char m c r = record r { mode = m; cell = r.cell ++ c ∷ [] }

-- A character outside quotation marks.
abbrev outside : ℕ → Reader → Reader
outside c r =
    if c == comma then next_cell r else if c == newline then next_row r else put_char plain c r

abbrev step_in : Mode → ℕ → Reader → Reader
step_in start c r = if c == quote then record r { mode = inside } else outside c r
step_in plain c r = outside c r
step_in inside c r = if c == quote then record r { mode = closing } else put_char inside c r
step_in closing c r = if c == quote then put_char inside c r else outside c r

unfoldable pub step : Reader → ℕ → Reader
step r c = step_in r.mode c r

abbrev pub run : Reader → Text → Reader
run r s = foldl step r s

abbrev pub reading : List (List Text) → Reader
reading rows = record { mode = start; cell = []; cells = []; rows = rows }

-- The rows whose line has ended.
abbrev pub read_csv : Text → List (List Text)
read_csv s = Reader.rows (run (reading []) s)
