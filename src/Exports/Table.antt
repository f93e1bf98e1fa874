-- ===== src/Exports/Table.antt =====
-- The table of an export is read back: row by row, and chunk by chunk.
use mathlib.Core.List.{foldl-append, append_assoc}
use gas_guard.Prelude.{
  Text, decimal, List, [], ◌∷◌, ◌++◌, ◌≡◌, refl, ap, ◌∙◌, map, append_one, append_nil, inl, inr,
}
use gas_guard.Exports.Record.{GasUsageRecord}
use gas_guard.Exports.Csv.{comma, newline, join, written_cells, record_to_csv_row}
use gas_guard.Exports.Reader.{Mode, start, step, run}
use gas_guard.Exports.Cells.{at, IsOutside, Reads, Reads-escape_csv, Reads-decimal}

-- The values of a record's row.
abbrev pub values_of : GasUsageRecord → List Text
values_of r =
    r.merchant_id
    ∷ r.wallet
    ∷ r.chain
    ∷ decimal r.chain_id
    ∷ r.tx_hash
    ∷ r.function_selector
    ∷ decimal r.gas_used
    ∷ r.gas_price_gwei
    ∷ r.gas_cost_native
    ∷ r.gas_cost_usd
    ∷ r.timestamp
    ∷ decimal r.block_number
    ∷ []

-- Each cell is read as its value.
abbrev ReadsAll : List Text → List Text → Type 0
ReadsAll [] [] = Unit
ReadsAll [] (v ∷ vs) = ⊥
ReadsAll (w ∷ ws) [] = ⊥
ReadsAll (w ∷ ws) (v ∷ vs) = Reads w v × ReadsAll ws vs

step-comma :
    (m : Mode) (v : Text) (cells : List Text) (rows : List (List Text))
    → IsOutside m
    → step (at m v cells rows) comma ≡ at start [] (cells ++ v ∷ []) rows
unfolding step
step-comma m v cells rows (inl e) = rw e refl
step-comma m v cells rows (inr (inl e)) = rw e refl
step-comma m v cells rows (inr (inr e)) = rw e refl

step-newline :
    (m : Mode) (v : Text) (cells : List Text) (rows : List (List Text))
    → IsOutside m
    → step (at m v cells rows) newline ≡ at start [] [] (rows ++ (cells ++ v ∷ []) ∷ [])
unfolding step
step-newline m v cells rows (inl e) = rw e refl
step-newline m v cells rows (inr (inl e)) = rw e refl
step-newline m v cells rows (inr (inr e)) = rw e refl

-- A line: the first cell and the others.
run-join :
    (w : Text) (ws : List Text) (v : Text) (vs : List Text) (cells : List Text)
    (rows : List (List Text))
    → Reads w v
    → ReadsAll ws vs
    → run (at start [] cells rows) (join (comma ∷ []) (w ∷ ws) ++ newline ∷ [])
      ≡ at start [] [] (rows ++ (cells ++ v ∷ vs) ∷ [])
unfolding join
run-join w [] v [] cells rows h t =
    let (m, out, e) = h cells rows in
    foldl-append step (at start [] cells rows) w (newline ∷ [])
    ∙ rw e (step-newline m v cells rows out)
run-join w [] v (u ∷ vs) cells rows h t = elim t [ ]
run-join w (x ∷ ws) v [] cells rows h t = elim t [ ]
run-join w (x ∷ ws) v (u ∷ vs) cells rows h (t, ts) =
    let (m, out, e) = h cells rows in
    let rest : Text = join (comma ∷ []) (x ∷ ws) in
    ap (run (at start [] cells rows)) (append_assoc w (comma ∷ rest) (newline ∷ []))
    ∙ foldl-append step (at start [] cells rows) w (comma ∷ (rest ++ newline ∷ []))
    ∙ ap (λ r. run r (comma ∷ (rest ++ newline ∷ []))) e
    ∙ ap (λ r. run r (rest ++ newline ∷ [])) (step-comma m v cells rows out)
    ∙ run-join x ws u vs (cells ++ v ∷ []) rows t ts
    ∙ rw (append_one v cells (u ∷ vs)) refl

-- Each record on its line.
abbrev pub lines : {A : Type 0} → (A → Text) → List A → Text
lines f [] = []
lines f (r ∷ rs) = (f r ++ newline ∷ []) ++ lines f rs

pub join-newline :
    {A : Type 0} (f : A → Text) (r : A) (rs : List A)
    → join (newline ∷ []) (map f (r ∷ rs)) ++ newline ∷ [] ≡ lines f (r ∷ rs)
unfolding join
join-newline f r [] = rw append_nil
join-newline f r (s ∷ rs) =
    simp (append_assoc) (ap (λ t. f r ++ newline ∷ t) (join-newline f s rs ∙ simp append_assoc))

pub lines-append :
    {A : Type 0} (f : A → Text) (rs ss : List A) → lines f (rs ++ ss) ≡ lines f rs ++ lines f ss
lines-append f [] ss = refl
lines-append f (r ∷ rs) ss = simp (lines-append f rs ss, append_assoc)

run-row :
    (r : GasUsageRecord) (rows : List (List Text))
    → run (at start [] [] rows) (record_to_csv_row r ++ newline ∷ [])
      ≡ at start [] [] (rows ++ values_of r ∷ [])
unfolding record_to_csv_row written_cells
run-row r rows = run-join _ _ _ _ [] rows (Reads-escape_csv r.merchant_id) (
  Reads-escape_csv r.wallet,
  (
    Reads-escape_csv r.chain,
    (
      Reads-decimal r.chain_id,
      (
        Reads-escape_csv r.tx_hash,
        (
          Reads-escape_csv r.function_selector,
          (
            Reads-decimal r.gas_used,
            (
              Reads-escape_csv r.gas_price_gwei,
              (
                Reads-escape_csv r.gas_cost_native,
                (
                  Reads-escape_csv r.gas_cost_usd,
                  (Reads-escape_csv r.timestamp, (Reads-decimal r.block_number, tt)),
                ),
              ),
            ),
          ),
        ),
      ),
    ),
  ),
)

pub run-lines :
    (rs : List GasUsageRecord) (rows : List (List Text))
    → run (at start [] [] rows) (lines record_to_csv_row rs)
      ≡ at start [] [] (rows ++ map values_of rs)
run-lines [] rows = rw append_nil
run-lines (r ∷ rs) rows =
    let rest : Text = lines record_to_csv_row rs in
    foldl-append step (at start [] [] rows) (record_to_csv_row r ++ newline ∷ []) rest
    ∙ ap (λ s. run s rest) (run-row r rows)
    ∙ run-lines rs (rows ++ values_of r ∷ [])
    ∙ rw (append_one (values_of r) rows (map values_of rs)) refl
