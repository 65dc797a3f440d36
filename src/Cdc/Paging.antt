-- ===== src/Cdc/Paging.antt =====
-- The loop of `scanScopedRows` in internal/cdc/snapshot.go, which reads the rows of a scope page by
-- page. The query of a page and the sink of the rows are parameters. The fuel is the number of
-- pages; `none` is a loop that goes on.
pub mod Complete
use watchd.Base.{
  ℕ, zero, suc, ◌-◌, Bool, true, false, List, [], ◌∷◌, Option, none, some, if◌then◌else◌, length,
  ltb, Text, text_eq, Result, ok, err, ◌>>=◌, or_err,
}
use watchd.Cdc.Failure.{Failure, plain, Kind}
use watchd.Watch.Event.{SnapshotRow}

-- `lastRow[column].(string)`: `none` for a column that is missing or NULL.
unfoldable pub row_text : SnapshotRow → Text → Option Text
row_text [] column = none
row_text ((k, v) ∷ rest) column = if text_eq k column then v else row_text rest column

-- The loop over the primary key.
unfoldable pub next_key : List Text → SnapshotRow → Result Failure (List Text)
unfolding row_text
next_key [] row = ok []
next_key (column ∷ columns) row = do
  value ← or_err (row_text row column) (plain Kind.postgres_server)
  values ← next_key columns row
  ok (value ∷ values)

-- `batch[len(batch)-1]`, of a first row and the others.
abbrev pub last_row : SnapshotRow → List SnapshotRow → SnapshotRow
last_row row [] = row
last_row row (next ∷ rows) = last_row next rows

-- The pages that the sink was given, and the error that ended the loop.
abbrev pub Scanned : Type 0
Scanned = List (List SnapshotRow) × Option Failure

abbrev pub with_page : List SnapshotRow → Option Scanned → Option Scanned
with_page page none = none
with_page page (some (pages, error)) = some (page ∷ pages, error)

module _ (fetch_batch : Option (List Text) → Result Failure (List SnapshotRow))
    (sink : List SnapshotRow → Option Failure) (primary_key : List Text) (batch_rows : ℕ) where
  -- The loop.
  unfoldable pub scan_rows : ℕ → Option (List Text) → Option Scanned
  unfolding next_key
  scan_rows zero last_key = none
  scan_rows (suc fuel) last_key = elim (fetch_batch last_key) [
    | err e ↦ some ([], some e)
    | ok batch ↦ elim batch [
      | [] ↦ some ([], none)
      | row ∷ rows ↦ with_page (row ∷ rows) (elim (sink (row ∷ rows)) [
        | some e ↦ some ([], some e)
        | none ↦ elim (next_key primary_key (last_row row rows)) [
          | err e ↦ some ([], some e)
          | ok key ↦ elim (ltb (length (row ∷ rows)) batch_rows) [
            | true ↦ some ([], none)
            | false ↦ scan_rows fuel (some key)
          ]
        ]
      ])
    ]
  ]
