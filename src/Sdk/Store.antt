-- ===== src/Sdk/Store.antt =====
-- sdk/go/watchd/types.go and the `MemoryStore` of sdk/go/watchd/store.go.
pub mod Keys
pub mod Shapes
pub mod Idempotent
pub mod Snapshots
pub mod Keeps
use watchd.Base.{
  ℕ, Bool, true, false, not, ◌&&◌, ◌||◌, List, [], ◌∷◌, ◌++◌, Option, none, some, if◌then◌else◌,
  length, Text, text_eq, Result, ok, err, ◌>>=◌, or_err, map,
}

-- `Value`: text, SQL NULL, or unchanged.
pub data Value : Type 0 where
  text : Text → Value
  null : Value
  unchanged : Value

-- `Row`, a map by column name, and the keys of changes likewise.
abbrev pub Row : Type 0
Row = Text → Option Value

abbrev pub Key : Type 0
Key = Text → Option Text

-- `Operation`, with `unknown` for any other number.
pub data Operation : Type 0 where
  insert update delete unknown : Operation

pub record Change : Type 0 where
  pub operation : Operation
  pub table : Text
  pub key : Key
  pub values : Row

-- `Batch`, without the commit time.
pub record Batch : Type 0 where
  pub cursor : Text
  pub changes : List Change

pub data Error : Type 0 where
  missing_key : Error
  unknown_operation : Error

-- A `map[string]Row`, as the list of its entries.
abbrev pub Rows : Type 0
Rows = List (Text × Row)

pub record MemoryStore : Type 0 where
  pub primary_key : List Text
  pub rows : Rows
  pub cursor : Text

unfoldable pub new_memory_store : List Text → MemoryStore
new_memory_store primary_key = record { primary_key = primary_key; rows = []; cursor = [] }

unfoldable pub lookup : Text → Rows → Option Row
lookup id [] = none
lookup id ((k, row) ∷ rest) = if text_eq k id then some row else lookup id rest

unfoldable pub put_row : Text → Row → Rows → Rows
put_row id row [] = (id, row) ∷ []
put_row id row ((k, old) ∷ rest) =
    if text_eq k id then (id, row) ∷ rest else (k, old) ∷ put_row id row rest

unfoldable pub delete_row : Text → Rows → Rows
delete_row id [] = []
delete_row id ((k, row) ∷ rest) =
    if text_eq k id then delete_row id rest else (k, row) ∷ delete_row id rest

-- The loop of `keyOf`.
unfoldable pub key_parts : List Text → Key → Result Error (List Text)
key_parts [] key = ok []
key_parts (column ∷ columns) key = do
  part ← or_err (key column) Error.missing_key
  parts ← key_parts columns key
  ok (part ∷ parts)

-- `strings.Join` with a separator of one byte.
unfoldable pub join : ℕ → List Text → Text
join sep [] = []
join sep (part ∷ []) = part
join sep (part ∷ part' ∷ parts) = part ++ sep ∷ join sep (part' ∷ parts)

unfoldable pub key_of : List Text → Key → Result Error Text
unfolding key_parts join
key_of primary_key key = do parts ← key_parts primary_key key; ok (join 0 parts)

unfoldable pub len : MemoryStore → ℕ
len s = length s.rows

unfoldable pub get : MemoryStore → Key → Option Row
unfolding key_of lookup
get s key = elim (key_of s.primary_key key) [ err e ↦ none | ok id ↦ lookup id s.rows ]

unfoldable pub all_rows : MemoryStore → List Row
all_rows s = map (λ e. e.1) s.rows

unfoldable pub save_cursor : Text → MemoryStore → MemoryStore
save_cursor cursor s = record s { cursor = cursor }

-- A read of a row that may be nil.
abbrev pub column_of : Option Row → Row
column_of none column = none
column_of (some row) column = row column

-- What the loop of `Apply` over a change's values leaves at a column with this value.
abbrev pub merged : Option Row → Text → Option Value → Option Value
merged current column none = none
merged current column (some unchanged) = column_of current column
merged current column (some null) = some null
merged current column (some (text t)) = some (text t)

unfoldable pub merge : Option Row → Row → Row
merge current values column = merged current column (values column)

-- What `Apply` does for one change, after its key: `none` is the error for an unknown operation.
unfoldable pub apply_operation : Operation → Text → Row → Rows → Option Rows
apply_operation delete id values rows = some (delete_row id rows)
apply_operation insert id values rows = some (put_row id (merge (lookup id rows) values) rows)
apply_operation update id values rows = some (put_row id (merge (lookup id rows) values) rows)
apply_operation unknown id values rows = none

-- The loop of `Apply` over the changes: the rows, and the error that stopped it.
unfoldable pub apply_changes : List Text → List Change → Rows → Rows × Option Error
apply_changes primary_key [] rows = (rows, none)
apply_changes primary_key (c ∷ cs) rows = elim (key_of primary_key c.key) [
  | err e ↦ (rows, some e)
  | ok id ↦ elim (apply_operation c.operation id c.values rows) [
    | none ↦ (rows, some Error.unknown_operation)
    | some rows' ↦ apply_changes primary_key cs rows'
  ]
]

-- `Apply`: the cursor moves only with the whole batch.
unfoldable pub apply : Batch → MemoryStore → MemoryStore × Option Error
apply batch s =
    let (rows, error) = apply_changes s.primary_key batch.changes s.rows in
    elim error [
      | some e ↦ (record s { rows = rows }, some e)
      | none ↦ (record s { rows = rows; cursor = batch.cursor }, none)
    ]

-- `memorySnapshot`: the rows put so far, beside the store's.
pub record MemorySnapshot : Type 0 where
  pub primary_key : List Text
  pub rows : Rows

unfoldable pub begin_snapshot : MemoryStore → MemorySnapshot
begin_snapshot s = record { primary_key = s.primary_key; rows = [] }

-- A key column of a snapshot row: its text.
abbrev pub key_text : Option Value → Result Error Text
key_text none = err Error.missing_key
key_text (some null) = err Error.missing_key
key_text (some unchanged) = err Error.missing_key
key_text (some (text t)) = ok t

-- The loop of `Put` over the primary key.
unfoldable pub row_key : List Text → Row → Result Error Key
row_key [] row = ok (λ _. none)
row_key (column ∷ columns) row = do
  t ← key_text (row column)
  rest ← row_key columns row
  ok (λ c. if text_eq column c then some t else rest c)

-- The loop of `Put` over the rows: the snapshot, and the error that stopped it.
unfoldable pub put : List Row → MemorySnapshot → MemorySnapshot × Option Error
put [] w = (w, none)
put (row ∷ rest) w = elim (row_key w.primary_key row >>= key_of w.primary_key) [
  | err e ↦ (w, some e)
  | ok id ↦ put rest (record w { rows = put_row id row w.rows })
]

unfoldable pub commit : MemorySnapshot → MemoryStore → MemoryStore
commit w s = record s { rows = w.rows; cursor = [] }

unfoldable pub abort : MemorySnapshot → MemorySnapshot
abort w = record w { rows = [] }
