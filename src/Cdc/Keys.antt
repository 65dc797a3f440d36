-- ===== src/Cdc/Keys.antt =====
-- The keys of internal/cdc/decoder.go: the key of a row's values, and of an old tuple. A position
-- that has no column, where Go would panic, is the error `out_of_range`.
use watchd.Base.{
  ℕ, zero, suc, Bool, false, not, List, [], ◌∷◌, Option, none, some, if◌then◌else◌, Text, text_eq,
  Result, ok, err, ◌>>=◌, ◌>>◌, require, or_err, length, leb, ◌==◌, is_empty,
}
use watchd.Cdc.Transaction.{Value, null, text, unchanged_toast, Key}
use watchd.Cdc.Row.{
  TupleColumn, null_column, toast_column, text_column, other_column, data_of, RowError, check_row,
}

unfoldable pub get_elem? {ℓ} : {A : Type ℓ} → List A → ℕ → Option A
get_elem? [] n = none
get_elem? (x ∷ xs) zero = some x
get_elem? (x ∷ xs) (suc n) = get_elem? xs n

-- `key[column] = value`.
unfoldable pub put_entry : Text → Text → Key → Key
put_entry column v [] = (column, v) ∷ []
put_entry column v ((k, old) ∷ rest) =
    if text_eq k column then (k, v) ∷ rest else (k, old) ∷ put_entry column v rest

-- `value.Kind != ValueText || value.Text == ""`
abbrev pub key_text_of : Value → Result RowError Text
key_text_of null = err RowError.empty_key
key_text_of unchanged_toast = err RowError.empty_key
key_text_of (text t) = if is_empty t then err RowError.empty_key else ok t

-- The loop of `keyFromValues`, after the entries that are there.
unfoldable pub key_entries : List Text → List ℕ → List Value → Key → Result RowError Key
unfolding put_entry get_elem?
key_entries columns [] values key = ok key
key_entries columns (index ∷ indexes) values key = do
  v ← or_err (get_elem? values index) RowError.out_of_range
  t ← key_text_of v
  column ← or_err (get_elem? columns index) RowError.out_of_range
  key_entries columns indexes values (put_entry column t key)

-- `keyFromValues`.
unfoldable pub key_from_values : List Text → List ℕ → List Value → Result RowError Key
unfolding key_entries
key_from_values columns key_indexes values =
    require (not (is_empty key_indexes)) RowError.no_key
    >> key_entries columns key_indexes values []

-- `checkKeyColumn`.
unfoldable pub check_key_column : TupleColumn → ℕ → Result RowError (Unit {0})
check_key_column (text_column t) max_value_bytes =
    require (not (is_empty t)) RowError.empty_key
    >> require (leb (length t) max_value_bytes) RowError.value_too_large
check_key_column null_column max_value_bytes = err RowError.unsupported_encoding
check_key_column toast_column max_value_bytes = err RowError.unsupported_encoding
check_key_column (other_column t) max_value_bytes = err RowError.unsupported_encoding

unfoldable pub check_key_columns : List TupleColumn → ℕ → Result RowError (Unit {0})
unfolding check_key_column
check_key_columns [] max_value_bytes = ok tt
check_key_columns (c ∷ cs) max_value_bytes =
    check_key_column c max_value_bytes >> check_key_columns cs max_value_bytes

-- `column.DataType != pglogrepl.TupleDataTypeText || len(column.Data) == 0`
abbrev pub is_key_text : TupleColumn → Bool
is_key_text (text_column t) = not (is_empty t)
is_key_text null_column = false
is_key_text toast_column = false
is_key_text (other_column t) = false

unfoldable pub check_key_indexes : List ℕ → List TupleColumn → Result RowError (Unit {0})
unfolding get_elem?
check_key_indexes [] columns = ok tt
check_key_indexes (index ∷ indexes) columns = do
  c ← or_err (get_elem? columns index) RowError.out_of_range
  require (is_key_text c) RowError.empty_key
  check_key_indexes indexes columns

-- `checkKeyTuple`, by the number of the relation's columns.
unfoldable pub check_key_tuple :
    ℕ → List ℕ → Option (List TupleColumn) → ℕ → Result RowError (Unit {0})
unfolding check_row check_key_indexes check_key_columns
check_key_tuple count key_indexes none max_value_bytes = err RowError.missing_tuple
check_key_tuple count key_indexes (some columns) max_value_bytes =
    require (not (is_empty key_indexes)) RowError.no_key
    >> (if length columns == count
        then check_row count columns max_value_bytes
          >>= (λ text_bytes. check_key_indexes key_indexes columns)
        else if length columns == length key_indexes
        then check_key_columns columns max_value_bytes
        else err RowError.column_count)

-- `keyColumn`, for the `k`th key column, whose index among all is `index`.
unfoldable pub key_column : ℕ → List TupleColumn → ℕ → ℕ → Option TupleColumn
unfolding get_elem?
key_column count columns k index = get_elem? columns (if length columns == count then index else k)

-- The loops of `keyFromTuple`, from the `k`th key column on.
unfoldable pub tuple_entries : List Text → ℕ → List ℕ → List TupleColumn → Key → Result RowError Key
unfolding key_column put_entry get_elem?
tuple_entries columns k [] tuple key = ok key
tuple_entries columns k (index ∷ indexes) tuple key = do
  c ← or_err (key_column (length columns) tuple k index) RowError.out_of_range
  column ← or_err (get_elem? columns index) RowError.out_of_range
  tuple_entries columns (suc k) indexes tuple (put_entry column (data_of c) key)

-- The text of a value, empty where it is no text.
abbrev pub text_of : Value → Text
text_of (text t) = t
text_of null = []
text_of unchanged_toast = []

-- The loop of `update` over the key columns, from the `k`th on: the old key is the new one.
unfoldable pub same_key :
    ℕ → ℕ → List ℕ → List TupleColumn → List Value → Result RowError (Unit {0})
unfolding key_column get_elem?
same_key count k [] tuple values = ok tt
same_key count k (index ∷ indexes) tuple values = do
  c ← or_err (key_column count tuple k index) RowError.out_of_range
  v ← or_err (get_elem? values index) RowError.out_of_range
  require (text_eq (data_of c) (text_of v)) RowError.key_changed
  same_key count (suc k) indexes tuple values
