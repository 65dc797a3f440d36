-- ===== src/Cdc/Row.antt =====
-- The row tuples of internal/cdc/decoder.go: how a relation's tuple becomes the values of a
-- change. A tuple's columns are data of the replication library; its type bytes are constructors
-- here, and `other_column` is any other byte. Errors are by what is wrong; their texts are
-- dropped.
pub mod Decode
use watchd.Base.{
  ℕ, ◌+◌, Bool, true, false, not, List, [], ◌∷◌, ◌++◌, Option, none, some, if◌then◌else◌, Text,
  Result, ok, err, ◌>>=◌, ◌>>◌, require, length, leb, ◌==◌, take, drop,
}
use watchd.Cdc.Transaction.{Value, null, text, unchanged_toast}

-- `pglogrepl.TupleDataColumn`.
pub data TupleColumn : Type 0 where
  null_column : TupleColumn
  toast_column : TupleColumn
  text_column : Text → TupleColumn
  other_column : Text → TupleColumn

-- `column.Data`, which null and unchanged columns do not have.
abbrev pub data_of : TupleColumn → Text
data_of null_column = []
data_of toast_column = []
data_of (text_column t) = t
data_of (other_column t) = t

pub data RowError : Type 0 where
  missing_tuple : RowError
  column_count : RowError
  value_too_large : RowError
  unsupported_encoding : RowError
  no_key : RowError
  empty_key : RowError
  key_changed : RowError
  out_of_range : RowError

-- `checkColumn`.
unfoldable pub check_column : TupleColumn → ℕ → Result RowError (Unit {0})
check_column null_column max_value_bytes = ok tt
check_column toast_column max_value_bytes = ok tt
check_column (text_column t) max_value_bytes =
    require (leb (length t) max_value_bytes) value_too_large
check_column (other_column t) max_value_bytes = err unsupported_encoding

-- The loop of `checkRow`.
unfoldable pub check_columns : ℕ → List TupleColumn → ℕ → Result RowError ℕ
unfolding check_column
check_columns text_bytes [] max_value_bytes = ok text_bytes
check_columns text_bytes (c ∷ cs) max_value_bytes =
    check_column c max_value_bytes
    >> check_columns (text_bytes + length (data_of c)) cs max_value_bytes

-- `checkRow`, by the number of the relation's columns.
unfoldable pub check_row : ℕ → List TupleColumn → ℕ → Result RowError ℕ
unfolding check_columns
check_row count columns max_value_bytes =
    require (length columns == count) column_count >> check_columns 0 columns max_value_bytes

-- The first loop of `decodeRow`: all the row's text, in one.
unfoldable pub row_text : List TupleColumn → Text
row_text [] = []
row_text (text_column t ∷ cs) = t ++ row_text cs
row_text (_ ∷ cs) = row_text cs

-- `text[offset:end]`.
abbrev pub slice : Text → ℕ → ℕ → Text
slice t offset size = take size (drop offset t)

-- The second loop of `decodeRow`: each text value is a part of the row's text.
unfoldable pub values_from : Text → ℕ → List TupleColumn → List Value
values_from row offset [] = []
values_from row offset (text_column t ∷ cs) =
    text (slice row offset (length t)) ∷ values_from row (offset + length t) cs
values_from row offset (toast_column ∷ cs) = unchanged_toast ∷ values_from row offset cs
values_from row offset (null_column ∷ cs) = null ∷ values_from row offset cs
values_from row offset (other_column t ∷ cs) = null ∷ values_from row offset cs

-- `decodeRow`.
unfoldable pub decode_row : ℕ → Option (List TupleColumn) → ℕ → Result RowError (List Value)
unfolding check_row values_from row_text
decode_row count none max_value_bytes = err missing_tuple
decode_row count (some columns) max_value_bytes =
    check_row count columns max_value_bytes >>= λ text_bytes.
    ok (values_from (row_text columns) 0 columns)
