-- ===== src/Cdc/Transaction.antt =====
-- internal/cdc/types.go: row changes and the transactions that carry them.
use watchd.Base.{
  ℕ, Text, text_eq, if◌then◌else◌, Bool, not, List, [], ◌∷◌, Option, none, some, leb, Result, ok,
  err,
}
use watchd.Cdc.Error.{Error}
use watchd.Cdc.Cursor.{Cursor}

pub data Operation : Type 0 where
  insert update delete : Operation

-- `Value` with its kind; text is there for `ValueText` only.
pub data Value : Type 0 where
  null : Value
  text : Text → Value
  unchanged_toast : Value

-- A `map[string]string`, as the list of its entries.
abbrev pub Key : Type 0
Key = List (Text × Text)

-- `Change`. The column names are those of `Columns`, beside the values.
pub record Change : Type 0 where
  pub operation : Operation
  pub table : Text
  pub key : Key
  pub columns : List Text
  pub values : List Value

-- A map read: the zero value, an empty string, for a missing key.
unfoldable pub key_value : Key → Text → Text
key_value [] column = []
key_value ((k, v) ∷ rest) column = if text_eq k column then v else key_value rest column

-- `Change.Value`: the value at the first column of the name. The columns and values of a change
-- have one length; where they did not, Go's `c.Values[i]` panics, here `none`.
unfoldable pub value : List Text → List Value → Text → Option Value
value [] values name = none
value (column ∷ columns) [] name = none
value (column ∷ columns) (v ∷ values) name =
    if text_eq column name then some v else value columns values name

-- `IncompatibleRelationError`, by its table; the difference is a text for logs.
pub record Incompatible : Type 0 where
  pub table : Text
  pub difference : Text

-- `Transaction`. The commit time is informational and left out.
pub record Transaction : Type 0 where
  pub cursor : Cursor
  pub changes : List Change
  pub incompatible : List Incompatible
  pub commit_lsn : ℕ
  pub xid : ℕ

-- `After`: must a consumer that resumes from `c` still apply `t`?
unfoldable pub after : Transaction → Cursor → Result Error Bool
after t c =
    if not (text_eq t.cursor.source_id c.source_id)
    then err Error.different_sources
    else ok (leb c.lsn t.commit_lsn)

pub record ProjectionSpec : Type 0 where
  pub source_id : Text
  pub schema : Text
  pub table : Text
  pub scope_column : Text
  pub primary_key : List Text
