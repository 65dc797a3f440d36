-- ===== src/Cdc/Relation.antt =====
-- internal/cdc/decoder.go: the relations of the stream (`relationInfo`), and the change that the
-- message of a row of one is decoded to.
use watchd.Base.{
  map, ◌==◌, ℕ, ◌+◌, List, [], ◌∷◌, Option, none, some, if◌then◌else◌, Text, Result, ok, err, ◌>>=◌,
  ◌>>◌, length, ◌==◌,
}
use watchd.Cdc.Transaction.{Operation, insert, delete, Value, Change, Incompatible}
use watchd.Cdc.Row.{TupleColumn, RowError, decode_row}
use watchd.Cdc.Keys.{key_from_values, check_key_tuple, tuple_entries, same_key}
use watchd.Cdc.Shape.{RelationColumn, RelationMessage, shape_of_relation, qualified_table, Shape}

-- `relationInfo`.
pub record RelationInfo : Type 0 where
  pub table : Text
  pub columns : List Text
  pub key_indexes : List ℕ
  pub oid : ℕ
  pub shape : Shape
  pub checked : ℕ
  pub incompatible : Option Incompatible

-- The loop of `newRelationInfo` over the flags, from a position on.
unfoldable pub key_positions : ℕ → List RelationColumn → List ℕ
key_positions index [] = []
key_positions index (c ∷ cs) =
    if c.flags == 1 then index ∷ key_positions (index + 1) cs else key_positions (index + 1) cs

-- `newRelationInfo`.
unfoldable pub new_relation_info : RelationMessage → RelationInfo
unfolding key_positions
new_relation_info m = record {
  table = qualified_table m.namespace m.relation_name;
  columns = map (λ c. c.column_name) m.relation_columns;
  key_indexes = key_positions 0 m.relation_columns;
  oid = m.relation_id;
  shape = shape_of_relation m;
  checked = 0;
  incompatible = none;
}

-- `decodeRow` in `insert` and `update`, and what follows it there.
unfoldable pub row_change :
    Operation → RelationInfo → Option (List TupleColumn) → ℕ → Result RowError Change
unfolding decode_row key_from_values
row_change operation info tuple max_value_bytes = do
  values ← decode_row (length info.columns) tuple max_value_bytes
  key ← key_from_values info.columns info.key_indexes values
  ok (record {
    operation = operation;
    table = info.table;
    key = key;
    columns = info.columns;
    values = values;
  })

-- `if message.OldTuple != nil { ... }`
unfoldable pub check_old :
    RelationInfo → Option (List TupleColumn) → List Value → ℕ → Result RowError (Unit {0})
unfolding check_key_tuple same_key
check_old info none values max_value_bytes = ok tt
check_old info (some tuple) values max_value_bytes =
    check_key_tuple (length info.columns) info.key_indexes (some tuple) max_value_bytes
    >> same_key (length info.columns) 0 info.key_indexes tuple values

-- `update`.
unfoldable pub update_change :
    RelationInfo
    → Option (List TupleColumn)
    → Option (List TupleColumn)
    → ℕ
    → Result RowError Change
unfolding row_change check_old
update_change info new old max_value_bytes = do
  change ← row_change Operation.update info new max_value_bytes
  check_old info old change.values max_value_bytes >> ok change

-- `delete`.
unfoldable pub delete_change : RelationInfo → Option (List TupleColumn) → ℕ → Result RowError Change
unfolding check_key_tuple tuple_entries
delete_change info none max_value_bytes = err RowError.missing_tuple
delete_change info (some tuple) max_value_bytes = do
  checked ← check_key_tuple (length info.columns) info.key_indexes (some tuple) max_value_bytes
  key ← tuple_entries info.columns 0 info.key_indexes tuple []
  ok (record { operation = delete; table = info.table; key = key; columns = []; values = [] })

-- The message of one row: `InsertMessage`, `UpdateMessage` and `DeleteMessage`.
pub data RowMessage : Type 0 where
  insert_message : Option (List TupleColumn) → RowMessage
  update_message : Option (List TupleColumn) → Option (List TupleColumn) → RowMessage
  delete_message : Option (List TupleColumn) → RowMessage

-- The change of a row's message.
unfoldable pub decode_change : RelationInfo → RowMessage → ℕ → Result RowError Change
unfolding row_change update_change delete_change
decode_change info (insert_message new) max_value_bytes = row_change insert info new max_value_bytes
decode_change info (update_message new old) max_value_bytes =
    update_change info new old max_value_bytes
decode_change info (delete_message old) max_value_bytes = delete_change info old max_value_bytes
