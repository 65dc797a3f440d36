-- ===== src/Cdc/Decoder.antt =====
-- The `Decoder` of internal/cdc/decoder.go: the messages of the stream, collected into committed
-- transactions. Messages are data of the replication library; `other_message` is a message of any
-- type that is not named. The texts of differences, which are for logs, are a parameter.
pub mod Limits
use watchd.Base.{
  ℤ, pos, negsuc, map, ◌*◌, ◌^◌, ◌==◌, ℕ, ◌+◌, ◌-◌, Bool, true, false, not, ◌||◌, List, [], ◌∷◌,
  ◌++◌, Option, none, some, if◌then◌else◌, Text, codes, text_eq, Result, ok, err, ◌>>=◌, ◌>>◌,
  require, or_err, length, leb, ltb, ◌==◌, update,
}
use watchd.Cdc.Cursor.{Cursor}
use watchd.Cdc.Transaction.{
  Operation, insert, delete, Value, null, text, unchanged_toast, Key, Change, Incompatible,
  Transaction,
}
use watchd.Cdc.Row.{TupleColumn, RowError, decode_row}
use watchd.Cdc.Keys.{key_from_values, check_key_tuple, tuple_entries, same_key}
use watchd.Cdc.Shape.{
  RelationColumn, RelationMessage, shape_of_relation, qualified_table, Shape, Shapes, Difference,
  diff,
}
use watchd.Cdc.Relation.{
  RelationInfo, key_positions, new_relation_info, row_change, check_old, update_change,
  delete_change, RowMessage, decode_change, insert_message, update_message, delete_message,
}
use watchd.Cdc.Assembly.{
  DecodeError, Decoder, limit_or, new_decoder_with_limits, new_decoder, in_transaction,
  pending_footprint, estimated_value_bytes, operation_bytes, key_bytes, values_bytes,
  estimated_change_bytes, append, transaction_in_progress, no_transaction, too_many_changes,
  too_large, unknown_relation, unsupported_message, row,
}

-- The loop of `report` over the events.
unfoldable pub reported : Text → List Incompatible → Bool
reported table [] = false
reported table (e ∷ es) = text_eq e.table table || reported table es

-- `report`.
unfoldable pub report : Incompatible → List Incompatible → List Incompatible
report event events = if reported event.table events then events else events ++ event ∷ []

-- The rename that `check` looks for.
abbrev pub report_renamed :
    (Text → Text) → RelationInfo → Option Shape → List Incompatible → List Incompatible
report_renamed renamed_to info none events = events
report_renamed renamed_to info (some baseline) events =
    if text_eq baseline.table info.table
    then events
    else report (record { table = baseline.table; difference = renamed_to info.table }) events

-- The difference that `check` finds to the table's baseline.
abbrev pub incompatible_with :
    (Difference → Text) → RelationInfo → Option Shape → Option Incompatible
incompatible_with describe info none = none
incompatible_with describe info (some baseline) = elim (diff baseline info.shape) [
  | none ↦ none
  | some d ↦ some (record { table = info.table; difference = describe d })
]

abbrev pub report_if : Option Incompatible → List Incompatible → List Incompatible
report_if none events = events
report_if (some event) events = report event events

pub data Message : Type 0 where
  relation_message : RelationMessage → Message
  begin_message : ℕ → Message
  row_message : ℕ → RowMessage → Message
  commit_message : ℕ → ℕ → Message
  metadata_message : Message
  other_message : Message

-- `fmt.Sprintf`, for the texts of differences.
pub record LogText : Type 0 where
  pub renamed_to : Text → Text
  pub describe : Difference → Text

-- An error of a row is an error of the decoder.
abbrev pub as_row : Result RowError Change → Result DecodeError Change
as_row (ok c) = ok c
as_row (err e) = err (row e)

module _ (log : LogText) where
  -- `check`, with the shapes that it reads: the relation as checked, and the events.
  unfoldable pub check_against :
      Shapes → RelationInfo → List Incompatible → RelationInfo × List Incompatible
  check_against s info events =
      let found = incompatible_with log.describe info (s.by_table info.table) in
      (
        record info { checked = s.gen; incompatible = found },
        report_if found (report_renamed log.renamed_to info (s.by_oid info.oid) events),
      )

  -- `check` of the relation with this number.
  unfoldable pub check : ℕ → RelationInfo → Decoder → Decoder
  check id info d = elim d.shapes [
    | none ↦ record d { relations = update d.relations id (some info) }
    | some s ↦
        let (info', events) = check_against s info d.events in
        record d { relations = update d.relations id (some info'); events = events }
  ]

  -- The check that `skip` repeats once a baseline has moved.
  abbrev pub recheck : Option Shapes → ℕ → RelationInfo → Decoder → Decoder
  recheck none id info d = d
  recheck (some s) id info d = if info.checked == s.gen then d else check id info d

  abbrev pub is_incompatible : Option RelationInfo → Bool
  is_incompatible none = false
  is_incompatible (some info) = elim info.incompatible [ none ↦ false | some e ↦ true ]

  -- `skip`.
  unfoldable pub skip : ℕ → Decoder → Result DecodeError (Decoder × Bool)
  skip id d = do
    info ← or_err (d.relations id) unknown_relation
    ok (recheck d.shapes id info d, is_incompatible ((recheck d.shapes id info d).relations id))

  -- The end of a row's message: the change is decoded and appended.
  unfoldable pub take_row : ℕ → RowMessage → Decoder → Result DecodeError Decoder
  unfolding append decode_change
  take_row id m d = do
    info ← or_err (d.relations id) unknown_relation
    change ← as_row (decode_change info m d.max_value_bytes)
    append change d

  -- `Consume` of a commit.
  abbrev pub commit_pending : ℕ → ℕ → List Change → Decoder → Decoder × Option Transaction
  commit_pending commit_lsn end_lsn changes d = (
    record d { events = []; pending = none; pending_bytes = 0 },
    some (record {
      cursor = record { source_id = []; lsn = end_lsn };
      changes = changes;
      incompatible = d.events;
      commit_lsn = commit_lsn;
      xid = d.pending_xid;
    }),
  )

  -- `Consume`. An error returns no decoder: the stream that it read for has failed.
  unfoldable pub consume : Message → Decoder → Result DecodeError (Decoder × Option Transaction)
  unfolding check skip take_row new_relation_info
  consume (relation_message m) d = ok (check m.relation_id (new_relation_info m) d, none)
  consume (begin_message xid) d = elim d.pending [
    | some changes ↦ err transaction_in_progress
    | none ↦ ok (record d { pending = some []; pending_xid = xid; pending_bytes = 0 }, none)
  ]
  consume (row_message id m) d = do
    (d', skipped) ← skip id d
    d'' ← if skipped then ok d' else take_row id m d'
    ok (d'', none)
  consume (commit_message commit_lsn end_lsn) d = do
    changes ← or_err d.pending no_transaction
    ok (commit_pending commit_lsn end_lsn changes d)
  consume metadata_message d = ok (d, none)
  consume other_message d = err unsupported_message
