-- ===== src/Sdk/Stream.antt =====
-- One stream of sdk/go/watchd/client.go: `stream`, `setState` and the conversions of a message. The
-- messages are those of the generated protocol code; `other` is a kind that this client does not
-- know. Times and metrics are left out, and so are the texts of errors.
pub mod Settled
use watchd.Base.{
  Bool, true, false, not, ◌&&◌, List, [], ◌∷◌, ◌++◌, Option, none, some, if◌then◌else◌, Text,
  text_eq, Result, ok, err, map, require,
}
use watchd.Sdk.Store.{Value, Row, Key, Operation, Change, Batch}
use watchd.Wire.{
  ValueMessage, text_value, null_value, unchanged_toast_value, other_value, Values,
  OperationMessage, operation_insert, operation_update, operation_delete, other_operation,
  ChangeMessage, BatchMessage, WatchResponse, snapshot_begin, snapshot_rows, snapshot_end, batch,
  progress, resync, other, Code, not_found, invalid_argument, failed_precondition,
  permission_denied, unauthenticated, unimplemented, other_code, ReasonMessage, unavailable,
  internal,
}
use watchd.Sdk.Interface.{Store}

-- Why a stream ended: for a resync, for an error of the store, or for another error.
pub data StreamError {ℓ} (E : Type ℓ) : Type ℓ where
  resync_error : StreamError E
  store_error : E → StreamError E
  status_error : Code → StreamError E

-- The loop of `convertValues`, at one column.
abbrev pub convert_value : ValueMessage → Option Value
convert_value (text_value t) = some (Value.text t)
convert_value null_value = some Value.null
convert_value unchanged_toast_value = some Value.unchanged
convert_value other_value = none

abbrev pub convert_found : Option ValueMessage → Option Value
convert_found none = none
convert_found (some v) = convert_value v

-- `convertValues`.
unfoldable pub convert_values : Values → Row
convert_values values column = convert_found (values column)

-- `operations`.
abbrev pub operations : OperationMessage → Operation
operations operation_insert = Operation.insert
operations operation_update = Operation.update
operations operation_delete = Operation.delete
operations other_operation = Operation.unknown

-- `convertBatch`.
unfoldable pub convert_batch : BatchMessage → Batch
unfolding convert_values
convert_batch b = record {
  cursor = b.cursor;
  changes =
      map
        (λ (c : ChangeMessage). record {
          operation = operations c.operation;
          table = c.table;
          key = c.key;
          values = convert_values c.values;
        })
        b.changes;
}

pub record State : Type 0 where
  pub fresh : Bool
  pub cursor : Text

-- `syncer`, with the states that were given to `OnState`, the latest first.
pub record Syncer : Type 0 where
  pub state : State
  pub reported : Bool
  pub progressed : Bool
  pub seen : List State

abbrev pub same_bool : Bool → Bool → Bool
same_bool true b = b
same_bool false b = not b

-- `setState`.
unfoldable pub set_state : Bool → Text → Syncer → Syncer
set_state fresh cursor s =
    if s.reported && (same_bool fresh s.state.fresh && text_eq cursor s.state.cursor)
    then s
    else record {
      state = record { fresh = fresh; cursor = cursor };
      reported = true;
      progressed = s.progressed;
      seen = record { fresh = fresh; cursor = cursor } ∷ s.seen;
    }

-- The variables of `stream`: its store, its syncer and the writer of the snapshot it is in.
pub record Reading {ℓ κ} (S : Type ℓ) (W : Type κ) : Type (ℓ ⊔ κ) where
  pub store : S
  pub syncer : Syncer
  pub writer : Option W

module _ {ℓ κ μ} {S : Type ℓ} {W : Type κ} {E : Type μ} (ops : Store S W E) where
  -- One event: what is read on with, and the error that ends the stream.
  abbrev pub Handled : Type (ℓ ⊔ κ ⊔ μ)
  Handled = Reading S W × Option (StreamError E)

  abbrev pub after_store : Reading S W → S × Option E → Handled
  after_store r (x, none) = (record r { store = x }, none)
  after_store r (x, some e) = (record r { store = x }, some (store_error e))

  -- `SnapshotBegin`.
  abbrev pub began : Reading S W → S × Result E W → Handled
  began r (x, ok w) = (record r { store = x; writer = some w }, none)
  began r (x, err e) = (record r { store = x; writer = none }, some (store_error e))

  -- `SnapshotRows`, with the writer.
  abbrev pub took_rows : Reading S W → (W × S) × Option E → Handled
  took_rows r ((w, x), none) = (record r { store = x; writer = some w }, none)
  took_rows r ((w, x), some e) = (record r { store = x; writer = some w }, some (store_error e))

  -- `Progress`, once the cursor is saved.
  abbrev pub progressed_to : Text → Handled → Handled
  progressed_to cursor (r, some e) = (r, some e)
  progressed_to cursor (r, none) =
      (record r { syncer = set_state true cursor (record r.syncer { progressed = true }) }, none)

  -- The body of the loop of `stream`.
  unfoldable pub handle : WatchResponse → Reading S W → Handled
  unfolding set_state convert_batch convert_values
  handle snapshot_begin r =
      began (record r { syncer = set_state false [] r.syncer }) (ops.begin_snapshot r.store)
  handle (snapshot_rows rows) r = elim r.writer [
    | none ↦ (r, some (status_error other_code))
    | some w ↦ took_rows r (ops.put (map convert_values rows) w r.store)
  ]
  handle snapshot_end r = elim r.writer [
    | none ↦ (r, some (status_error other_code))
    | some w ↦ after_store (record r { writer = none }) (ops.commit w r.store)
  ]
  handle (batch b) r = elim r.writer [
    | some w ↦ (r, some (status_error other_code))
    | none ↦ after_store r (ops.apply (convert_batch b) r.store)
  ]
  handle (progress cursor) r = elim r.writer [
    | some w ↦ (r, some (status_error other_code))
    | none ↦ progressed_to cursor (after_store r (ops.save_cursor cursor r.store))
  ]
  handle (resync reason) r = (r, some resync_error)
  handle other r = (r, some (status_error other_code))

  -- The loop over the events that come in, and then the code of the error that `Recv` returns; the
  -- end of the stream is an error too.
  unfoldable pub handle_all : List WatchResponse → Code → Reading S W → Reading S W × StreamError E
  unfolding handle
  handle_all [] code r = (r, status_error code)
  handle_all (e ∷ es) code r =
      let (r', error) = handle e r in
      let rest = handle_all es code r' in elim error [ some x ↦ (r', x) | none ↦ rest ]

  -- The deferred `Abort`.
  abbrev pub close_writer : Reading S W × StreamError E → (S × Syncer) × StreamError E
  close_writer (r, e) =
      ((elim r.writer [ none ↦ r.store | some w ↦ ops.abort w r.store ], r.syncer), e)

  -- The cursor that the stream resumes from.
  abbrev pub resume_cursor : Bool → S → Result E Text
  resume_cursor true x = ok []
  resume_cursor false x = ops.cursor x

  -- `stream`: the server answers the request for a cursor with an error, or with events.
  unfoldable pub stream :
      Bool
      → (Text → Result Code (List WatchResponse × Code))
      → S
      → Syncer
      → (S × Syncer) × StreamError E
  unfolding handle_all
  stream snapshot watch x s =
      let s' = record s { progressed = false } in
      elim (resume_cursor snapshot x) [
        | err e ↦ ((x, s'), store_error e)
        | ok cursor ↦ elim (watch cursor) [
          | err code ↦ ((x, s'), status_error code)
          | ok answer ↦
              close_writer
                (handle_all answer.0 answer.1 (record { store = x; syncer = s'; writer = none }))
        ]
      ]
