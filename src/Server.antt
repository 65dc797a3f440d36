-- ===== src/Server.antt =====
-- internal/server/server.go: what the server sends for the events of a watch, and the cursors of the
-- wire. The sizes and bytes of messages are the protocol buffers library's (`Proto`); what `Send`
-- answers depends on all that was sent (`Answer`). Metrics and logs are left out.
pub mod Cursors
pub mod Rows
pub mod Batches
pub mod Calls
use watchd.Base.{
  ℤ, pos, negsuc, ℕ, ◌+◌, ◌^◌, Bool, true, false, not, ◌||◌, List, [], ◌∷◌, ◌++◌, map, Option, none,
  some, if◌then◌else◌, ltb, ◌==◌, Text, text_eq, Result, ok, err, ◌>>=◌, ◌>>◌, is_empty, mem,
}
use watchd.Cdc.Error.{Error}
use watchd.Cdc.Cursor.{
  Cursor, Order, precedes, equals, follows, compare, LsnText, string, parse_cursor,
}
use watchd.Cdc.Transaction.{Value, null, text, unchanged_toast, Operation, Key, Change}
use watchd.Cdc.Failure.{Kind}
use watchd.Watch.Event.{ResyncReason, SnapshotRow, Batch, Event}
use watchd.Wire.{
  ValueMessage, Values, OperationMessage, ChangeMessage, BatchMessage, WatchResponse, ReasonMessage,
  Code, not_found, invalid_argument, failed_precondition, unavailable, internal,
}

-- `Server`, without its watcher.
pub record Server : Type 0 where
  pub source_id : Text
  pub max_rows_message_bytes : ℕ

-- `Config`, by the fields that are checked: is there a watcher?
pub record Config : Type 0 where
  pub source_id : Text
  pub has_watcher : Bool
  pub max_rows_message_bytes : ℤ

-- The limit of `New`: a negative one is refused, zero is the default.
abbrev pub rows_limit : ℤ → Option ℕ
rows_limit (negsuc n) = none
rows_limit (pos n) = some (if n == 0 then 2 ^ 20 else n)

-- `New`: `none` is `ErrInvalidConfig`. The separator of cursors is the byte 64.
unfoldable pub new_server : Config → Option Server
new_server c =
    if is_empty c.source_id || (mem 64 c.source_id || not c.has_watcher)
    then none
    else elim (rows_limit c.max_rows_message_bytes) [
      | none ↦ none
      | some n ↦ some (record { source_id = c.source_id; max_rows_message_bytes = n })
    ]

-- `strings.Cut` at one byte.
unfoldable pub cut : ℕ → Text → Option (Text × Text)
cut sep [] = none
cut sep (b ∷ bs) =
    let rest = cut sep bs in
    if b == sep then some ([], bs) else elim rest [ none ↦ none | some r ↦ some (b ∷ r.0, r.1) ]

module _ (lsn : LsnText) (s : Server) where
  -- `encodeCursor`.
  unfoldable pub encode_cursor : Cursor → Text
  unfolding string
  encode_cursor c = s.source_id ++ 64 ∷ string lsn c

  -- `decodeCursor`; the errors differ in their texts only.
  unfoldable pub decode_cursor : Text → Result Error Cursor
  unfolding cut parse_cursor
  decode_cursor t = elim (cut 64 t) [
    | none ↦ err Error.invalid_cursor
    | some (source_id, position) ↦
        if not (text_eq source_id s.source_id)
        then err Error.different_sources
        else parse_cursor lsn s.source_id position
  ]

  -- `Watch`, up to the call of the watcher: the cursor to resume from, empty for none.
  unfoldable pub resume_of : Text → Result Code Text
  unfolding decode_cursor string
  resume_of [] = ok []
  resume_of (b ∷ bs) = elim (decode_cursor (b ∷ bs)) [
    | err e ↦ err invalid_argument
    | ok c ↦ ok (string lsn c)
  ]

  -- `CompareCursors`.
  unfoldable pub compare_cursors : Text → Text → Result Code Order
  unfolding decode_cursor compare
  compare_cursors left right =
      elim (decode_cursor left >>= λ l. decode_cursor right >>= compare l) [
        | err e ↦ err invalid_argument
        | ok order ↦ ok order
      ]

-- Why a message was not sent: `Send` failed, it could not be encoded, or Go panics for a value
-- without a column.
pub data SendError : Type 0 where
  send_failed : Code → SendError
  not_encoded no_column : SendError

-- The protocol buffers library: the size of a row's message, and what a client reads from the bytes
-- of a message, where they can be made.
pub record Proto : Type 0 where
  pub size : Values → ℕ
  pub marshal : WatchResponse → Option WatchResponse

abbrev pub value_message : Value → ValueMessage
value_message (text t) = ValueMessage.text_value t
value_message null = ValueMessage.null_value
value_message unchanged_toast = ValueMessage.unchanged_toast_value

-- `converted[column] = ...`, where the loop goes on to write the rest.
abbrev pub put_value : Text → ValueMessage → Values → Values
put_value column v rest c = elim (rest c) [
  | some w ↦ some w
  | none ↦ if text_eq column c then some v else none
]

-- `convertChangeValues`: a value's column is that of its index.
unfoldable pub convert_change_values : List Text → List Value → Result SendError Values
convert_change_values columns [] = ok (λ c. none)
convert_change_values [] (v ∷ values) = err no_column
convert_change_values (column ∷ columns) (v ∷ values) =
    convert_change_values columns values >>= λ rest. ok (put_value column (value_message v) rest)

-- `operations`.
abbrev pub operations : Operation → OperationMessage
operations Operation.insert = OperationMessage.operation_insert
operations Operation.update = OperationMessage.operation_update
operations Operation.delete = OperationMessage.operation_delete

-- A map with string keys, from its entries.
unfoldable pub entry : Key → Text → Option Text
entry [] column = none
entry ((k, v) ∷ rest) column = if text_eq k column then some v else entry rest column

-- `convertChange`.
unfoldable pub convert_change : Change → Result SendError ChangeMessage
unfolding convert_change_values entry
convert_change c = convert_change_values c.columns c.values >>= λ values. ok (record {
  operation = operations c.operation;
  table = c.table;
  key = entry c.key;
  values = values;
})

-- The loop of `convertBatch`.
unfoldable pub convert_changes : List Change → Result SendError (List ChangeMessage)
unfolding convert_change
convert_changes [] = ok []
convert_changes (c ∷ cs) = do m ← convert_change c; ms ← convert_changes cs; ok (m ∷ ms)

-- `convertRow` and `convertValues`, of a row whose columns are texts or NULL.
unfoldable pub convert_row : SnapshotRow → Values
convert_row [] column = none
convert_row ((k, some t) ∷ rest) column =
    if text_eq k column then some (ValueMessage.text_value t) else convert_row rest column
convert_row ((k, none) ∷ rest) column =
    if text_eq k column then some ValueMessage.null_value else convert_row rest column

-- `resyncReasons`.
abbrev pub resync_reasons : ResyncReason → ReasonMessage
resync_reasons ResyncReason.cursor_unavailable = ReasonMessage.cursor_unavailable
resync_reasons ResyncReason.slow_watcher = ReasonMessage.slow_watcher
resync_reasons ResyncReason.snapshot_window_closed = ReasonMessage.snapshot_window_closed
resync_reasons ResyncReason.source_stopped = ReasonMessage.source_stopped
resync_reasons ResyncReason.schema_changed = ReasonMessage.schema_changed

-- What `Send` answers to the last of all messages that were sent.
abbrev pub Answer : Type 0
Answer = List WatchResponse → Option Code

-- The messages sent, and the error that stopped it.
abbrev pub Sent : Type 0
Sent = List WatchResponse × Option SendError

abbrev pub answered : Option Code → Option SendError
answered none = none
answered (some code) = some (send_failed code)

-- `sendMessage`.
unfoldable pub send_message : Answer → WatchResponse → List WatchResponse → Sent
send_message answer m sent = (sent ++ m ∷ [], answered (answer (sent ++ m ∷ [])))

-- `flush` of `sendRows`.
unfoldable pub flush : Answer → List Values → List WatchResponse → Sent
unfolding send_message
flush answer [] sent = (sent, none)
flush answer (row ∷ rows) sent = send_message answer (WatchResponse.snapshot_rows (row ∷ rows)) sent

-- `if err := ...; err != nil { return err }`
abbrev pub and_then : Sent → (List WatchResponse → Sent) → Sent
and_then (sent, none) k = k sent
and_then (sent, some e) k = (sent, some e)

module _ (proto : Proto) (lsn : LsnText) (s : Server) (answer : Answer) where
  -- The loop of `sendRows`, with the message it collects and its size.
  unfoldable pub pack_rows : List Values → List Values → ℕ → List WatchResponse → Sent
  unfolding flush
  pack_rows [] message bytes sent = flush answer message sent
  pack_rows (row ∷ rows) message bytes sent =
      let rest = pack_rows rows in
      if ltb s.max_rows_message_bytes (bytes + proto.size row)
      then and_then (flush answer message sent) (rest (row ∷ []) (proto.size row))
      else rest (message ++ row ∷ []) (bytes + proto.size row) sent

  -- `sendRows`.
  unfoldable pub send_rows : List SnapshotRow → List WatchResponse → Sent
  unfolding pack_rows convert_row
  send_rows rows sent = pack_rows (map convert_row rows) [] 0 sent

  -- `convertBatch`.
  unfoldable pub convert_batch : Batch → Result SendError WatchResponse
  unfolding convert_changes encode_cursor
  convert_batch b = convert_changes b.changes >>= λ changes.
      ok (WatchResponse.batch (record { cursor = encode_cursor lsn s b.cursor; changes = changes }))

  abbrev pub encoded : Option WatchResponse → Result SendError WatchResponse
  encoded none = err not_encoded
  encoded (some m) = ok m

  -- `batchMessage`, and `encodedMessage` for a batch that others share.
  unfoldable pub batch_message : Batch → Result SendError WatchResponse
  unfolding convert_batch
  batch_message b = convert_batch b >>= λ m. if b.memo then encoded (proto.marshal m) else ok m

  abbrev pub send_result : Result SendError WatchResponse → List WatchResponse → Sent
  send_result (err e) sent = (sent, some e)
  send_result (ok m) sent = send_message answer m sent

  -- `send`.
  unfoldable pub send : Event → List WatchResponse → Sent
  unfolding send_message send_rows batch_message encode_cursor
  send Event.snapshot_begin sent = send_message answer WatchResponse.snapshot_begin sent
  send (Event.snapshot_rows rows) sent = send_rows rows sent
  send Event.snapshot_end sent = send_message answer WatchResponse.snapshot_end sent
  send (Event.batch b) sent = send_result (batch_message b) sent
  send (Event.progress c) sent =
      send_message answer (WatchResponse.progress (encode_cursor lsn s c)) sent
  send (Event.resync reason) sent =
      send_message answer (WatchResponse.resync (resync_reasons reason)) sent

-- What a watch may return, by the errors that `status` tells apart.
pub data WatchError : Type 0 where
  unknown_projection source_not_started other_error : WatchError
  cdc_error : Error → WatchError
  reader_error : Kind → WatchError
  with_status : Code → WatchError

abbrev pub kind_code : Kind → Code
kind_code Kind.source_unavailable = unavailable
kind_code Kind.slot_in_use = unavailable
kind_code Kind.invalid_reader_config = failed_precondition
kind_code Kind.insufficient_privileges = failed_precondition
kind_code kind = internal

abbrev pub cdc_code : Error → Code
cdc_code Error.invalid_cursor = invalid_argument
cdc_code e = internal

abbrev pub code_of : WatchError → Code
code_of (with_status code) = code
code_of unknown_projection = not_found
code_of (cdc_error e) = cdc_code e
code_of source_not_started = unavailable
code_of (reader_error kind) = kind_code kind
code_of other_error = internal

-- `status`: a context that ended comes first.
unfoldable pub status : Option Code → Option WatchError → Option Code
status context none = none
status (some code) (some e) = some code
status none (some e) = some (code_of e)
