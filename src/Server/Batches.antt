-- ===== src/Server/Batches.antt =====
-- A batch from internal/server/server.go to sdk/go/watchd/client.go: what the client reads is what
-- the hub sent.
use mathlib.Core.Path.{fun_ext}
use watchd.Base.{
  ◌≡◌, ◌≤◌, refl, ap, subst, Bool, true, false, List, [], ◌∷◌, map, Option, none, some,
  if◌then◌else◌, Text, text_eq, text_eq_iff, ok, length, All, arith, Bool-cases, inl, inr,
}
use watchd.Cdc.Cursor.{LsnText}
use watchd.Cdc.Transaction.{Value, null, text, unchanged_toast, Operation, Change, value}
use watchd.Watch.Event.{Batch}
use watchd.Wire.{ValueMessage, ChangeMessage, BatchMessage, WatchResponse, batch}
use watchd.Server.{
  Server, Proto, Answer, value_message, put_value, convert_change_values, entry, convert_change,
  convert_changes, operations, convert_batch, batch_message, encode_cursor,
}
use watchd.Sdk.Store
use watchd.Sdk.Stream
use watchd.Sdk.Stream.{convert_values, convert_found}

-- The client's kinds of value and operation, for the source's.
abbrev pub client_value : Value → Store.Value
client_value (text t) = Store.Value.text t
client_value null = Store.Value.null
client_value unchanged_toast = Store.Value.unchanged

abbrev pub client_found : Option Value → Option Store.Value
client_found none = none
client_found (some v) = some (client_value v)

abbrev pub client_operation : Operation → Store.Operation
client_operation Operation.insert = Store.Operation.insert
client_operation Operation.update = Store.Operation.update
client_operation Operation.delete = Store.Operation.delete

-- The change as the client's store is given it: every column has the value that `Change.Value`
-- finds for it.
abbrev pub client_change : Change → Store.Change
client_change c = record {
  operation = client_operation c.operation;
  table = c.table;
  key = entry c.key;
  values = λ column. client_found (value c.columns c.values column);
}

-- The columns of a change have different names, and no value is without one.
abbrev pub Distinct : List Text → Type 0
Distinct [] = Unit
Distinct (column ∷ columns) = All (λ other. text_eq other column ≡ false) columns × Distinct columns

abbrev pub Sized : Change → Type 0
Sized c = Distinct c.columns × (length c.values ≤ length c.columns)

abbrev message_found : Option Value → Option ValueMessage
message_found none = none
message_found (some v) = some (value_message v)

value_absent :
    (columns : List Text) (values : List Value) (column : Text)
    → All (λ other. text_eq other column ≡ false) columns
    → value columns values column ≡ none
unfolding value
value_absent [] values column h = refl
value_absent (c ∷ columns) [] column h = refl
value_absent (c ∷ columns) (v ∷ values) column h = rw h.0 (value_absent columns values column h.1)

-- What `put_value` leaves at a column: does the name match, and what is there from the rest?
put_value_cases :
    (matches : Bool) (rest : Option Value) (v : Value)
    → (matches ≡ true → rest ≡ none)
    → (elim (message_found rest) [
      | some w ↦ some w
      | none ↦ if matches then some (value_message v) else none
    ])
      ≡ message_found (if matches then some v else rest)
put_value_cases true none v h = refl
put_value_cases true (some w) v h = absurd (ground (arith, h))
put_value_cases false none v h = refl
put_value_cases false (some w) v h = refl

put_value_found :
    (c : Text) (v : Value) (columns : List Text) (values : List Value) (column : Text)
    → All (λ other. text_eq other c ≡ false) columns
    → put_value c (value_message v) (λ d. message_found (value columns values d)) column
      ≡ message_found (value (c ∷ columns) (v ∷ values) column)
unfolding value
put_value_found c v columns values column h =
    put_value_cases (text_eq c column) (value columns values column) v λ e.
      value_absent columns values column
        (subst (λ d. All (λ other. text_eq other d ≡ false) columns) ((text_eq_iff c column).0 e) h)

convert_change_values_found :
    (columns : List Text) (values : List Value)
    → Distinct columns
    → length values ≤ length columns
    → convert_change_values columns values
      ≡ ok (λ column. message_found (value columns values column))
unfolding convert_change_values value
convert_change_values_found [] [] d l = refl
convert_change_values_found (c ∷ columns) [] d l = refl
convert_change_values_found [] (v ∷ values) d l = absurd (omega arith)
convert_change_values_found (c ∷ columns) (v ∷ values) d l =
    rw (convert_change_values_found columns values d.1 (omega arith))
      (ap ok (fun_ext λ column. put_value_found c v columns values column d.0))

message_client : (o : Option Value) → convert_found (message_found o) ≡ client_found o
message_client none = refl
message_client (some (text t)) = refl
message_client (some null) = refl
message_client (some unchanged_toast) = refl

abbrev message_of : Change → ChangeMessage
message_of c = record {
  operation = operations c.operation;
  table = c.table;
  key = entry c.key;
  values = λ column. message_found (value c.columns c.values column);
}

convert_changes_of : (cs : List Change) → All Sized cs → convert_changes cs ≡ ok (map message_of cs)
unfolding convert_changes convert_change
convert_changes_of [] h = refl
convert_changes_of (c ∷ cs) h =
    rw (convert_change_values_found c.columns c.values h.0.0 h.0.1, convert_changes_of cs h.1) refl

operation_client : (o : Operation) → Stream.operations (operations o) ≡ client_operation o
operation_client Operation.insert = refl
operation_client Operation.update = refl
operation_client Operation.delete = refl

values_client :
    (columns : List Text) (values : List Value)
    → convert_values (λ column. message_found (value columns values column))
      ≡ (λ column. client_found (value columns values column))
unfolding convert_values
values_client columns values = fun_ext λ column. message_client (value columns values column)

abbrev read_change : ChangeMessage → Store.Change
read_change m = record {
  operation = Stream.operations m.operation;
  table = m.table;
  key = m.key;
  values = convert_values m.values;
}

read_change_client : (c : Change) → read_change (message_of c) ≡ client_change c
read_change_client c = rw (operation_client c.operation, values_client c.columns c.values) refl

read_changes_client :
    (cs : List Change) → map read_change (map message_of cs) ≡ map client_change cs
read_changes_client [] = refl
read_changes_client (c ∷ cs) = rw (read_change_client c, read_changes_client cs) refl

convert_batch_of :
    (proto : Proto) (lsn : LsnText) (s : Server) (answer : Answer) (b : Batch)
    → convert_changes b.changes ≡ ok (map message_of b.changes)
    → convert_batch proto lsn s answer b
      ≡ ok (
          batch
            (record { cursor = encode_cursor lsn s b.cursor; changes = map message_of b.changes }))
unfolding convert_batch
convert_batch_of proto lsn s answer b made = rw made refl

batch_message_of :
    (proto : Proto) (lsn : LsnText) (s : Server) (answer : Answer) (b : Batch) (m : BatchMessage)
    → convert_batch proto lsn s answer b ≡ ok (batch m)
    → (convert_batch proto lsn s answer b ≡ ok (batch m) → proto.marshal (batch m) ≡ some (batch m))
    → batch_message proto lsn s answer b ≡ ok (batch m)
unfolding batch_message
batch_message_of proto lsn s answer b m made reads = elim (Bool-cases b.memo) [
  | inl e ↦ rw (made, e, reads made) refl
  | inr e ↦ rw (made, e) refl
]

-- Where no two columns of a change have one name, each value has a column, and what a client reads
-- from the bytes of a batch's message is that message, the server makes a message of every batch,
-- and the client converts it to the batch of its own: under the cursor's text, the same changes in
-- order, with the same operations, tables and keys, and for every column name the value that
-- `Change.Value` finds, also where the message is made once for all watchers.
pub batch_message_received :
    (proto : Proto) (lsn : LsnText) (s : Server) (answer : Answer) (b : Batch)
    → All Sized b.changes
    → ((m : WatchResponse) → convert_batch proto lsn s answer b ≡ ok m → proto.marshal m ≡ some m)
    → (m : BatchMessage) × (batch_message proto lsn s answer b ≡ ok (batch m))
      × (Stream.convert_batch m
          ≡ record { cursor = encode_cursor lsn s b.cursor; changes = map client_change b.changes })
unfolding batch_message convert_batch Stream.convert_batch
batch_message_received proto lsn s answer b sized reads =
    let m : BatchMessage = record {
      cursor = encode_cursor lsn s b.cursor;
      changes = map message_of b.changes;
    } in
    (
      m,
      batch_message_of proto lsn s answer b m
          (convert_batch_of proto lsn s answer b (convert_changes_of b.changes sized))
          (reads (batch m)),
      ap (λ cs. record { cursor = encode_cursor lsn s b.cursor; changes = cs })
          (read_changes_client b.changes),
    )
