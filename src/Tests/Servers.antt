-- ===== src/Tests/Servers.antt =====
-- internal/server/server.go on concrete inputs: a server of the source "s" with a limit of three.
use watchd.Base.{
  ℕ, ◌≡◌, refl, true, [], ◌∷◌, map, Option, none, some, Text, codes, ok, arith, text_eq,
}
use watchd.Cdc.Cursor.{Cursor, LsnText}
use watchd.Cdc.Transaction.{Value, Operation, Change}
use watchd.Watch.Event.{SnapshotRow, Batch}
use watchd.Wire.{WatchResponse, BatchMessage}
use watchd.Server.{
  Server, Proto, Answer, encode_cursor, decode_cursor, send_rows, pack_rows, flush, send_message,
  convert_row, batch_message,
}
use watchd.Server.Cursors.{decode_cursor-encode_cursor}
use watchd.Server.Rows.{Packs, send_rows-Packs}
use watchd.Server.Batches.{client_change, batch_message_received}
use watchd.Sdk.Stream

abbrev parse_toy : Text → Option ℕ
parse_toy [] = none
parse_toy (b ∷ bs) = some b

-- A number's text is the number as one letter.
abbrev pub toy_lsn : LsnText
toy_lsn = record { lsn_text = λ n. n ∷ []; parse_lsn = parse_toy }

abbrev server : Server
server = record { source_id = codes "s"; max_rows_message_bytes = 3 }

abbrev other_server : Server
other_server = record { source_id = codes "t"; max_rows_message_bytes = 3 }

abbrev at_five : Cursor
at_five = record { source_id = codes "s"; lsn = 5 }

abbrev at_nine : Cursor
at_nine = record { source_id = codes "s"; lsn = 9 }

decode_cursor-encode_cursor_example :
    decode_cursor toy_lsn server (encode_cursor toy_lsn server at_five) ≡ ok at_five
unfolding text_eq
decode_cursor-encode_cursor_example =
    decode_cursor-encode_cursor toy_lsn server server at_five (λ n small. refl) (refl, refl)
      (refl, omega arith)

-- Every row has the size two, and every message is sent.
abbrev pub proto : Proto
proto = record { size = λ row. 2; marshal = some }

abbrev pub answer : Answer
answer sent = none

abbrev pub row : SnapshotRow
row = (codes "a", none) ∷ []

send_rows-Packs_example :
    Packs proto 3
      (map convert_row (row ∷ row ∷ []))
      []
      (send_rows proto toy_lsn server answer (row ∷ row ∷ []) []).0
unfolding send_rows pack_rows flush send_message
send_rows-Packs_example = send_rows-Packs proto toy_lsn server answer (row ∷ row ∷ []) [] refl

abbrev change : Change
change = record {
  operation = Operation.update;
  table = codes "p.t";
  key = (codes "a", codes "1") ∷ [];
  columns = codes "a" ∷ codes "b" ∷ [];
  values = Value.text (codes "1") ∷ Value.unchanged_toast ∷ [];
}

abbrev shared : Batch
shared = record { cursor = at_nine; changes = change ∷ []; memo = true }

batch_message_received_example :
    (m : BatchMessage) × (batch_message proto toy_lsn server answer shared
      ≡ ok (WatchResponse.batch m))
    × (Stream.convert_batch m ≡ record {
      cursor = encode_cursor toy_lsn server at_nine;
      changes = map client_change (change ∷ []);
    })
unfolding text_eq
batch_message_received_example =
    batch_message_received proto toy_lsn server answer shared
      ((((refl, tt), (tt, tt)), omega arith), tt) (λ m e. refl)
