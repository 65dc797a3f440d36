-- ===== src/Tests/Streams.antt =====
-- internal/cdc/stream.go on concrete inputs: a transaction that ends at 40, with keepalives before,
-- in and after it, and one that ends at 60 still to come; and a reader that retries twice.
use watchd.Base.{
  ◌≡◌, refl, zero, suc, true, false, List, [], ◌∷◌, Option, none, some, Text, codes, arith,
}
use watchd.Cdc.Decoder.{Message, begin_message, commit_message}
use watchd.Cdc.Failure.{plain, Kind}
use watchd.Cdc.Stream.{
  Replication, Keepalive, Reader, Answers, Input, copy_data, timeout, receive_stream,
}
use watchd.Cdc.Stream.Feed.{Sound, unaccepted}
use watchd.Cdc.Stream.Safe.{receive_stream-Sound}
use watchd.Cdc.Run.{Connection, Contexts, Attempt, run}
use watchd.Cdc.Run.Endings.{Ends, run_terminates}
use watchd.Tests.Decoders.{silent, idle}

abbrev parse_toy : Text → Option Message
parse_toy [] = none
parse_toy (zero ∷ bytes) = some (begin_message 7)
parse_toy (suc b ∷ bytes) = some (commit_message 30 40)

abbrev alive_toy : Text → Option Keepalive
alive_toy [] = none
alive_toy (lsn ∷ bytes) = some (record { server_wal_end = lsn; reply_requested = true })

abbrev toy : Replication
toy = record {
  parse_xlog_data = λ bytes. some (record { wal_start = 1; server_wal_end = 1; wal_data = bytes });
  parse = parse_toy;
  parse_keepalive = alive_toy;
}

abbrev reader : Reader
reader = record {
  source_id = codes "s";
  max_transaction_bytes = 1000;
  last_received = 0;
  last_acknowledged = 0;
  server_wal_end = 0;
  received = 0;
  accepted = 0;
  decode_errors = 0;
  in_flight = (0, 0);
}

abbrev works : Answers
works = record { accepts = true; status_error = none }

abbrev inputs : List Input
inputs =
    copy_data (107 ∷ 10 ∷ []) works
    ∷ copy_data (119 ∷ 0 ∷ []) works
    ∷ copy_data (107 ∷ 100 ∷ []) works
    ∷ copy_data (119 ∷ 1 ∷ []) works
    ∷ copy_data (107 ∷ 50 ∷ []) works
    ∷ timeout none
    ∷ []

receive_stream-Sound_example :
    Sound (codes "s") (40 ∷ 60 ∷ []) (receive_stream silent toy reader idle 5 inputs).effects
    × ((receive_stream silent toy reader idle 5 inputs).failure ≡ none
        → unaccepted (40 ∷ 60 ∷ []) (receive_stream silent toy reader idle 5 inputs).effects
          ≡ 60 ∷ [])
receive_stream-Sound_example =
    receive_stream-Sound silent toy (codes "s") inputs reader idle 5 (40 ∷ 60 ∷ []) refl refl
      (omega arith, (omega arith, tt)) ((omega arith, tt), (tt, tt))
      ((omega arith, (omega arith, tt)), (tt, (tt, (refl, ((omega arith, tt), (tt, tt))))))

abbrev refused : Connection
refused = record {
  connect = some (plain Kind.other);
  require_slot = none;
  start_replication = none;
  receive = none;
}

abbrev running : Contexts
running = record { caller_done = false; stream_done = false }

abbrev attempt : Attempt
attempt = record {
  connection = refused;
  contexts = running;
  wait = none;
  contexts_waited = running;
  drop_slot = none;
}

run_terminates_example : Ends 2 (run 2 0 false (attempt ∷ attempt ∷ attempt ∷ []))
run_terminates_example =
    run_terminates 2 0 false (attempt ∷ attempt ∷ attempt ∷ []) (omega arith) (omega arith)
