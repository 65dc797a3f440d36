-- ===== src/Cdc/Stream.antt =====
-- internal/cdc/stream.go: what the reader makes of the messages of one replication connection. The
-- formats of the messages are the replication library's (`Replication`). What the sink and the
-- connection answer while a message is handled comes with the message (`Answers`); what they are
-- asked, in order, is the list of effects. Logs and metrics are left out, and so is the time of the
-- next status: a timeout is an input.
pub mod Phase
pub mod Feed
pub mod Turn
pub mod Safe
use watchd.Base.{
  ℕ, ◌+◌, ◌%◌, ◌^◌, Bool, true, false, not, ◌&&◌, List, [], ◌∷◌, ◌++◌, Option, none, some,
  if◌then◌else◌, ok, err, length, leb, ltb, ◌==◌, Text, is_empty,
}
use watchd.Cdc.Cursor.{Cursor}
use watchd.Cdc.Transaction.{Transaction}
use watchd.Cdc.Assembly.{DecodeError, Decoder, in_transaction, pending_footprint}
use watchd.Cdc.Decoder.{Message, commit_message, LogText, consume}
use watchd.Cdc.Failure.{
  Kind, Failure, plain, PgError, ConnectionError, classify_sql_state, classify_postgres_error,
}

-- `pglogrepl.XLogData` and `pglogrepl.PrimaryKeepaliveMessage`.
pub record XlogData : Type 0 where
  pub wal_start : ℕ
  pub server_wal_end : ℕ
  pub wal_data : Text

pub record Keepalive : Type 0 where
  pub server_wal_end : ℕ
  pub reply_requested : Bool

-- The parsers of the replication library; `none` is an error.
pub record Replication : Type 0 where
  pub parse_xlog_data : Text → Option XlogData
  pub parse : Text → Option Message
  pub parse_keepalive : Text → Option Keepalive

-- What `receive` keeps of `Reader` and its configuration: the numbers are those of `Stats`.
pub record Reader : Type 0 where
  pub source_id : Text
  pub max_transaction_bytes : ℕ
  pub last_received : ℕ
  pub last_acknowledged : ℕ
  pub server_wal_end : ℕ
  pub received : ℕ
  pub accepted : ℕ
  pub decode_errors : ℕ
  pub in_flight : ℕ × ℕ

-- The variables of `receive`, with the reader.
pub record Stream : Type 0 where
  pub reader : Reader
  pub decoder : Decoder
  pub safe_lsn : ℕ

-- What the sink and the connection answer: is the transaction accepted, and how a status fails.
pub record Answers : Type 0 where
  pub accepts : Bool
  pub status_error : Option ConnectionError

-- A transaction that the sink was given, with its answer, and a status that was sent.
pub data Effect : Type 0 where
  delivered : Transaction → Bool → Effect
  status : ℕ → Effect

-- What `conn.ReceiveMessage` returns in a turn of `receive`: a message, the deadline for the next
-- status, or an error; with what is answered to the status then sent.
pub data Input : Type 0 where
  copy_data : Text → Answers → Input
  timeout : Option ConnectionError → Input
  context_done : Input
  receive_error : Input
  error_response : PgError → Input
  copy_done : Input
  unexpected_message : Input

-- What handling a message leads to.
pub record Outcome : Type 0 where
  pub stream : Stream
  pub effects : List Effect
  pub failure : Option Failure

abbrev pub quiet : Stream → Outcome
quiet s = record { stream = s; effects = []; failure = none }

abbrev pub fails_with : Kind → Stream → Outcome
fails_with kind s = record { stream = s; effects = []; failure = some (plain kind) }

-- An atomic counter of 64 bits.
abbrev pub next_count : ℕ → ℕ
next_count n = (n + 1) % 2 ^ 64

-- `acknowledge`: the status of the safe position, and the position as acknowledged if it was sent.
unfoldable pub acknowledge : Option ConnectionError → Stream → Outcome
acknowledge none s = record {
  stream = record s { reader = record s.reader { last_acknowledged = s.safe_lsn } };
  effects = status s.safe_lsn ∷ [];
  failure = none;
}
acknowledge (some e) s = record {
  stream = s;
  effects = status s.safe_lsn ∷ [];
  failure = some (classify_postgres_error e);
}

-- `observeServerWALEnd`.
unfoldable pub observe_server_wal_end : ℕ → Reader → Reader
observe_server_wal_end lsn r =
    if leb lsn r.server_wal_end then r else record r { server_wal_end = lsn }

-- The end of `consumeCopyData` for a transaction that the sink accepted.
abbrev pub count_accepted : Outcome → Outcome
count_accepted o = elim o.failure [
  | some e ↦ o
  | none ↦ record o {
    stream = record o.stream {
      reader = record o.stream.reader {
        accepted = next_count o.stream.reader.accepted;
        last_acknowledged = o.stream.safe_lsn;
      };
    };
  }
]

-- The transaction goes to the sink; what was accepted is acknowledged.
unfoldable pub take_transaction : Answers → ℕ → Transaction → Stream → Outcome
unfolding acknowledge
take_transaction answers end_lsn t s =
    let t' = record t { cursor = record t.cursor { source_id = s.reader.source_id } } in
    let s' = record s { reader = record s.reader { received = next_count s.reader.received } } in
    let o = count_accepted (acknowledge answers.status_error (record s' { safe_lsn = end_lsn })) in
    if answers.accepts then record o { effects = delivered t' true ∷ o.effects } else record {
      stream = s';
      effects = delivered t' false ∷ [];
      failure = some (plain Kind.sink_rejected);
    }

-- `commit.TransactionEndLSN`, of a commit.
abbrev pub end_of : Message → Option ℕ
end_of (commit_message commit_lsn end_lsn) = some end_lsn
end_of m = none

-- What follows `decoder.Consume` for the transaction that it returned.
abbrev pub take_committed : Answers → Option ℕ → Transaction → Stream → Outcome
take_committed answers none t s = fails_with Kind.malformed_replication_data s
take_committed answers (some end_lsn) t s =
    if end_lsn == 0
    then fails_with Kind.malformed_replication_data s
    else take_transaction answers end_lsn t s

abbrev pub take_decoded : Answers → Option ℕ → Option Transaction → Stream → Outcome
take_decoded answers end none s = quiet s
take_decoded answers end (some t) s = take_committed answers end t s

abbrev pub count_decode_error : Stream → Stream
count_decode_error s = record s {
  reader = record s.reader { decode_errors = next_count s.reader.decode_errors };
}

-- `Consume` and `setInFlight`; an error of `Consume` leaves what is pending as it was.
abbrev pub decoded_to : Decoder → Stream → Stream
decoded_to d s = record s {
  decoder = d;
  reader = record s.reader { in_flight = pending_footprint d };
}

module _ (log : LogText) where
  -- A message of the WAL, once it is parsed.
  unfoldable pub consume_message : Answers → Message → Stream → Outcome
  unfolding consume take_transaction
  consume_message answers m s = elim (consume log m s.decoder) [
    | err e ↦ fails_with (Kind.decode e) (count_decode_error (decoded_to s.decoder s))
    | ok r ↦ take_decoded answers (end_of m) r.1 (decoded_to r.0 s)
  ]

  module _ (p : Replication) where
    -- The case of `pglogrepl.XLogDataByteID`, from the parsed message.
    unfoldable pub consume_xlog : Answers → XlogData → Stream → Outcome
    unfolding consume_message observe_server_wal_end
    consume_xlog answers x s =
        let r =
          observe_server_wal_end x.server_wal_end
            (record s.reader { last_received = x.wal_start }) in
        if is_empty x.wal_data
        then fails_with Kind.malformed_replication_data s
        else if ltb s.reader.max_transaction_bytes (length x.wal_data)
        then fails_with (Kind.decode DecodeError.too_large) s
        else elim (p.parse x.wal_data) [
          | none ↦
              fails_with Kind.malformed_replication_data
                (count_decode_error (record s { reader = r }))
          | some m ↦ consume_message answers m (record s { reader = r })
        ]

    -- The case of `pglogrepl.PrimaryKeepaliveMessageByteID`, from the parsed message.
    unfoldable pub consume_keepalive : Answers → Keepalive → Stream → Outcome
    unfolding acknowledge observe_server_wal_end in_transaction
    consume_keepalive answers k s =
        let r = observe_server_wal_end k.server_wal_end s.reader in
        let safe =
          if not (in_transaction s.decoder) && ltb s.safe_lsn k.server_wal_end
          then k.server_wal_end
          else s.safe_lsn in
        let s' = record s { reader = r; safe_lsn = safe } in
        if k.reply_requested then acknowledge answers.status_error s' else quiet s'

    -- `consumeCopyData`: the first byte is `w` for WAL data or `k` for a keepalive.
    unfoldable pub consume_copy_data : Answers → Text → Stream → Outcome
    unfolding consume_xlog consume_keepalive
    consume_copy_data answers [] s = fails_with Kind.malformed_replication_data s
    consume_copy_data answers (b ∷ data') s =
        if b == 119
        then elim (p.parse_xlog_data data') [
          | none ↦ fails_with Kind.malformed_replication_data s
          | some x ↦ consume_xlog answers x s
        ]
        else if b == 107
        then elim (p.parse_keepalive data') [
          | none ↦ fails_with Kind.malformed_replication_data s
          | some k ↦ consume_keepalive answers k s
        ]
        else fails_with Kind.unexpected_replication_message s

    -- A turn of `receive`.
    unfoldable pub receive_turn : Input → Stream → Outcome
    unfolding consume_copy_data acknowledge
    receive_turn (copy_data bytes answers) s = consume_copy_data answers bytes s
    receive_turn (timeout answer) s = acknowledge answer s
    receive_turn context_done s = fails_with Kind.cancelled s
    receive_turn receive_error s = fails_with Kind.other s
    receive_turn (error_response e) s = record {
      stream = s;
      effects = [];
      failure = some (classify_sql_state e);
    }
    receive_turn copy_done s = record {
      stream = s;
      effects = [];
      failure = some (Failure.classified Kind.replication_ended true);
    }
    receive_turn unexpected_message s = fails_with Kind.unexpected_replication_message s

    -- The loop of `receive` over what comes in, until a turn fails; without a failure it waits on.
    unfoldable pub receive_loop : List Input → Stream → Outcome
    unfolding receive_turn
    receive_loop [] s = quiet s
    receive_loop (i ∷ is) s =
        let o = receive_turn i s in
        let rest = receive_loop is o.stream in
        elim o.failure [ some e ↦ o | none ↦ record rest { effects = o.effects ++ rest.effects } ]

    -- `receive`.
    unfoldable pub receive_stream : Reader → Decoder → ℕ → List Input → Outcome
    unfolding receive_loop
    receive_stream r d initial_lsn is =
        receive_loop is (record { reader = r; decoder = d; safe_lsn = initial_lsn })
