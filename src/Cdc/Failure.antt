-- ===== src/Cdc/Failure.antt =====
-- internal/cdc/errors.go: the errors that end a connection, and which of them a new one may cure.
use watchd.Base.{
  ◌+◌, Bool, true, false, not, ◌&&◌, ◌||◌, [], ◌∷◌, map, if◌then◌else◌, leb, Text, codes, text_eq,
  ◌==◌,
}
use watchd.Cdc.Row.{RowError}
use watchd.Cdc.Assembly.{DecodeError}

-- The errors that `errors.Is` tells apart; `decode` has those of the decoder, and `other` is any
-- error that is none of them.
pub data Kind : Type 0 where
  invalid_reader_config invalid_database_url malformed_replication_data : Kind
  unexpected_replication_message replication_ended slot_invalidated slot_in_use : Kind
  sink_rejected postgres_server source_unavailable insufficient_privileges : Kind
  slot_not_found bootstrap_slot_exists snapshot_window_closed snapshot_sink_required : Kind
  database_url_required cancelled other : Kind
  decode : DecodeError → Kind

-- An error, with the verdict of the `classifiedError` in its chain where it has one.
pub data Failure : Type 0 where
  plain : Kind → Failure
  classified : Kind → Bool → Failure

-- `pgconn.PgError` and `pgproto3.ErrorResponse`.
pub record PgError : Type 0 where
  pub sql_state : Text
  pub message : Text

-- An error of a connection: one that PostgreSQL sent, or another.
pub data ConnectionError : Type 0 where
  postgres : PgError → ConnectionError
  transport : ConnectionError

-- The errors that `isRetryable` names.
abbrev pub is_named_row : RowError → Bool
is_named_row RowError.unsupported_encoding = true
is_named_row RowError.value_too_large = true
is_named_row e = false

abbrev pub is_named_decode : DecodeError → Bool
is_named_decode DecodeError.too_large = true
is_named_decode DecodeError.too_many_changes = true
is_named_decode DecodeError.unsupported_message = true
is_named_decode (DecodeError.row e) = is_named_row e
is_named_decode e = false

abbrev pub is_named : Kind → Bool
is_named invalid_reader_config = true
is_named invalid_database_url = true
is_named malformed_replication_data = true
is_named unexpected_replication_message = true
is_named slot_invalidated = true
is_named postgres_server = true
is_named sink_rejected = true
is_named (decode e) = is_named_decode e
is_named e = false

-- `isRetryable`.
unfoldable pub is_retryable : Failure → Bool
is_retryable (classified kind retryable) = retryable
is_retryable (plain kind) = not (is_named kind)

-- `strings.ToLower`, on the letters that the texts below are made of.
abbrev pub to_lower : Text → Text
to_lower t = map (λ c. if leb 65 c && leb c 90 then c + 32 else c) t

abbrev pub is_prefix : Text → Text → Bool
is_prefix [] t = true
is_prefix (p ∷ ps) [] = false
is_prefix (p ∷ ps) (c ∷ cs) = p == c && is_prefix ps cs

-- `strings.Contains`.
abbrev pub contains_text : Text → Text → Bool
contains_text [] part = is_prefix part []
contains_text (c ∷ cs) part = is_prefix part (c ∷ cs) || contains_text cs part

-- The switch of `classifySQLState`.
unfoldable pub classify_state : Text → Failure
classify_state state =
    if text_eq state (codes "42501")
    then classified insufficient_privileges false
    else if text_eq state (codes "42704")
    then classified slot_invalidated false
    else if text_eq state (codes "55006")
    then classified slot_in_use true
    else if text_eq state (codes "57P01")
        || text_eq state (codes "57P02")
        || text_eq state (codes "57P03")
    then classified replication_ended true
    else classified postgres_server false

-- `classifySQLState`, and `classifyErrorResponse`, which calls it with the fields of the response.
unfoldable pub classify_sql_state : PgError → Failure
unfolding classify_state
classify_sql_state e =
    if contains_text (to_lower e.message) (codes "requested wal segment")
      && contains_text (to_lower e.message) (codes "removed")
    then classified slot_invalidated false
    else classify_state e.sql_state

-- `classifyPostgresError`.
abbrev pub classify_postgres_error : ConnectionError → Failure
classify_postgres_error (postgres e) = classify_sql_state e
classify_postgres_error transport = plain other

-- How a connection is refused: its URL cannot be used, or PostgreSQL or the network refuses it.
pub data ConnectFault : Type 0 where
  invalid_url url_required : ConnectFault
  refused : ConnectionError → ConnectFault

abbrev pub is_privileges : Kind → Bool
is_privileges insufficient_privileges = true
is_privileges kind = false

abbrev pub kind_of : Failure → Kind
kind_of (plain kind) = kind
kind_of (classified kind retryable) = kind

-- `classifyConnectionError`.
unfoldable pub classify_connection_error : ConnectFault → Failure
unfolding classify_sql_state
classify_connection_error invalid_url = plain invalid_database_url
classify_connection_error url_required = plain database_url_required
classify_connection_error (refused e) =
    if is_privileges (kind_of (classify_postgres_error e))
    then classify_postgres_error e
    else plain source_unavailable

-- `isDuplicateObject`.
unfoldable pub is_duplicate_object : ConnectionError → Bool
is_duplicate_object (postgres e) = text_eq e.sql_state (codes "42710")
is_duplicate_object transport = false
