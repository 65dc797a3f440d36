-- ===== src/Wire.antt =====
-- The messages of api/watch/v1, as the server sends and the client reads them. A map with string keys
-- is a function; a `oneof` that a side does not know is a constructor of its own.
use watchd.Base.{List, Option, Text}

pub data ValueMessage : Type 0 where
  text_value : Text → ValueMessage
  null_value unchanged_toast_value other_value : ValueMessage

abbrev pub Values : Type 0
Values = Text → Option ValueMessage

pub data OperationMessage : Type 0 where
  operation_insert operation_update operation_delete other_operation : OperationMessage

pub record ChangeMessage : Type 0 where
  pub operation : OperationMessage
  pub table : Text
  pub key : Text → Option Text
  pub values : Values

pub record BatchMessage : Type 0 where
  pub cursor : Text
  pub changes : List ChangeMessage

pub data ReasonMessage : Type 0 where
  unspecified cursor_unavailable slow_watcher snapshot_window_closed : ReasonMessage
  source_stopped schema_changed : ReasonMessage

-- `WatchResponse`; `other` is an event that the client does not know.
pub data WatchResponse : Type 0 where
  snapshot_begin : WatchResponse
  snapshot_rows : List Values → WatchResponse
  snapshot_end : WatchResponse
  batch : BatchMessage → WatchResponse
  progress : Text → WatchResponse
  resync : ReasonMessage → WatchResponse
  other : WatchResponse

-- The status codes that the server answers with and the client tells apart; `other_code` is any
-- other, also that of an error without a status.
pub data Code : Type 0 where
  not_found invalid_argument failed_precondition permission_denied unauthenticated : Code
  unimplemented unavailable internal other_code : Code
