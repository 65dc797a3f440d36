-- ===== src/Server/Calls.antt =====
-- `Watch` of internal/server/server.go: a call of the hub whose events are sent as messages, and the
-- status that it ends with.
pub mod Messages
pub mod Client
pub mod Understood
use watchd.Base.{ℕ, List, [], Option, none, some, Text, Result, ok, err}
use watchd.Cdc.Cursor.{LsnText}
use watchd.Cdc.Failure.{kind_of}
use watchd.Wire.{WatchResponse, Code}
use watchd.Watch.Action.{
  CallError, unknown_projection, source_not_started, context_ended, cursor_error, snapshot_failed,
  send_error, Stop, finished, waiting, failed, Step, goes, stops, Now,
}
use watchd.Watch.Serve.{Request}
use watchd.Watch.Calls.{Surroundings, watch_call}
use watchd.Server.{
  Server, Proto, Answer, SendError, send_failed, WatchError, cdc_error, reader_error, with_status,
  other_error, resume_of, send, status,
}

-- The errors of a call, by what `status` tells apart.
abbrev pub watch_error : CallError SendError → WatchError
watch_error unknown_projection = WatchError.unknown_projection
watch_error source_not_started = WatchError.source_not_started
watch_error context_ended = other_error
watch_error (cursor_error e) = cdc_error e
watch_error (snapshot_failed f) = reader_error (kind_of f)
watch_error (send_error (send_failed code)) = with_status code
watch_error (send_error e) = other_error

-- A call that is still open, or what it returned: `none` is nil.
pub data Rpc : Type 0 where
  running : Rpc
  returned : Option Code → Rpc

-- `s.status(stream.Context(), err)`, of a call that has ended.
abbrev pub returned_of : Option Code → Step SendError (Unit {0}) → Rpc
returned_of context (goes a) = returned (status context none)
returned_of context (stops finished) = returned (status context none)
returned_of context (stops waiting) = running
returned_of context (stops (failed e)) = returned (status context (some (watch_error e)))

module _ (proto : Proto) (lsn : LsnText) (s : Server) (answer : Answer) (env : Surroundings)
    (context : Option Code) where
  -- `Watch`, for a watcher at the address `w`; `context` is how the stream's context ended, if it
  -- has when the call of the hub returns.
  unfoldable pub watch_rpc :
      ℕ → ℕ → Request → Now (List WatchResponse) → Rpc × Now (List WatchResponse)
  unfolding resume_of status
  watch_rpc fuel w req now = elim (resume_of lsn s req.resume_cursor) [
    | err code ↦ (returned (some code), now)
    | ok cursor ↦
        let r =
          watch_call (send proto lsn s answer) env lsn fuel w
            (record req { resume_cursor = cursor }) now in
        (returned_of context r.0, r.1)
  ]
