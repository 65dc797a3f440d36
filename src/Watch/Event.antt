-- ===== src/Watch/Event.antt =====
-- internal/watch/event.go: the messages of a watch stream.
use watchd.Base.{Text, List, Option, Bool}
use watchd.Cdc.Cursor.{Cursor}
use watchd.Cdc.Transaction.{Change}

pub data ResyncReason : Type 0 where
  cursor_unavailable slow_watcher snapshot_window_closed source_stopped schema_changed :
      ResyncReason

-- `Batch`, with `memo` true where other watchers share it. The commit time is left out.
pub record Batch : Type 0 where
  pub cursor : Cursor
  pub changes : List Change
  pub memo : Bool

-- A row of a snapshot: a column's text, or `none` for SQL NULL.
abbrev pub SnapshotRow : Type 0
SnapshotRow = List (Text × Option Text)

pub data Event : Type 0 where
  snapshot_begin : Event
  snapshot_rows : List SnapshotRow → Event
  snapshot_end : Event
  batch : Batch → Event
  progress : Cursor → Event
  resync : ResyncReason → Event
