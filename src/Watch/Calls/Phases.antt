-- ===== src/Watch/Calls/Phases.antt =====
-- The phases of the stream of a watch in internal/watch/hub.go, and the events that may come in each.
use watchd.Base.{◌≡◌, refl, List, Option, none, some}
use watchd.Cdc.Cursor.{Cursor}
use watchd.Watch.Event.{
  ResyncReason, Event, snapshot_begin, snapshot_rows, snapshot_end, batch, progress, resync,
}

-- What a stream of a watch is in: nothing sent yet, in a snapshot, live, or ended by a resync.
pub data Phase : Type 0 where
  opening in_snapshot streaming over : Phase

-- The phase after an event, where it may come.
unfoldable pub next_phase : Phase → Event → Option Phase
next_phase over e = none
next_phase p (resync reason) = some over
next_phase opening snapshot_begin = some in_snapshot
next_phase opening (batch b) = some streaming
next_phase opening (progress c) = some streaming
next_phase opening e = none
next_phase in_snapshot (snapshot_rows rows) = some in_snapshot
next_phase in_snapshot snapshot_end = some streaming
next_phase in_snapshot e = none
next_phase streaming (batch b) = some streaming
next_phase streaming (progress c) = some streaming
next_phase streaming e = none

abbrev pub IsOpening : Phase → Type 0
IsOpening opening = Unit
IsOpening p = ⊥

abbrev pub IsReading : Phase → Type 0
IsReading in_snapshot = Unit
IsReading p = ⊥

-- Batches and progress may come.
abbrev pub IsLive : Phase → Type 0
IsLive opening = Unit
IsLive streaming = Unit
IsLive p = ⊥

abbrev pub IsOver : Phase → Type 0
IsOver over = Unit
IsOver p = ⊥

-- A resync may come.
abbrev pub IsUnended : Phase → Type 0
IsUnended over = ⊥
IsUnended p = Unit

-- The call does not go on.
abbrev pub Never : Phase → Type 0
Never p = ⊥

-- An event may come in every phase of `S`, and leads to one of `T`.
abbrev pub May : (Phase → Type 0) → Event → (Phase → Type 0) → Type 0
May S e T = (p : Phase) → S p → (q : Phase) × (next_phase p e ≡ some q) × T q

pub may_begin : May IsOpening snapshot_begin IsReading
unfolding next_phase
may_begin opening h = (in_snapshot, refl, tt)
may_begin in_snapshot h = elim h [ ]
may_begin streaming h = elim h [ ]
may_begin over h = elim h [ ]

pub may_rows : (rows : List _) → May IsReading (snapshot_rows rows) IsReading
unfolding next_phase
may_rows rows in_snapshot h = (in_snapshot, refl, tt)
may_rows rows opening h = elim h [ ]
may_rows rows streaming h = elim h [ ]
may_rows rows over h = elim h [ ]

pub may_end : May IsReading snapshot_end IsLive
unfolding next_phase
may_end in_snapshot h = (streaming, refl, tt)
may_end opening h = elim h [ ]
may_end streaming h = elim h [ ]
may_end over h = elim h [ ]

pub may_batch : (b : _) → May IsLive (batch b) IsLive
unfolding next_phase
may_batch b opening h = (streaming, refl, tt)
may_batch b streaming h = (streaming, refl, tt)
may_batch b in_snapshot h = elim h [ ]
may_batch b over h = elim h [ ]

pub may_progress : (c : Cursor) → May IsLive (progress c) IsLive
unfolding next_phase
may_progress c opening h = (streaming, refl, tt)
may_progress c streaming h = (streaming, refl, tt)
may_progress c in_snapshot h = elim h [ ]
may_progress c over h = elim h [ ]

pub may_resync : (reason : ResyncReason) → May IsUnended (resync reason) IsOver
unfolding next_phase
may_resync reason opening h = (over, refl, tt)
may_resync reason streaming h = (over, refl, tt)
may_resync reason in_snapshot h = (over, refl, tt)
may_resync reason over h = elim h [ ]

pub live-IsUnended : (p : Phase) → IsLive p → IsUnended p
live-IsUnended opening h = tt
live-IsUnended streaming h = tt
live-IsUnended in_snapshot h = elim h [ ]
live-IsUnended over h = elim h [ ]

pub reading-IsUnended : (p : Phase) → IsReading p → IsUnended p
reading-IsUnended in_snapshot h = tt
reading-IsUnended opening h = elim h [ ]
reading-IsUnended streaming h = elim h [ ]
reading-IsUnended over h = elim h [ ]

pub opening-IsUnended : (p : Phase) → IsOpening p → IsUnended p
opening-IsUnended opening h = tt
opening-IsUnended streaming h = elim h [ ]
opening-IsUnended in_snapshot h = elim h [ ]
opening-IsUnended over h = elim h [ ]

pub opening-IsLive : (p : Phase) → IsOpening p → IsLive p
opening-IsLive opening h = tt
opening-IsLive streaming h = elim h [ ]
opening-IsLive in_snapshot h = elim h [ ]
opening-IsLive over h = elim h [ ]
