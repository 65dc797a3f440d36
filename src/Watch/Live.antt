-- ===== src/Watch/Live.antt =====
-- `live` of internal/watch/hub.go: one turn of its loop, from `position` up to the select that
-- waits for the next one, with a `send` that works. The items are those that the turn took from
-- the watcher's queue.
pub mod Turn
use watchd.Base.{
  ℕ, Bool, true, false, ◌&&◌, List, [], ◌∷◌, ◌++◌, Option, none, some, if◌then◌else◌, Result, ok,
  err,
}
use watchd.Cdc.Error.{Error}
use watchd.Cdc.Cursor.{Cursor, later}
use watchd.Cdc.Transaction.{Transaction}
use watchd.Watch.Event.{Event, batch, progress}
use watchd.Watch.Registry.{Queued}

-- `if !received || (baseSafe && later(base, position)) { position = base }`
abbrev pub start_from : Cursor → Bool → Option Cursor → Cursor
start_from base base_safe none = base
start_from base base_safe (some position) =
    if base_safe && later base position then base else position

-- `if later(item.transaction.Cursor, position) { ... }`
abbrev pub advance : Cursor → Queued → Cursor
advance position item =
    if later item.transaction.cursor position then item.transaction.cursor else position

abbrev pub batch_of : Queued → Event
batch_of item =
    batch (record { cursor = item.transaction.cursor; changes = item.changes; memo = item.memo })

-- The loop that drains the queue: what it sends, and the position after it or its error.
unfoldable pub drain :
    (Transaction → Result Error Bool) → Cursor → List Queued → List Event × Result Error Cursor
drain need position [] = ([], ok position)
drain need position (item ∷ rest) =
    let (events, end) = drain need (advance position item) rest in
    elim (need item.transaction) [
      | err e ↦ ([], err e)
      | ok deliver ↦ (if deliver then batch_of item ∷ events else events, end)
    ]

-- `if first || later(position, progressed)`: `progressed` is `none` before the first turn.
abbrev pub reports : Option Cursor → Cursor → Bool
reports none position = true
reports (some progressed) position = later position progressed

abbrev pub finish :
    Option Cursor → List Event → Result Error Cursor → List Event × Result Error (Option Cursor)
finish progressed events (err e) = (events, err e)
finish progressed events (ok position) =
    if reports progressed position
    then (events ++ progress position ∷ [], ok (some position))
    else (events, ok progressed)

-- The turn: what it sends, and the new `progressed` or the error that ends the watch.
unfoldable pub turn :
    Cursor
    → Bool
    → Option Cursor
    → (Transaction → Result Error Bool)
    → Option Cursor
    → List Queued
    → List Event × Result Error (Option Cursor)
unfolding drain
turn base base_safe received need progressed items =
    let (events, end) = drain need (start_from base base_safe received) items in
    finish progressed events end
