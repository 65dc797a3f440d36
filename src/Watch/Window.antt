-- ===== src/Watch/Window.antt =====
-- The replay window of internal/watch/hub.go: the fields `ring`, `received`, `floor` and
-- `lastEvicted` of `Hub`. A field with its `has...` flag is an `Option`.
pub mod Ascent
pub mod Replay
pub mod Floor
pub mod Bound
use watchd.Base.{
  ℕ, zero, suc, Bool, true, false, List, [], ◌∷◌, ◌++◌, Option, none, some, if◌then◌else◌, ltb,
  length, ok, err,
}
use watchd.Cdc.Cursor.{Cursor, Order, precedes, equals, follows, compare, later}
use watchd.Cdc.Transaction.{Transaction}

pub record Window : Type 0 where
  pub max_replay : ℕ
  pub ring : List Transaction
  pub received : Option Cursor
  pub floor : Option Cursor
  pub last_evicted : Option Cursor

-- `if h.hasFloor && later(cursor, h.floor) { h.floor = cursor }`
abbrev pub raise : Option Cursor → Cursor → Option Cursor
raise none cursor = none
raise (some floor) cursor = if later cursor floor then some cursor else some floor

-- `evictLocked`. On an empty ring, where Go would panic, nothing happens.
unfoldable pub evict_locked : List Transaction → Window → Window
evict_locked [] w = w
evict_locked (t ∷ rest) w = record w {
  ring = rest;
  last_evicted = some t.cursor;
  floor = raise w.floor t.cursor;
}

-- `for len(h.ring) > h.maxReplay { h.evictLocked() }`, with fuel.
unfoldable pub evict_over : ℕ → Window → Window
evict_over zero w = w
evict_over (suc fuel) w =
    let more = evict_over fuel (evict_locked w.ring w) in
    if ltb w.max_replay (length w.ring) then more else w

-- The window's part of `Accept`, for a transaction that is new.
unfoldable pub push : Transaction → Window → Window
push t w =
    let ring = w.ring ++ t ∷ [] in
    evict_over (length ring) (record w { received = some t.cursor; ring = ring })

-- The floor that `recordSnapshotLocked` leaves, from the floor, `lastEvicted` and the cursor.
abbrev pub snapshot_floor : Option Cursor → Option Cursor → Cursor → Option Cursor
snapshot_floor (some floor) last_evicted cursor = some floor
snapshot_floor none none cursor = some cursor
snapshot_floor none (some evicted) cursor =
    if later evicted cursor then some evicted else some cursor

-- `recordSnapshotLocked`.
unfoldable pub record_snapshot : Cursor → Window → Window
record_snapshot cursor w = record w { floor = snapshot_floor w.floor w.last_evicted cursor }

-- `if !h.hasEvicted || later(cursor, h.lastEvicted) { ... }`
abbrev pub latest : Option Cursor → Cursor → Option Cursor
latest none cursor = some cursor
latest (some evicted) cursor = if later cursor evicted then some cursor else some evicted

-- The window's part of `invalidateLocked`.
unfoldable pub invalidate : Cursor → Window → Window
invalidate cursor w = record w {
  floor = raise w.floor cursor;
  last_evicted = latest w.last_evicted cursor;
}

-- `replayableLocked`.
unfoldable pub replayable : Window → Cursor → Bool
replayable w cursor = elim w.floor [
  | none ↦ false
  | some floor ↦ elim (compare cursor floor) [
    | err e ↦ false
    | ok order ↦ elim order [ precedes ↦ false | _ ↦ true ]
  ]
]
