-- ===== src/Watch/Hub.antt =====
-- The hub of internal/watch/hub.go: what its operations do under the lock.
pub mod Dispatch
pub mod Accept
pub mod History
use watchd.Base.{
  ℕ, ◌+◌, Bool, true, false, not, ◌&&◌, ◌||◌, List, [], ◌∷◌, ◌++◌, Option, none, some,
  if◌then◌else◌, ltb, leb, length, Text, text_eq, Result, ok, err, ◌==◌, is_empty, filter, ◌>>=◌,
}
use watchd.Cdc.Error.{Error}
use watchd.Cdc.Cursor.{Cursor, Order, precedes, equals, follows, compare, later}
use watchd.Cdc.Transaction.{Transaction, Change, Incompatible, ProjectionSpec, key_value, after}
use watchd.Watch.Event.{ResyncReason, Batch}
use watchd.Watch.Window.{Window, push, record_snapshot, invalidate, replayable}
use watchd.Watch.Registry.{Registry, Projection, Watcher, Queued, register_locked, end_table, offer}
use watchd.Watch.Deliveries.{Delivery, Scratch, collect}
use watchd.Watch.Deliveries

-- `Hub`. A channel is closed once and replaced: `tick` counts the channels replaced so far.
pub record Hub : Type 0 where
  pub source_id : Text
  pub projections : List (Text × Projection)
  pub window : Window
  pub registry : Registry
  pub stale : List Text
  pub tick : ℕ
  pub tick_taken : Bool
  pub stopped : Bool

-- `projection.changes`: a transaction's changes to a projection within a scope.
abbrev pub projection_changes : Projection → Text → Transaction → List Change
projection_changes p scope t =
    filter (λ c. text_eq c.table p.table && text_eq (key_value c.key p.spec.scope_column) scope)
      t.changes

-- A set of strings.
abbrev pub has_text : Text → List Text → Bool
has_text s [] = false
has_text s (x ∷ xs) = text_eq s x || has_text s xs

abbrev pub remove_text : Text → List Text → List Text
remove_text s = filter (λ x. not (text_eq s x))

-- `invalidateLocked`.
unfoldable pub invalidate_locked : Text → Cursor → Hub → Hub
invalidate_locked table cursor h = record h {
  stale = table ∷ h.stale;
  registry = end_table table h.registry.watchers h.registry;
  window = invalidate cursor h.window;
}

unfoldable pub invalidate_all : List Incompatible → Cursor → Hub → Hub
invalidate_all [] cursor h = h
invalidate_all (i ∷ is) cursor h = invalidate_all is cursor (invalidate_locked i.table cursor h)

-- The loop over the watchers of a delivery.
unfoldable pub offer_all : Queued → List ℕ → Registry → Registry
offer_all item [] g = g
offer_all item (w ∷ ws) g = offer_all item ws (offer item w g)

-- The loop over the deliveries. More than one watcher shares a memo.
unfoldable pub dispatch : Transaction → List Delivery → Registry → Registry
dispatch t [] g = g
dispatch t (d ∷ ds) g =
    let item : Queued = record {
      transaction = t;
      changes = d.changes;
      memo = ltb 1 (length d.watchers);
    } in
    dispatch t ds (offer_all item d.watchers g)

-- `if h.tickTaken { tick, h.tick, h.tickTaken = h.tick, make(chan struct{}), false }`
abbrev pub take_tick : Hub → Hub
take_tick h = record h { tick = if h.tick_taken then h.tick + 1 else h.tick; tick_taken = false }

-- `Accept` of a transaction that is new: its place in the window, the tables that it invalidates,
-- and what the watchers get.
unfoldable pub accept_new : Transaction → Hub → Hub
accept_new t h =
    let pushed = record (take_tick h) { window = push t h.window } in
    let valid = invalidate_all t.incompatible t.cursor pushed in
    let scratch = collect valid.registry.routes t.changes Deliveries.empty in
    record valid { registry = dispatch t scratch.entries valid.registry }

-- `if h.hasReceived { ... }`: a transaction that is not after the newest one is not new.
unfoldable pub accept_after : Option Cursor → Transaction → Hub → Result Error Hub
accept_after none t h = ok (accept_new t h)
accept_after (some received) t h = do
  order ← compare t.cursor received
  ok (elim order [ follows ↦ accept_new t h | _ ↦ h ])

unfoldable pub accept : Transaction → Hub → Result Error Hub
unfolding accept_after
accept t h = accept_after h.window.received t h
