-- ===== src/Watch/Serve.antt =====
-- The watch calls of internal/watch/hub.go: `New`, `Stop`, and the sections of `Watch`, `resume`,
-- `snapshot` and `live` that run under the lock or between two of them.
pub mod Backlog
pub mod Valid
pub mod Reach
use watchd.Base.{
  ℤ, pos, negsuc, ℕ, ◌+◌, Bool, true, false, not, ◌&&◌, ◌||◌, List, [], ◌∷◌, ◌++◌, Option, none,
  some, if◌then◌else◌, ltb, leb, length, Text, text_eq, Result, ok, err, ◌==◌, is_empty, ◌>>=◌,
  ◌>>◌, require, update,
}
use watchd.Cdc.Error.{Error}
use watchd.Cdc.Cursor.{Cursor, LsnText, parse_cursor, later}
use watchd.Cdc.Transaction.{Transaction, ProjectionSpec, after}
use watchd.Cdc.Visibility.{Snapshot, covers}
use watchd.Watch.Event.{ResyncReason, Batch, Event}
use watchd.Watch.Window.{replayable, record_snapshot}
use watchd.Watch.Registry.{Projection, Watcher, Queued, register_locked, remove_locked}
use watchd.Watch.Hub.{Hub, projection_changes, has_text, remove_text}

-- `Config`, without the meter.
pub record Config : Type 0 where
  pub source_id : Text
  pub projections : List (Text × ProjectionSpec)
  pub max_replay_transactions : ℤ
  pub watcher_queue : ℤ

-- `spec.Schema + "." + spec.Table`
abbrev pub qualified : ProjectionSpec → Text
qualified spec = spec.schema ++ b'.' ∷ spec.table

-- The loop of `New` over the projections.
unfoldable pub projections_of :
    Text → List (Text × ProjectionSpec) → Option (List (Text × Projection))
projections_of source_id [] = some []
projections_of source_id ((name, spec) ∷ rest) =
    if is_empty name || not (text_eq spec.source_id source_id)
    then none
    else elim (projections_of source_id rest) [
      | none ↦ none
      | some ps ↦ some ((name, record { spec = spec; table = qualified spec }) ∷ ps)
    ]

-- `if n == 0 { n = fallback }`, and then `none` for `n < 0`.
abbrev pub limit : ℤ → ℕ → Option ℕ
limit (pos n) fallback = some (if n == 0 then fallback else n)
limit (negsuc n) fallback = none

-- The hub that `New` returns, over what its addresses hold before any watcher.
unfoldable pub empty_hub : (ℕ → Watcher) → Text → ℕ → ℕ → List (Text × Projection) → Hub
empty_hub memory source_id max_replay queue_size projections = record {
  source_id = source_id;
  projections = projections;
  window = record {
    max_replay = max_replay;
    ring = [];
    received = none;
    floor = none;
    last_evicted = none;
  };
  registry = record { queue_size = queue_size; watchers = []; memory = memory; routes = λ _. [] };
  stale = [];
  tick = 0;
  tick_taken = false;
  stopped = false;
}

abbrev pub assemble :
    (ℕ → Watcher) → Text → Option ℕ → Option ℕ → Option (List (Text × Projection)) → Option Hub
assemble memory source_id (some max_replay) (some queue_size) (some projections) =
    some (empty_hub memory source_id max_replay queue_size projections)
assemble memory source_id _ _ _ = none

-- `New`: `none` is `ErrInvalidConfig`.
unfoldable pub new_hub : (ℕ → Watcher) → Config → Option Hub
unfolding projections_of empty_hub
new_hub memory cfg =
    if is_empty cfg.source_id || is_empty cfg.projections
    then none
    else assemble memory cfg.source_id (limit cfg.max_replay_transactions 10_000)
        (limit cfg.watcher_queue 1024) (projections_of cfg.source_id cfg.projections)

-- `Request`, without the options of the transport.
pub record Request : Type 0 where
  pub projection : Text
  pub scope : Text
  pub resume_cursor : Text

-- `h.projections[name]`
unfoldable pub find_projection : Text → List (Text × Projection) → Option Projection
find_projection name [] = none
find_projection name ((k, p) ∷ rest) = if text_eq k name then some p else find_projection name rest

-- What `Watch` does with a request.
pub data Served : Type 0 where
  unknown_projection : Served
  already_stopped : Served
  rejected : Error → Served
  to_resume : Projection → Cursor → Served
  to_snapshot : Projection → Served

-- `Watch`, up to the call of `resume` or `snapshot`.
unfoldable pub watch : LsnText → Request → Hub → Served
unfolding find_projection
watch lsn_text req h = elim (find_projection req.projection h.projections) [
  | none ↦ unknown_projection
  | some p ↦
      if h.stopped
      then already_stopped
      else if is_empty req.resume_cursor
      then to_snapshot p
      else elim (parse_cursor lsn_text h.source_id req.resume_cursor) [
        | err e ↦ rejected e
        | ok cursor ↦ to_resume p cursor
      ]
]

-- The watcher that `Watch` makes, at an address that nothing uses yet.
unfoldable pub new_watcher : ℕ → Projection → Text → Hub → Hub
new_watcher w p scope h = record h {
  registry = record (h.registry) {
    memory =
        update h.registry.memory w
          (record { projection = p; scope = scope; queue = []; overflow = none });
  };
}

abbrev pub receive_from : List Queued → ℕ → Hub → Hub × Option Queued
receive_from [] w h = (h, none)
receive_from (item ∷ rest) w h = (
  record h {
    registry = record (h.registry) {
      memory = update h.registry.memory w (record (h.registry.memory w) { queue = rest });
    };
  },
  some item,
)

-- `case item := <-w.queue`: the oldest item, if there is one.
unfoldable pub receive : ℕ → Hub → Hub × Option Queued
receive w h = receive_from (h.registry.memory w).queue w h

-- `position`: the newest position, and the tick that the next accepted transaction closes.
unfoldable pub position : Hub → Hub × Option Cursor × ℕ
position h = (record h { tick_taken = true }, h.window.received, h.tick)

-- `appendBatch`.
unfoldable pub append_batch : Watcher → List Batch → Transaction → List Batch
append_batch v batches t =
    let changes = projection_changes v.projection v.scope t in
    if is_empty changes
    then batches
    else batches ++ record { cursor = t.cursor; changes = changes; memo = false } ∷ []

-- The loop of `resume` over the ring.
unfoldable pub backlog_from :
    Watcher → Cursor → List Batch → List Transaction → Result Error (List Batch)
backlog_from v cursor backlog [] = ok backlog
backlog_from v cursor backlog (t ∷ ts) = do
  need ← after t cursor
  backlog_from v cursor (if need then append_batch v backlog t else backlog) ts

-- What the locked section of `resume` decides.
pub data Resumed : Type 0 where
  refused : ResyncReason → Resumed
  replays : List Batch → Resumed

unfoldable pub resume_locked : ℕ → Cursor → Hub → Result Error (Hub × Resumed)
resume_locked w cursor h =
    let v = h.registry.memory w in
    if has_text v.projection.table h.stale
    then ok (h, refused ResyncReason.schema_changed)
    else if not (replayable h.window cursor)
    then ok (h, refused ResyncReason.cursor_unavailable)
    else do
      backlog ← backlog_from v cursor [] h.window.ring
      ok (record h { registry = register_locked w h.registry }, replays backlog)

-- The transactions of the ring that concern a new watcher, which `snapshot` keeps.
unfoldable pub concerning : Watcher → List Transaction → List Transaction
concerning v [] = []
concerning v (t ∷ ts) =
    if is_empty (projection_changes v.projection v.scope t)
    then concerning v ts
    else t ∷ concerning v ts

-- The first locked section of `snapshot`.
unfoldable pub snapshot_locked : ℕ → Hub → Hub × List Transaction
snapshot_locked w h = (
  record h { registry = register_locked w h.registry },
  concerning (h.registry.memory w) h.window.ring,
)

-- `select { case <-w.overflow: ... default: }`: why the watch was ended, if it was.
unfoldable pub ended : ℕ → Hub → Option ResyncReason
ended w h = (h.registry.memory w).overflow

-- The second locked section of `snapshot`, after the rows and a look at `ended`: the table counts
-- as valid again.
unfoldable pub revalidate : ℕ → Hub → Hub
revalidate w h = record h { stale = remove_text (h.registry.memory w).projection.table h.stale }

-- The loop of `snapshot` over the transactions that it kept.
unfoldable pub streamed_from :
    Watcher → Snapshot → List Batch → List Transaction → Result Error (List Batch)
streamed_from v s streamed [] = ok streamed
streamed_from v s streamed (t ∷ ts) = do
  covered ← covers s t
  streamed_from v s (if not covered then append_batch v streamed t else streamed) ts

-- The last locked section of `snapshot`.
unfoldable pub record_snapshot_locked : Snapshot → Hub → Hub
record_snapshot_locked s h = record h { window = record_snapshot s.cursor h.window }

unfoldable pub unregister : ℕ → Hub → Hub
unregister w h = record h { registry = (remove_locked w h.registry).0 }

unfoldable pub stop : Hub → Hub
stop h = record h { stopped = true }
