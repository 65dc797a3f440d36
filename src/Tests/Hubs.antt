-- ===== src/Tests/Hubs.antt =====
-- internal/watch/hub.go on concrete inputs: a hub with one projection.
use watchd.Base.{
  pos, ℕ, ◌-◌, ◌≡◌, refl, Bool, false, List, [], ◌∷◌, none, some, Text, codes, text_eq, ok, ◌⊎◌,
  ◌≤◌, arith,
}
use watchd.Cdc.Cursor.{Cursor, compare, later}
use watchd.Cdc.Transaction.{Transaction, Change, Operation, ProjectionSpec, key_value}
use watchd.Cdc.Visibility.{Snapshot}
use watchd.Watch.Event.{Batch}
use watchd.Watch.Window.{push, evict_over, evict_locked, record_snapshot, replayable}
use watchd.Watch.Window.Replay.{Tracks, Fresh}
use watchd.Watch.Registry.{Projection, Watcher, register_locked, change_route, offer}
use watchd.Watch.Deliveries.{
  DeliveryKey, empty, deliver, delivery_locked, add_entry, append_change, find, scan, collect,
  collect_routes, collect_route,
}
use watchd.Watch.Deliveries.Lookup.{deliver-grow, InStep, empty-InStep, DistinctKeys}
use watchd.Watch.Deliveries.Collect.{collect_changes, changes_at}
use watchd.Watch.Hub.{Hub, dispatch, offer_all, invalidate_all, accept_new, accept_after, accept}
use watchd.Watch.Hub.History.{accept-Tracks}
use watchd.Watch.Serve.{
  Config, qualified, empty_hub, projections_of, new_hub, new_watcher, snapshot_locked,
  record_snapshot_locked, replays, resume_locked,
}
use watchd.Watch.Serve.Valid.{Valid}
use watchd.Watch.Serve.Reach.{
  Reach, starts, accepts, makes, snapshots, records, Reach-Valid, resume_reached, delivered_reached,
}

abbrev pub sid : Text
sid = codes "db"

abbrev pub at_lsn : ℕ → Cursor
at_lsn n = record { source_id = sid; lsn = n }

abbrev spec : ProjectionSpec
spec = record {
  source_id = sid;
  schema = codes "a";
  table = codes "t";
  scope_column = codes "s";
  primary_key = codes "k" ∷ [];
}

abbrev proj : Projection
proj = record { spec = spec; table = qualified spec }

abbrev config : Config
config = record {
  source_id = sid;
  projections = (codes "p", spec) ∷ [];
  max_replay_transactions = pos 2;
  watcher_queue = pos 1;
}

abbrev change : Change
change = record {
  operation = Operation.insert;
  table = qualified spec;
  key = (codes "s", codes "x") ∷ [];
  columns = [];
  values = [];
}

abbrev pub transaction : ℕ → Transaction
transaction n = record {
  cursor = at_lsn n;
  changes = change ∷ [];
  incompatible = [];
  commit_lsn = n - 1;
  xid = n;
}

abbrev blank : ℕ → Watcher
blank _ = record { projection = proj; scope = []; queue = []; overflow = none }

abbrev pub snap : Snapshot
snap = record { source_id = sid; cursor = at_lsn 5; visibility = none }

abbrev pub started : Hub
started = empty_hub blank sid 2 1 ((codes "p", proj) ∷ [])

abbrev made : Hub
made = new_watcher 0 proj (codes "x") started

abbrev watched : Hub
watched = (snapshot_locked 0 made).0

abbrev opened : Hub
opened = record_snapshot_locked snap watched

abbrev pub streamed : Hub
streamed = accept_new (transaction 10) opened

opened-Reach : Reach sid [] opened
unfolding new_hub projections_of empty_hub new_watcher snapshot_locked record_snapshot_locked
    record_snapshot accept accept_after accept_new compare later invalidate_all push evict_over
    evict_locked replayable resume_locked register_locked change_route text_eq key_value dispatch
    offer_all offer collect collect_routes collect_route deliver delivery_locked add_entry
    append_change find scan
opened-Reach =
    records snap refl
      (snapshots 0 refl refl (makes 0 proj (codes "x") refl (starts blank config refl refl) refl)
        refl)
      refl

streamed-Reach : Reach sid (transaction 10 ∷ []) streamed
unfolding new_hub projections_of empty_hub new_watcher snapshot_locked record_snapshot_locked
    record_snapshot accept accept_after accept_new compare later invalidate_all push evict_over
    evict_locked replayable resume_locked register_locked change_route text_eq key_value dispatch
    offer_all offer collect collect_routes collect_route deliver delivery_locked add_entry
    append_change find scan
streamed-Reach = accepts (transaction 10) refl opened-Reach refl refl

Reach-Valid_example : Valid sid (transaction 10 ∷ []) streamed
Reach-Valid_example = Reach-Valid streamed-Reach

abbrev batch : Batch
batch = record { cursor = at_lsn 10; changes = change ∷ []; memo = false }

abbrev joined : Hub
joined = new_watcher 1 proj (codes "x") streamed

joined-Reach : Reach sid (transaction 10 ∷ []) joined
unfolding new_hub projections_of empty_hub new_watcher snapshot_locked record_snapshot_locked
    record_snapshot accept accept_after accept_new compare later invalidate_all push evict_over
    evict_locked replayable resume_locked register_locked change_route text_eq key_value dispatch
    offer_all offer collect collect_routes collect_route deliver delivery_locked add_entry
    append_change find scan
joined-Reach = makes 1 proj (codes "x") refl streamed-Reach refl

resume_reached_example :
    resume_locked 1 (at_lsn 5) joined
    ≡ ok (record joined { registry = register_locked 1 joined.registry }, replays (batch ∷ []))
unfolding new_hub projections_of empty_hub new_watcher snapshot_locked record_snapshot_locked
    record_snapshot accept accept_after accept_new compare later invalidate_all push evict_over
    evict_locked replayable resume_locked register_locked change_route text_eq key_value dispatch
    offer_all offer collect collect_routes collect_route deliver delivery_locked add_entry
    append_change find scan
resume_reached_example = resume_reached 1 (at_lsn 5) joined-Reach (omega arith, tt)

delivered_reached_example :
    (memo : Bool) × ((accept_new (transaction 10) opened).registry.memory 0
      ≡ record (opened.registry.memory 0) {
        queue = record { transaction = transaction 10; changes = change ∷ []; memo = memo } ∷ [];
      })
unfolding new_hub projections_of empty_hub new_watcher snapshot_locked record_snapshot_locked
    record_snapshot accept accept_after accept_new compare later invalidate_all push evict_over
    evict_locked replayable resume_locked register_locked change_route text_eq key_value dispatch
    offer_all offer collect collect_routes collect_route deliver delivery_locked add_entry
    append_change find scan
delivered_reached_example = delivered_reached (transaction 10) 0 opened-Reach refl

accept-Tracks_example :
    ((accept (transaction 10) opened ≡ ok streamed)
      × Fresh sid opened.window.received (transaction 10)
      × ((gone : List Transaction) × Tracks sid (transaction 10 ∷ []) gone streamed.window))
    ⊎ ((accept (transaction 10) opened ≡ ok opened)
        × ((r : Cursor) × (opened.window.received ≡ some r) × (10 ≤ r.lsn)))
accept-Tracks_example = accept-Tracks (transaction 10) opened refl (Reach-Valid opened-Reach).tracks

abbrev delivery_key : DeliveryKey
delivery_key = record { table = qualified spec; column = codes "s"; scope = codes "x" }

deliver-grow_example :
    ((deliver empty delivery_key (0 ∷ []) change).entries
      ≡ record { key = delivery_key; watchers = 0 ∷ []; changes = change ∷ [] } ∷ [])
    × InStep (deliver empty delivery_key (0 ∷ []) change)
deliver-grow_example = deliver-grow empty delivery_key (0 ∷ []) change empty-InStep

collect_changes_example :
    (changes_at delivery_key (collect opened.registry.routes (change ∷ change ∷ []) empty).entries
      ≡ change ∷ change ∷ [])
    × DistinctKeys (collect opened.registry.routes (change ∷ change ∷ []) empty).entries
unfolding new_watcher snapshot_locked register_locked change_route text_eq key_value empty_hub
    record_snapshot_locked
collect_changes_example =
    collect_changes opened.registry.routes (change ∷ change ∷ []) delivery_key
      (Reach-Valid opened-Reach).indexed.columns
