-- ===== src/Cdc/Bootstrap.antt =====
-- internal/cdc/bootstrap.go: `Bootstrap`, which creates the slot, reads a scope at the snapshot that
-- PostgreSQL exports with it, and starts the stream at the slot's consistent point.
pub mod Cleanup
pub mod Boundary
use watchd.Base.{
  ℕ, suc, Bool, true, false, List, [], Option, none, some, if◌then◌else◌, Text, codes, text_eq,
  Result, ok, err, or_err,
}
use watchd.Cdc.Failure.{
  Failure, plain, Kind, ConnectionError, ConnectFault, PgError, classify_postgres_error,
  is_duplicate_object,
}
use watchd.Cdc.Cursor.{LsnText}
use watchd.Cdc.Transaction.{ProjectionSpec}
use watchd.Cdc.Visibility.{Snapshot, new_snapshot}
use watchd.Cdc.Validation.{validate_source_projection_spec, validate_publication}
use watchd.Cdc.Slot.{lookup_slot, managed}
use watchd.Cdc.Reading.{read_snapshot, validate_projection}
use watchd.Cdc.Session.{
  Database, CreatedSlot, World, Connection, Outcome, done, failed, running, Call, ◌>>=◌, ◌>>◌,
  return, check, ask, change, deferring, tick, connect_with_timeout, close_stream,
}
use watchd.Watch.Event.{SnapshotRow}

-- The answer to the creation of a slot; a concurrent bootstrap may win after the lookup.
unfoldable pub created_slot : Result ConnectionError CreatedSlot → Result Failure CreatedSlot
created_slot (ok slot) = ok slot
created_slot (err e) =
    err (
      if is_duplicate_object e then plain Kind.bootstrap_slot_exists else classify_postgres_error e)

abbrev pub absent_slot {ℓ} : {A : Type ℓ} → Option A → Result Failure (Unit {0})
absent_slot none = ok tt
absent_slot (some slot) = err (plain Kind.bootstrap_slot_exists)

abbrev pub count_created : World → World
count_created w = record w { created = suc w.created }

-- `createBootstrapSlot`. What comes after `change` is the slot that was created.
unfoldable pub create_bootstrap_slot : Database → Call CreatedSlot
create_bootstrap_slot db = do
  found ← lookup_slot db
  check (absent_slot found)
  slot ← ask (λ t. created_slot (db.create_slot t))
  change count_created
  return slot

-- The slot is gone where it was dropped, or is not there any more.
abbrev pub is_gone : Option ConnectionError → Bool
is_gone none = true
is_gone (some ConnectionError.transport) = false
is_gone (some (ConnectionError.postgres e)) = text_eq e.sql_state (codes "42704")

abbrev pub drop_over : Database → Option ConnectFault → World → World
drop_over db (some fault) w = w
drop_over db none w =
    let w' = tick w in
    if is_gone (db.drop_slot w.moment) then record w' { dropped = suc w.dropped } else w'

-- `dropSlot`: it closes the stream first, and drops the slot over a connection of its own.
unfoldable pub drop_slot : Database → World → World
drop_slot db w = let w' = close_stream w in drop_over db (db.cleanup w'.moment) (tick w')

-- The deferred cleanup of a bootstrap that fails.
abbrev pub drop_on_error : Database → Outcome Snapshot → World → World
drop_on_error db (done s) w = w
drop_on_error db (failed e) w = drop_slot db w
drop_on_error db running w = w

abbrev pub close_unless_transferred : World → World
close_unless_transferred w = if w.transferred then w else close_stream w

abbrev pub open_stream : World → World
open_stream w = record w { stream = Connection.opened }

-- The stream is left to `Run`.
abbrev pub transfer : ℕ → World → World
transfer cursor w = record w { bootstrap_stream = some cursor; transferred = true }

module _ (lsn : LsnText) (source_id : Text) (batch_rows fuel : ℕ) (db : Database)
    (spec : ProjectionSpec) where
  -- What `Bootstrap` does once it has created the slot.
  unfoldable pub read_created : (List SnapshotRow → Option Failure) → CreatedSlot → Call Snapshot
  read_created sink slot = do
    cursor ← check (or_err (lsn.parse_lsn slot.consistent_point) (plain Kind.postgres_server))
    visibility ← read_snapshot db spec.primary_key batch_rows fuel sink slot.snapshot_name
    ask (λ t. db.start_replication t cursor)
    change (transfer cursor)
    return (new_snapshot spec.source_id cursor (some visibility))

  -- What it does over its connections. The check of the retention budget only logs.
  unfoldable pub bootstrap_queries : (List SnapshotRow → Option Failure) → Call Snapshot
  bootstrap_queries sink = do
    ask (λ t. validate_publication (db.publication t))
    validate_projection db spec
    slot ← create_bootstrap_slot db
    deferring (drop_on_error db) (read_created sink slot)

  -- `Bootstrap`, for a reader of this source; `none` is a sink that is missing.
  unfoldable pub bootstrap : Option (List SnapshotRow → Option Failure) → Call Snapshot
  bootstrap none = check (err (plain Kind.snapshot_sink_required))
  bootstrap (some sink) = do
    check (validate_source_projection_spec source_id spec)
    ask (λ t. connect_with_timeout (db.replication t))
    change open_stream
    deferring (λ o w. close_unless_transferred w) (managed db (bootstrap_queries sink))
