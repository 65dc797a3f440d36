-- ===== src/Cdc/Reading.antt =====
-- internal/cdc/snapshot.go: `Snapshot`, which reads the rows of a scope with a cursor to resume from,
-- and `readSnapshot`, which `Bootstrap` shares. The loop over the pages is `scan_rows` of
-- Cdc/Paging.antt, with its fuel.
pub mod Traced
pub mod Gapless
use watchd.Base.{
  ℕ, Bool, true, false, not, ◌&&◌, ◌||◌, List, [], ◌∷◌, ◌++◌, Option, none, some, if◌then◌else◌,
  leb, ltb, Text, text_eq, Result, ok, err, require, or_err, is_empty,
}
use watchd.Cdc.Error.{Error}
use watchd.Cdc.Failure.{Failure, plain, Kind}
use watchd.Cdc.Cursor.{LsnText}
use watchd.Cdc.Transaction.{ProjectionSpec}
use watchd.Cdc.Visibility.{Visibility, Snapshot, new_snapshot, split, parse_visibility}
use watchd.Cdc.Validation.{
  validate_source_projection_spec, validate_publication, validate_projection_spec,
}
use watchd.Cdc.Paging.{Scanned, scan_rows}
use watchd.Cdc.Slot.{is_ours, parse_lsn, lookup_slot, managed}
use watchd.Cdc.Session.{
  Database, View, fresh, exported, World, Outcome, done, failed, running, Call, ◌>>=◌, ◌>>◌, return,
  check, ask, see, change, deferring, postgres,
}
use watchd.Watch.Event.{SnapshotRow}

-- The letters of `exportedSnapshotName`.
abbrev pub is_hex : ℕ → Bool
is_hex c = (leb b'0' c && leb c b'9') || (leb b'A' c && leb c b'F')

abbrev pub all_hex : Text → Bool
all_hex [] = true
all_hex (c ∷ cs) = is_hex c && all_hex cs

abbrev pub hex_parts : List Text → Bool
hex_parts [] = true
hex_parts (part ∷ parts) = not (is_empty part) && all_hex part && hex_parts parts

-- At least two parts.
abbrev pub two_hex_parts : List Text → Bool
two_hex_parts (first ∷ second ∷ parts) = hex_parts (first ∷ second ∷ parts)
two_hex_parts _ = false

-- `exportedSnapshotName.MatchString`.
unfoldable pub is_exported_name : Text → Bool
unfolding split
is_exported_name name = two_hex_parts (split b'-' name)

-- The snapshot that the transaction of `readSnapshot` reads: its own, or an imported one.
unfoldable pub choose_view : Database → Text → Call View
choose_view db [] = see (λ w. fresh w.moment)
choose_view db (c ∷ cs) = do
  check (require (is_exported_name (c ∷ cs)) (plain Kind.postgres_server))
  ask (λ t. postgres (db.set_snapshot t (c ∷ cs)))
  return (exported (c ∷ cs))

-- The only error that `parseVisibility` has.
abbrev pub visibility_result : Result Error Visibility → Result Failure Visibility
visibility_result (ok v) = ok v
visibility_result (err e) = err (plain Kind.postgres_server)

-- The pages that the loop gave the sink, and how it ended.
abbrev pub deliver : Option Scanned → Call (Unit {0})
deliver none w = (running, w)
deliver (some (pages, none)) w = (done tt, record w { pages = w.pages ++ pages })
deliver (some (pages, some e)) w = (failed e, record w { pages = w.pages ++ pages })

abbrev pub in_transaction : Bool → World → World
in_transaction b w = record w { transaction = b }

module _ (db : Database) (primary_key : List Text) (batch_rows fuel : ℕ)
    (sink : List SnapshotRow → Option Failure) where
  -- The part of `readSnapshot` in its transaction.
  unfoldable pub read_in_transaction : Text → Call Visibility
  read_in_transaction name = do
    view ← choose_view db name
    text ← ask (λ t. postgres (db.snapshot_text view))
    visibility ← check (visibility_result (parse_visibility text))
    deliver (scan_rows (db.page view) sink primary_key batch_rows fuel none)
    ask (λ t. postgres (db.commit t))
    return visibility

  -- `readSnapshot`, without the two hooks that only tests set.
  unfoldable pub read_snapshot : Text → Call Visibility
  read_snapshot name = do
    ask (λ t. postgres (db.begin_transaction t))
    change (in_transaction true)
    deferring (λ o w. in_transaction false w) (read_in_transaction name)

-- `checkReplayWindow`.
unfoldable pub check_replay_window : LsnText → Database → ℕ → Call (Unit {0})
check_replay_window lsn db cursor = do
  found ← lookup_slot db
  slot ← check (or_err found (plain Kind.slot_not_found))
  restart_lsn ← check (parse_lsn lsn slot.restart_lsn)
  check (require (not (ltb cursor restart_lsn)) (plain Kind.snapshot_window_closed))

-- `validateProjectionSpec`, whose baselines the reader keeps.
unfoldable pub validate_projection : Database → ProjectionSpec → Call (Unit {0})
validate_projection db spec = do
  shapes ← see (λ w. w.shapes)
  shapes' ← ask (λ t. validate_projection_spec (db.catalog t) spec shapes)
  change (λ w. record w { shapes = shapes' })

module _ (lsn : LsnText) (source_id : Text) (batch_rows fuel : ℕ) (db : Database)
    (spec : ProjectionSpec) where
  -- What `Snapshot` does over its management connection.
  unfoldable pub snapshot_queries : (List SnapshotRow → Option Failure) → Call Snapshot
  snapshot_queries sink = do
    ask (λ t. validate_publication (db.publication t))
    validate_projection db spec
    found ← lookup_slot db
    slot ← check (or_err found (plain Kind.slot_not_found))
    check (require (is_ours slot) (plain Kind.slot_invalidated))
    text ← ask (λ t. postgres (db.insert_lsn t))
    cursor ← check (or_err (lsn.parse_lsn text) (plain Kind.postgres_server))
    visibility ← read_snapshot db spec.primary_key batch_rows fuel sink []
    check_replay_window lsn db cursor
    return (new_snapshot spec.source_id cursor (some visibility))

  -- `Snapshot`, for a reader of this source; `none` is a sink that is missing.
  unfoldable pub snapshot : Option (List SnapshotRow → Option Failure) → Call Snapshot
  snapshot none = check (err (plain Kind.snapshot_sink_required))
  snapshot (some sink) =
      check (validate_source_projection_spec source_id spec) >> managed db (snapshot_queries sink)
