-- ===== src/Tests/Syncs.antt =====
-- sdk/go/watchd/client.go on concrete inputs, with the store of sdk/go/watchd/store.go: a stream
-- with a snapshot and an unfinished one, and syncs that are asked to rebuild.
use watchd.Base.{
  ℕ, ◌*◌, ◌/◌, pos, ◌≡◌, refl, true, false, List, [], ◌∷◌, none, some, Text, codes, text_eq, arith,
  Result, ok, err,
}
use watchd.Sdk.Store.{begin_snapshot, put, save_cursor, row_key, key_of, key_parts, join, commit}
use watchd.Sdk.Store.Keeps.{memory_store, memory_store-Promises}
use watchd.Wire.{
  ReasonMessage, Code, other_code, not_found, WatchResponse, snapshot_begin, snapshot_rows,
  snapshot_end, progress, resync, Values, text_value,
}
use watchd.Sdk.Stream.{Syncer, status_error, stream, handle_all, handle, set_state, convert_values}
use watchd.Sdk.Stream.Settled.{pieces, settled, stream_settled}
use watchd.Sdk.Sync.{Session, Loop, Step, SyncConfig, sync, sync_from}
use watchd.Sdk.Sync.Retry.{Calm, Within, Spread, sync-Calm}
use watchd.Sdk.Sync.Verdicts.{Setup, Turn, sync_fails, sync_resync_waits}
use watchd.Tests.Stores.{store}

abbrev values : Values
values column = some (text_value (codes "a"))

-- A whole snapshot, its cursor, and one that the connection is lost in.
abbrev events : List WatchResponse
events =
    snapshot_begin
    ∷ snapshot_rows (values ∷ [])
    ∷ snapshot_end
    ∷ progress (codes "9")
    ∷ snapshot_begin
    ∷ snapshot_rows (values ∷ values ∷ [])
    ∷ []

abbrev pub idle_syncer : Syncer
idle_syncer = record {
  state = record { fresh = false; cursor = [] };
  reported = false;
  progressed = false;
  seen = [];
}

abbrev serves : List WatchResponse → Text → Result Code (List WatchResponse × Code)
serves es cursor = ok (es, other_code)

stream_settled_example :
    (stream memory_store false (serves events) store idle_syncer).0.0
    ≡ settled memory_store memory_store-Promises (pieces none events) store
unfolding stream handle_all handle put begin_snapshot row_key key_of key_parts join save_cursor
    convert_values set_state commit text_eq
stream_settled_example =
    stream_settled memory_store memory_store-Promises false (serves events) store idle_syncer
      (codes "8") events other_code refl refl tt

-- A factor of 0.9, where it is drawn.
abbrev nine_tenths : ℕ → ℕ
nine_tenths backoff = (backoff * 9) / 10

nine_tenths-Spread : Spread 400 nine_tenths
nine_tenths-Spread backoff small = (omega arith, omega arith)

abbrev asks_resync : Session
asks_resync = record {
  watch = serves (progress (codes "9") ∷ resync ReasonMessage.slow_watcher ∷ []);
  cancelled = false;
  cancelled_wait = false;
  drawn = nine_tenths;
}

abbrev loop : Loop
loop = record { backoff = 100; snapshot = false; resyncs = 0 }

sync-Calm_example :
    Calm 2 (sync memory_store 100 400 (asks_resync ∷ asks_resync ∷ []) loop store idle_syncer).steps
    × Within 100 400
        (sync memory_store 100 400 (asks_resync ∷ asks_resync ∷ []) loop store idle_syncer).steps
sync-Calm_example =
    sync-Calm 100 400 (omega arith) (omega arith) memory_store (asks_resync ∷ asks_resync ∷ [])
      store idle_syncer (nine_tenths-Spread, (nine_tenths-Spread, tt))

abbrev refuses : Session
refuses = record {
  watch = λ cursor. err not_found;
  cancelled = false;
  cancelled_wait = false;
  drawn = nine_tenths;
}

abbrev sync_config : SyncConfig
sync_config = record {
  projection = codes "p";
  has_store = true;
  min_backoff = pos 100;
  max_backoff = pos 400;
}

sync_fails_example :
    Setup sync_config true (sync_from memory_store sync_config true (refuses ∷ []) store)
    × Turn memory_store 100 400 true
        (status_error not_found)
        (sync memory_store 100 400 (refuses ∷ []) loop store idle_syncer)
unfolding stream
sync_fails_example =
    sync_fails memory_store sync_config true 100 400 refuses [] loop store idle_syncer refl

sync_resync_waits_example :
    (rest : List Step) × ((sync memory_store 100 400
        (asks_resync ∷ [])
        (record loop { resyncs = 1 })
        store
        idle_syncer).steps
      ≡ record { progressed = true; waited = some 90 } ∷ rest)
unfolding stream handle_all handle save_cursor set_state
sync_resync_waits_example =
    sync_resync_waits memory_store 100 400 asks_resync [] (record loop { resyncs = 1 }) store
      idle_syncer (λ e. ground arith) (omega arith) refl refl refl
