-- ===== src/Tests/Watches.antt =====
-- A whole watch on concrete inputs: a snapshot of one row, a transaction that comes before the first
-- turn of the live loop, and a hub that stops while the watch waits.
use watchd.Base.{ℕ, ◌++◌, Option, ◌==◌, List, [], ◌∷◌, none, if◌then◌else◌, codes, ok}
use watchd.Watch.Event.{Event}
use watchd.Cdc.Error.{Error}
use watchd.Watch.Hub.{Hub, accept_new}
use watchd.Watch.Serve.{Request, stop}
use watchd.Watch.Action.{Now}
use watchd.Watch.Calls.{Surroundings, stopped}
use watchd.Wire.{
  WatchResponse, snapshot_begin, snapshot_rows, snapshot_end, batch, progress, resync, other,
  other_code,
}
use watchd.Server.{Server}
use watchd.Server.Calls.{Rpc, watch_rpc}
use watchd.Server.Calls.Client.{Blames, reading}
use watchd.Server.Calls.Understood.{Ordered, starting, watch_rpc_understood}
use watchd.Sdk.Stream.{handle_all}
use watchd.Tests.Hubs.{sid, started, snap, transaction, streamed}
use watchd.Tests.Servers.{toy_lsn, proto, answer, row}
use watchd.Sdk.Store.Keeps.{memory_store}
use watchd.Tests.Stores.{store}
use watchd.Tests.Syncs.{idle_syncer}

abbrev server : Server
server = record { source_id = sid; max_rows_message_bytes = 3 }

-- What the other goroutines do: one transaction before the moment 6, and the end before the moment 9.
abbrev others : ℕ → Hub → Hub
others t h = if t == 6 then accept_new (transaction 10) h else if t == 9 then stop h else h

abbrev env : Surroundings
env = record {
  others = others;
  wake = λ t. stopped;
  read = λ t spec scope. ((row ∷ []) ∷ [], ok snap);
}

abbrev request : Request
request = record { projection = codes "p"; scope = codes "x"; resume_cursor = [] }

abbrev served : Rpc × Now (List WatchResponse)
served = watch_rpc proto toy_lsn server answer env none 5 0 request (starting started)

-- The kind of a message.
abbrev kind : WatchResponse → ℕ
kind snapshot_begin = 1
kind (snapshot_rows rows) = 2
kind snapshot_end = 3
kind (batch b) = 4
kind (progress c) = 5
kind (resync reason) = 6
kind other = 7

watch_rpc_understood_example :
    Ordered served
    × Blames other_code
        (handle_all memory_store served.1.out other_code
          (reading memory_store store idle_syncer none)).1
watch_rpc_understood_example =
    watch_rpc_understood proto toy_lsn server answer env none memory_store store idle_syncer
      other_code 5 0 request started (λ m n e. cc)

-- Every event is sent and kept, and nobody else acts.
abbrev log : Event → List Event → List Event × Option Error
log e sent = (sent ++ e ∷ [], none)

abbrev quiet : Surroundings
quiet = record { others = λ t h. h; wake = λ t. stopped; read = env.read }

-- A hub that is stopped while an item waits.
abbrev halted : Now (List Event)
halted = record { hub = stop streamed; moment = 0; out = [] }
