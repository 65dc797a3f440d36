-- ===== src/Lib.antt =====
-- watchd fans the committed transactions of one PostgreSQL source out to clients that keep a local
-- projection fresh. The development follows its parts:
--
-- internal/cdc reads the source. Cdc/Cursor.antt has the positions of internal/cdc/types.go
-- (`Cursor`, `Compare`, `MinCursor`, `ParseCursor`), Cdc/Transaction.antt its changes and
-- transactions (`Change`, `Transaction`, `After`), Cdc/Visibility.antt the part of a snapshot that
-- decides which transactions it already covers (`parseVisibility`, `includes`, `widen` of
-- internal/cdc/visibility.go, and `Covers`), Cdc/Shape.antt the shape of a table and its comparison
-- (internal/cdc/relation.go), Cdc/Row.antt, Cdc/Keys.antt, Cdc/Relation.antt,
-- Cdc/Assembly.antt and Cdc/Decoder.antt the decoder of the stream
-- (internal/cdc/decoder.go): rows, keys, the change of a row, the transaction in flight, and
-- `Consume`. Cdc/Error.antt has the errors. Around the decoder,
--   Cdc/Stream.antt      is a replication connection (`receive`, `consumeCopyData` and `acknowledge`
--                        of internal/cdc/stream.go), with what it tells PostgreSQL;
--   Cdc/Run.antt         is `Run` and `read`: one connection after another;
--   Cdc/Failure.antt     has the errors that end a connection, and `isRetryable`
--                        (internal/cdc/errors.go);
--   Cdc/Source.antt      is the lifecycle of a `Source` (internal/cdc/source.go);
--   Cdc/Retention.antt   is the policy on retained WAL (internal/cdc/retention_policy.go and
--                        retention.go);
--   Cdc/Config.antt      is a reader's configuration with its defaults and checks
--                        (internal/cdc/config.go, and the start of `NewReader`);
--   Cdc/Validation.antt  is the acceptance of projection specs (internal/cdc/validation.go);
--   Cdc/Paging.antt      is the loop of `scanScopedRows` (internal/cdc/snapshot.go);
--   Cdc/Session.antt     has what the calls below ask of PostgreSQL, at which moment, and the
--                        connections, slots and transactions that they hold;
--   Cdc/Slot.antt        is the slot of a reader (internal/cdc/slot.go);
--   Cdc/Reading.antt     is `Snapshot` and `readSnapshot` (internal/cdc/snapshot.go);
--   Cdc/Bootstrap.antt   is `Bootstrap` with its cleanups (internal/cdc/bootstrap.go).
--
-- internal/watch/hub.go fans out. Its `Hub` is one object under one lock; here it is a record whose
-- fields are its components, and each operation under the lock is a function on it:
--   Watch/Window.antt      `ring`, `received`, `floor`, `lastEvicted` and what moves them;
--   Watch/Registry.antt    `watchers` and `routes`: registering, removing, ending, queueing;
--   Watch/Deliveries.antt  the scratch space in which `Accept` sorts changes by scope;
--   Watch/Hub.antt         `Accept`, composed of the three;
--   Watch/Serve.antt       `New`, `Stop`, and the locked sections of `Watch`, `resume`, `snapshot`
--                          and `live`, with what they compute from them;
--   Watch/Live.antt        one turn of the loop of `live`, and the events it sends;
--   Watch/Calls.antt       the whole of `Watch`, `resume`, `snapshot` and `live`, as actions
--                          (Watch/Action.antt) with their sends and waits.
-- Watch/Serve/Reach.antt is the step relation: the stream delivers, watch calls run their sections
-- in any order, and watchers take from their queues. Watchers live in a memory addressed by number,
-- since routes, deliveries and watch calls share them. A channel is the list of what waits in it; a
-- channel that is only ever closed is a flag or an option. A map with string keys is a function or
-- an association list, and a missing key reads as Go's zero value.
--
-- internal/server/server.go puts the events of a watch on the wire, whose messages are in Wire.antt
-- (api/watch/v1/watch.proto): Server.antt has the cursors of the wire, the conversion of every event,
-- the packing of snapshot rows, and the status of an error; Server/Calls.antt is its call `Watch`.
--
-- sdk/go/watchd is the client. Sdk/Interface.antt is the `Store` that it is given, with the promises
-- of its comments; Sdk/Store.antt has `MemoryStore` and its snapshot writer (sdk/go/watchd/store.go),
-- with the types of sdk/go/watchd/types.go, and Sdk/Store/Keeps.antt is `MemoryStore` as such a store.
-- Sdk/Stream.antt is one stream of sdk/go/watchd/client.go (`stream`) over any store, and Sdk/Sync.antt
-- the loop of `Sync` round it. Server/Batches.antt composes the server's conversion with the client's.
--
-- internal/daemon and cmd/watchd put the parts together: Daemon/Config.antt is the configuration
-- (internal/daemon/config.go), Daemon/Serve.antt what `Run` and `Serve` do, in order
-- (internal/daemon/daemon.go), Daemon/Phases.antt the order that is meant, and Daemon/Command.antt the
-- exit code (cmd/watchd/main.go).
--
-- Base holds what they share: Boolean tests, lists on native numbers, byte strings, and Go's
-- results with an error.
--
-- Bounds and fuel. Numbers are natural; a 32-bit or 64-bit one keeps its wrap-around where the code
-- relies on it (`widen`, `bytes_after`, counters, the doubling of a backoff), and an `int64` is its bit
-- pattern, or a ℤ where its sign is read. `evict_over` has fuel, the length of the ring, and each turn
-- of the loop drops one transaction of it; `scan_rows` has fuel, the pages to read, which are no
-- more than the rows of the scope and one. The loops that wait for messages, connections,
-- sessions or samples run over the list of what comes in; all other loops are structural. A call of
-- Cdc/Session.antt whose `scan_rows` has no fuel left is `running`; any fuel above the rows is enough.
-- The loop of `live` goes on for as long as its client stays: a call of Watch/Calls.antt whose fuel is
-- used up is `waiting`, as one whose select has no case that is ready.
--
-- Parameters. The text of a log sequence number and the formats of replication messages are the
-- replication library's (`LsnText`, `Replication`), the size and bytes of a message the protocol buffers
-- library's (`Proto`), the texts of differences between shapes are made by fmt, for logs (`LogText`),
-- float64 is a record of its operations (`Floats`, `FloatOrder`), and the answers of PostgreSQL to queries, the rows
-- of a snapshot, and whether a status or a message is sent come from outside: for snapshots and
-- bootstraps as `Database`, its answers at each moment. What a watch meets (the other goroutines, the
-- select's choice, the pages and the answer of the snapshotter) is its `Surroundings`. JSON, YAML and durations are decoded by
-- libraries (`Codec`), and sockets, signals and instruments are an `Environment`. The letters that
-- `strings.ToLower` is used on are ASCII. Whether a session of `Sync` is cancelled, and the wait that
-- its random factor makes of a backoff, come with the `Session`.
--
-- Not modelled: the opening of connections, and the options of a URL; the HTTP handlers of the ops
-- endpoint, the options of the gRPC server, the flags of the command; metrics and logs; generated
-- protocol code. Commit times and error texts are left out. `Memo`, a value computed at most once,
-- is the flag that a batch is shared.
pub mod Base
pub mod Cdc
pub mod Watch
pub mod Wire
pub mod Server
pub mod Sdk
pub mod Daemon
pub mod Tests
