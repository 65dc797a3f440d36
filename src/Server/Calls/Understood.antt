-- ===== src/Server/Calls/Understood.antt =====
-- From internal/watch/hub.go over internal/server/server.go to sdk/go/watchd/client.go: a whole watch,
-- and what the client makes of it.
use watchd.Base.{ℕ, ◌≡◌, refl, List, [], Option, none, some, Result-cases, inl, inr}
use watchd.Cdc.Cursor.{LsnText}
use watchd.Wire.{WatchResponse, Code}
use watchd.Sdk.Interface.{Store}
use watchd.Sdk.Stream.{Syncer, handle_all}
use watchd.Watch.Hub.{Hub}
use watchd.Watch.Action.{finished, waiting, failed, Step, goes, stops, Now}
use watchd.Watch.Serve.{Request}
use watchd.Watch.Calls.{Surroundings, watch_call}
use watchd.Watch.Calls.Phases.{Phase, opening, over, Never}
use watchd.Watch.Calls.Rules.{Keeps, Fulfils}
use watchd.Watch.Calls.Protocol.{watch_call-Fits}
use watchd.Server.{Server, Proto, Answer, SendError, resume_of, send, status}
use watchd.Server.Calls.{Rpc, returned, returned_of, watch_rpc}
use watchd.Server.Calls.Messages.{follow, Reached, Reads, send_follows}
use watchd.Server.Calls.Client.{Blames, handle_all-Blames, reading}

-- A call that returns nil has ended its stream with a resync.
abbrev pub Concludes : Rpc → Phase → Type 0
Concludes (returned none) p = p ≡ over
Concludes r p = Unit

-- The messages of a call are in order, up to where it is.
abbrev pub Ordered : Rpc × Now (List WatchResponse) → Type 0
Ordered (r, now) = (p : Phase) × Reached p now.out × Concludes r p

-- A call that starts.
abbrev pub starting : Hub → Now (List WatchResponse)
starting h = record { hub = h; moment = 0; out = [] }

conclude :
    (context : Option Code) (r : Step SendError (Unit {0})) (now : Now (List WatchResponse))
    → Fulfils SendError Reached Never r now.out
    → Ordered (returned_of context r, now)
unfolding status
conclude context (goes a) now h = elim h.1 [ ]
conclude context (stops finished) now h = (over, h, refl)
conclude context (stops waiting) now h = (h.0, h.2, tt)
conclude none (stops (failed e)) now h = (h.0, h.2, tt)
conclude (some code) (stops (failed e)) now h = (h.0, h.2, tt)

module _ (proto : Proto) (lsn : LsnText) (s : Server) (answer : Answer) (env : Surroundings)
    (context : Option Code) where
  watch_rpc-Ordered :
      (fuel w : ℕ) (req : Request) (hub : Hub)
      → Reads proto
      → Ordered (watch_rpc proto lsn s answer env context fuel w req (starting hub))
  unfolding watch_rpc follow Keeps
  watch_rpc-Ordered fuel w req hub reads = elim (Result-cases (resume_of lsn s req.resume_cursor)) [
    | inr (code, e) ↦ rw (e, watch_rpc) (opening, refl, tt)
    | inl (cursor, e) ↦
        let req' : Request = record req { resume_cursor = cursor } in
        let r = watch_call (send proto lsn s answer) env lsn fuel w req' (starting hub) in
        rw (e, watch_rpc)
          (conclude context r.0 r.1 (
            watch_call-Fits Reached (send proto lsn s answer) env
              (send_follows proto lsn s answer reads) lsn fuel w req' (starting hub)
              (opening, tt, refl)))
  ]

  -- However the other goroutines, the snapshotter, the selects and the transport behave, where a
  -- message is read as it was encoded: the messages that `Watch` of the server has sent, when it
  -- returns or waits, are in the order of the protocol (one snapshot at most and first, its rows
  -- inside it, then batches and progress, then at most one resync and nothing after it), and a call
  -- that has returned nil has sent the resync. A client without a snapshot begun that reads them
  -- ends with an error of its store, with the resync, or with the status that follows the messages,
  -- never with a protocol error of its own.
  pub watch_rpc_understood {ℓ κ μ} :
      {S : Type ℓ} {W : Type κ} {E : Type μ} (ops : Store S W E) (x : S) (syncer : Syncer)
      (code : Code) (fuel w : ℕ) (req : Request) (hub : Hub)
      → Reads proto
      → Ordered (watch_rpc proto lsn s answer env context fuel w req (starting hub))
        × Blames code
            (handle_all ops
              (watch_rpc proto lsn s answer env context fuel w req (starting hub)).1.out
              code
              (reading ops x syncer none)).1
  watch_rpc_understood ops x syncer code fuel w req hub reads =
      let ordered = watch_rpc-Ordered fuel w req hub reads in
      let (p, reached, end) = ordered in
      (
        ordered,
        handle_all-Blames ops
            (watch_rpc proto lsn s answer env context fuel w req (starting hub)).1.out code opening
            x syncer none p reached tt,
      )
