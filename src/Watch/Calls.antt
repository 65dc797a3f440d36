-- ===== src/Watch/Calls.antt =====
-- `Watch` of internal/watch/hub.go as a whole, with `resume`, `snapshot` and `live`: the sections of
-- Watch/Serve.antt, what is sent between them, and every way out. All other goroutines act on the hub
-- before each section; a loop that has used up its fuel, or a select that no case of is ready, is a
-- call that is still waiting.
pub mod Phases
pub mod Rules
pub mod Protocol
pub mod Still
pub mod Stopping
use watchd.Base.{
  ℕ, zero, suc, Bool, true, false, not, List, [], ◌∷◌, Option, none, some, if◌then◌else◌, ltb, Text,
  Result, ok, err,
}
use watchd.Cdc.Error.{Error}
use watchd.Cdc.Failure.{Failure}
use watchd.Cdc.Cursor.{Cursor, LsnText}
use watchd.Cdc.Transaction.{Transaction, ProjectionSpec, after}
use watchd.Cdc.Visibility.{Snapshot, covers}
use watchd.Watch.Event.{
  ResyncReason, SnapshotRow, Event, snapshot_begin, snapshot_rows, snapshot_end, batch, progress,
  resync,
}
use watchd.Watch.Registry.{Projection, Watcher, Queued}
use watchd.Watch.Hub.{Hub}
use watchd.Watch.Serve.{
  Request, Served, watch, new_watcher, receive, position, Resumed, refused, replays, resume_locked,
  snapshot_locked, ended, revalidate, streamed_from, record_snapshot_locked, unregister,
}
use watchd.Watch.Live.{start_from, advance, batch_of, reports}
use watchd.Watch.Action.{
  CallError, source_not_started, unknown_projection, context_ended, cursor_error, snapshot_failed,
  send_error, Stop, finished, waiting, failed, Step, goes, stops, Now, WatchAction, continue, ◌>>=◌,
  ◌>>◌, return, end, moment, check, each,
}

-- The errors of a snapshot that `snapshot` tells apart.
pub data ReadError : Type 0 where
  window_closed source_stopped not_started : ReadError
  other_error : Failure → ReadError

-- The cases of the select of `live`.
pub data WakeCase : Type 0 where
  context_done overflowed stopped ticked : WakeCase

-- What a call meets, by its moments: what the other goroutines have done to the hub since the last
-- one, the case that a select takes, and of `snapshotter.Snapshot` the pages that it gives its sink,
-- and its answer where the sink took them all.
pub record Surroundings : Type 0 where
  pub others : ℕ → Hub → Hub
  pub wake : ℕ → WakeCase
  pub read : ℕ → ProjectionSpec → Text → List (List SnapshotRow) × Result ReadError Snapshot

-- What a wake means: another turn, the end for the context or with a reason, or nothing where the
-- case is not ready.
pub data Woken : Type 0 where
  again cancelled blocked : Woken
  resynced : ResyncReason → Woken

unfoldable pub woken : ℕ → ℕ → WakeCase → Hub → Woken
woken w tick context_done h = cancelled
woken w tick overflowed h = elim (ended w h) [ none ↦ blocked | some reason ↦ resynced reason ]
woken w tick stopped h = if h.stopped then resynced ResyncReason.source_stopped else blocked
woken w tick ticked h = if ltb tick h.tick then again else blocked

-- `resume_locked`, whose error leaves the hub as it is.
abbrev pub answer_of : Hub → Result Error (Hub × Resumed) → Hub × Result Error Resumed
answer_of h (err e) = (h, err e)
answer_of h (ok (h', r)) = (h', ok r)

-- `position`, whose results are one value.
abbrev pub position_of : Hub → Hub × (Option Cursor × ℕ)
position_of h = let (h', received, tick) = position h in (h', (received, tick))

-- The watcher that `Watch` makes, by the fields that do not change.
abbrev pub watcher_of : Projection → Text → Watcher
watcher_of p scope = record { projection = p; scope = scope; queue = []; overflow = none }

-- `notCovered` of `snapshot`.
abbrev pub not_covered : Snapshot → Transaction → Result Error Bool
not_covered s t = elim (covers s t) [ err e ↦ err e | ok covered ↦ ok (not covered) ]

module _ {ℓ κ} {M : Type ℓ} {X : Type κ} (send : Event → M → M × Option X)
    (env : Surroundings) where
  abbrev pub sent : Option X → Step X (Unit {0})
  sent none = goes tt
  sent (some x) = stops (failed (send_error x))

  -- `if err := send(event); err != nil { return err }`
  unfoldable pub emit : Event → WatchAction M X (Unit {0})
  emit event now = (sent (send event now.out).1, record now { out = (send event now.out).0 })

  -- `return send(Resync{...})`
  abbrev pub last : ResyncReason → WatchAction M X (Unit {0})
  last reason = emit (resync reason) >> end finished

  -- A section under the lock, or one step on a channel.
  unfoldable pub section {μ} : {A : Type μ} → (Hub → Hub × A) → WatchAction M X A
  section f now =
      let r = f (env.others now.moment now.hub) in
      (goes r.1, record now { hub = r.0; moment = suc now.moment })

  abbrev pub locked : (Hub → Hub) → WatchAction M X (Unit {0})
  locked f = section (λ h. (f h, tt))

  abbrev pub after_end : (Hub → Hub) → Step X (Unit {0}) → WatchAction M X (Unit {0})
  after_end f (goes a) = locked f >> return a
  after_end f (stops waiting) = end waiting
  after_end f (stops e) = locked f >> end e

  -- `defer`, of a section.
  unfoldable pub deferring : (Hub → Hub) → WatchAction M X (Unit {0}) → WatchAction M X (Unit {0})
  deferring f m now = after_end f (m now).0 (m now).1

  -- `if deliver { ... }`
  abbrev pub deliver_if : Bool → Queued → WatchAction M X (Unit {0})
  deliver_if deliver item = if deliver then emit (batch_of item) else return tt

  -- The select of the inner loop of `live`, with the rest of the loop.
  abbrev pub take_item :
      (Transaction → Result Error Bool)
      → Cursor
      → (Cursor → WatchAction M X Cursor)
      → Option Queued
      → WatchAction M X Cursor
  take_item need at rest none = return at
  take_item need at rest (some item) = do
    deliver ← check (need item.transaction)
    deliver_if deliver item
    rest (advance at item)

  -- The loop of `live` that drains the queue.
  unfoldable pub drain_queue :
      ℕ → ℕ → (Transaction → Result Error Bool) → Cursor → WatchAction M X Cursor
  drain_queue zero w need at = end waiting
  drain_queue (suc n) w need at = section (receive w) >>= take_item need at (drain_queue n w need)

  abbrev pub report_progress : Option Cursor → Cursor → WatchAction M X (Option Cursor)
  report_progress progressed at =
      if reports progressed at then emit (progress at) >> return (some at) else return progressed

  abbrev pub act : Woken → WatchAction M X (Unit {0})
  act again = return tt
  act cancelled = end (failed context_ended)
  act blocked = end waiting
  act (resynced reason) = last reason

  -- The select of `live`.
  abbrev pub wait_turn : ℕ → ℕ → WatchAction M X (Unit {0})
  wait_turn w tick = do
    now ← moment
    how ← section (λ h. (h, woken w tick (env.wake now) h))
    act how

  -- `live`.
  unfoldable pub live :
      ℕ
      → ℕ
      → Cursor
      → Bool
      → (Transaction → Result Error Bool)
      → Option Cursor
      → WatchAction M X (Unit {0})
  live zero w base base_safe need progressed = end waiting
  live (suc n) w base base_safe need progressed = do
    start ← section position_of
    at ← drain_queue n w need (start_from base base_safe start.0)
    progressed' ← report_progress progressed at
    wait_turn w start.1
    live n w base base_safe need progressed'

  abbrev pub replay : ℕ → ℕ → Cursor → Resumed → WatchAction M X (Unit {0})
  replay fuel w cursor (refused reason) = last reason
  replay fuel w cursor (replays backlog) =
      deferring (unregister w)
        (each (λ b. emit (batch b)) backlog >> live fuel w cursor true (λ t. after t cursor) none)

  -- `resume`.
  unfoldable pub resume : ℕ → ℕ → Cursor → WatchAction M X (Unit {0})
  resume fuel w cursor = do
    result ← section (λ h. answer_of h (resume_locked w cursor h))
    answer ← check result
    replay fuel w cursor answer

  -- The part of `snapshot` that installs the rows.
  unfoldable pub installed :
      ℕ → ℕ → Watcher → List Transaction → Snapshot → WatchAction M X (Unit {0})
  installed fuel w v kept s = do
    locked (revalidate w)
    streamed ← check (streamed_from v s [] kept)
    locked (record_snapshot_locked s)
    emit snapshot_end
    each (λ b. emit (batch b)) streamed
    live fuel w s.cursor false (not_covered s) none

  abbrev pub unless_ended :
      Option ResyncReason → WatchAction M X (Unit {0}) → WatchAction M X (Unit {0})
  unless_ended none m = m
  unless_ended (some reason) m = last reason

  -- The switch of `snapshot` over the error of the read, and a look at `overflow`.
  unfoldable pub after_read :
      ℕ → ℕ → Watcher → List Transaction → Result ReadError Snapshot → WatchAction M X (Unit {0})
  after_read fuel w v kept (err window_closed) = last ResyncReason.snapshot_window_closed
  after_read fuel w v kept (err source_stopped) = last ResyncReason.source_stopped
  after_read fuel w v kept (err not_started) = end (failed source_not_started)
  after_read fuel w v kept (err (other_error e)) = end (failed (snapshot_failed e))
  after_read fuel w v kept (ok s) = do
    overflow ← section (λ h. (h, ended w h))
    unless_ended overflow (installed fuel w v kept s)

  -- `snapshot`.
  unfoldable pub snapshot : ℕ → ℕ → Watcher → WatchAction M X (Unit {0})
  snapshot fuel w v = do
    kept ← section (snapshot_locked w)
    deferring (unregister w) (do
      emit snapshot_begin
      now ← moment
      each (λ rows. emit (snapshot_rows rows)) (env.read now v.projection.spec v.scope).0
      after_read fuel w v kept (env.read now v.projection.spec v.scope).1)

  abbrev pub serve_request : ℕ → ℕ → Text → Served → WatchAction M X (Unit {0})
  serve_request fuel w scope Served.unknown_projection = end (failed unknown_projection)
  serve_request fuel w scope Served.already_stopped = last ResyncReason.source_stopped
  serve_request fuel w scope (Served.rejected e) = end (failed (cursor_error e))
  serve_request fuel w scope (Served.to_resume p cursor) =
      locked (new_watcher w p scope) >> resume fuel w cursor
  serve_request fuel w scope (Served.to_snapshot p) =
      locked (new_watcher w p scope) >> snapshot fuel w (watcher_of p scope)

  -- `Watch`, for a watcher at the address `w`.
  unfoldable pub watch_call : LsnText → ℕ → ℕ → Request → WatchAction M X (Unit {0})
  watch_call lsn fuel w req = do
    served ← section (λ h. (h, watch lsn req h))
    serve_request fuel w req.scope served
