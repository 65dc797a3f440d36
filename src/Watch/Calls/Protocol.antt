-- ===== src/Watch/Calls/Protocol.antt =====
-- The order of the events of a watch of internal/watch/hub.go, for every `send` that keeps track of
-- the phase.
use watchd.Base.{
  ℕ, zero, suc, [], ◌≡◌, Bool, true, false, List, Option, none, some, Result, ok, err, Bool-cases,
  inl, inr, Text,
}
use watchd.Cdc.Cursor.{Cursor, LsnText}
use watchd.Cdc.Transaction.{Transaction, after}
use watchd.Cdc.Error.{Error}
use watchd.Cdc.Visibility.{Snapshot}
use watchd.Watch.Event.{
  ResyncReason, Batch, Event, snapshot_begin, snapshot_rows, snapshot_end, batch, progress, resync,
}
use watchd.Watch.Registry.{Watcher, Queued}
use watchd.Watch.Live.{start_from, advance, batch_of, reports}
use watchd.Watch.Serve.{
  Request, Served, receive, Resumed, refused, replays, snapshot_locked, streamed_from, unregister,
}
use watchd.Watch.Action.{
  unknown_projection, source_not_started, context_ended, cursor_error, snapshot_failed, finished,
  WatchAction, ◌>>=◌, end, moment, check, each,
}
use watchd.Watch.Calls.Phases.{
  Phase, opening, in_snapshot, streaming, over, next_phase, IsOpening, IsReading, IsLive, IsOver,
  IsUnended, Never, May, may_begin, may_rows, may_end, may_batch, may_progress, may_resync,
  live-IsUnended, reading-IsUnended, opening-IsUnended, opening-IsLive,
}
use watchd.Watch.Calls.{
  ReadError, window_closed, source_stopped, not_started, other_error, Surroundings, Woken, again,
  cancelled, blocked, resynced, position_of, watcher_of, emit, last, section, deliver_if, take_item,
  replay, unless_ended, drain_queue, report_progress, act, wait_turn, live, resume, not_covered,
  installed, after_read, snapshot, serve_request, watch_call,
}
use watchd.Watch.Calls.Rules.{
  Keeps, Sends, return-Keeps, waiting-Keeps, failed-Keeps, moment-Keeps, check-Keeps, then-Keeps,
  each-Keeps, from-Keeps, section-Keeps, deferring-Keeps, emit-Keeps, never-Keeps,
}

module _ {ℓ κ} {M : Type ℓ} {X : Type κ} (At : Phase → M → Type 0) (send : Event → M → M × Option X)
    (env : Surroundings)
    (laws : (p q : Phase) (e : Event) (m : M)
      → next_phase p e ≡ some q
      → At p m
      → Sends X At q (send e m)) where
  abbrev Fits {μ} : {A : Type μ} → (Phase → Type 0) → (Phase → Type 0) → WatchAction M X A → Type ℓ
  Fits S T m = Keeps X At S T m

  finished-IsOver : Fits IsOver Never (end {A = Unit {0}} finished)
  unfolding Keeps end
  finished-IsOver now (over, s, h) = h
  finished-IsOver now (opening, s, h) = elim s [ ]
  finished-IsOver now (in_snapshot, s, h) = elim s [ ]
  finished-IsOver now (streaming, s, h) = elim s [ ]

  last-Fits : (reason : ResyncReason) → Fits IsUnended Never (last send env reason)
  last-Fits reason =
      then-Keeps X At IsUnended IsOver Never (emit send env (resync reason)) (λ _. end finished)
        (emit-Keeps X At send env laws IsUnended IsOver (resync reason) (may_resync reason))
        (λ _. finished-IsOver)

  -- A section, and the rest.
  after_section {μ ν} :
      {A : Type μ} {B : Type ν} (S T : Phase → Type 0) (f : _) (k : A → WatchAction M X B)
      → ((a : A) → Fits S T (k a))
      → Fits S T (section send env f >>= k)
  after_section S T f k h = then-Keeps X At S S T _ k (section-Keeps X At send env S f) h

  -- A check, and the rest.
  after_check {μ ν} :
      {A : Type μ} {B : Type ν} (S T : Phase → Type 0) (r : Result Error A)
      (k : A → WatchAction M X B)
      → ((a : A) → Fits S T (k a))
      → Fits S T (check r >>= k)
  after_check S T r k h = then-Keeps X At S S T (check r) k (check-Keeps X At S r) h

  -- An event that may come, and the rest.
  after_emit {ν} :
      {B : Type ν} (S T U : Phase → Type 0) (e : Event) (k : Unit {0} → WatchAction M X B)
      → May S e T
      → Fits T U (k tt)
      → Fits S U (emit send env e >>= k)
  after_emit S T U e k m h =
      then-Keeps X At S T U (emit send env e) k (emit-Keeps X At send env laws S T e m) (λ _. h)

  deliver_if-Fits :
      (deliver : Bool) (item : Queued) → Fits IsLive IsLive (deliver_if send env deliver item)
  deliver_if-Fits true item =
      emit-Keeps X At send env laws IsLive IsLive (batch_of item) (may_batch _)
  deliver_if-Fits false item = return-Keeps X At IsLive tt

  take_item-Fits :
      (need : Transaction → Result Error Bool) (at : Cursor)
      (rest : Cursor → WatchAction M X Cursor) (next : Option Queued)
      → ((at' : Cursor) → Fits IsLive IsLive (rest at'))
      → Fits IsLive IsLive (take_item send env need at rest next)
  take_item-Fits need at rest none h = return-Keeps X At IsLive at
  take_item-Fits need at rest (some item) h =
      after_check IsLive IsLive (need item.transaction) _ λ deliver.
        then-Keeps X At IsLive IsLive IsLive (deliver_if send env deliver item) _
          (deliver_if-Fits deliver item) (λ _. h (advance at item))

  drain_queue-Fits :
      (n w : ℕ) (need : Transaction → Result Error Bool) (at : Cursor)
      → Fits IsLive IsLive (drain_queue send env n w need at)
  unfolding drain_queue
  drain_queue-Fits zero w need at = waiting-Keeps X At Cursor IsLive IsLive
  drain_queue-Fits (suc n) w need at = after_section IsLive IsLive (receive w) _ λ next.
      take_item-Fits need at (drain_queue send env n w need) next (drain_queue-Fits n w need)

  report_progress-Fits :
      (progressed : Option Cursor) (at : Cursor)
      → Fits IsLive IsLive (report_progress send env progressed at)
  report_progress-Fits progressed at = elim (Bool-cases (reports progressed at)) [
    | inl e ↦ rw e (
        after_emit IsLive IsLive IsLive (progress at) _ (may_progress at)
          (return-Keeps X At IsLive (some at)))
    | inr e ↦ rw e (return-Keeps X At IsLive progressed)
  ]

  act-Fits : (how : Woken) → Fits IsLive IsLive (act send env how)
  act-Fits again = return-Keeps X At IsLive tt
  act-Fits cancelled = failed-Keeps X At Unit IsLive IsLive context_ended
  act-Fits blocked = waiting-Keeps X At Unit IsLive IsLive
  act-Fits (resynced reason) =
      from-Keeps X At IsLive IsUnended IsLive _ live-IsUnended
        (never-Keeps X At IsUnended IsLive _ (last-Fits reason))

  wait_turn-Fits : (w tick : ℕ) → Fits IsLive IsLive (wait_turn send env w tick)
  wait_turn-Fits w tick =
      then-Keeps X At IsLive IsLive IsLive moment _ (moment-Keeps X At IsLive)
        λ now. after_section IsLive IsLive _ _ act-Fits

  live-Fits :
      (n w : ℕ) (base : Cursor) (base_safe : Bool) (need : Transaction → Result Error Bool)
      (progressed : Option Cursor)
      → Fits IsLive Never (live send env n w base base_safe need progressed)
  unfolding live
  live-Fits zero w base base_safe need progressed = waiting-Keeps X At Unit IsLive Never
  live-Fits (suc n) w base base_safe need progressed =
      after_section IsLive Never position_of _ λ start.
        then-Keeps X At IsLive IsLive Never
          (drain_queue send env n w need (start_from base base_safe start.0)) _
          (drain_queue-Fits n w need (start_from base base_safe start.0))
          λ at.
            then-Keeps X At IsLive IsLive Never (report_progress send env progressed at) _
              (report_progress-Fits progressed at)
              λ progressed'.
                then-Keeps X At IsLive IsLive Never (wait_turn send env w start.1) _
                  (wait_turn-Fits w start.1) (λ _. live-Fits n w base base_safe need progressed')

  batches_fit :
      (batches : List Batch) → Fits IsLive IsLive (each (λ b. emit send env (batch b)) batches)
  batches_fit batches =
      each-Keeps X At IsLive _ batches
        λ b. emit-Keeps X At send env laws IsLive IsLive (batch b) (may_batch b)

  replay-Fits :
      (fuel w : ℕ) (cursor : Cursor) (answer : Resumed)
      → Fits IsOpening Never (replay send env fuel w cursor answer)
  replay-Fits fuel w cursor (refused reason) =
      from-Keeps X At IsOpening IsUnended Never _ opening-IsUnended (last-Fits reason)
  replay-Fits fuel w cursor (replays backlog) =
      from-Keeps X At IsOpening IsLive Never _ opening-IsLive (
        deferring-Keeps X At send env IsLive Never (unregister w) _ (
          then-Keeps X At IsLive IsLive Never _ _ (batches_fit backlog)
            (λ _. live-Fits fuel w cursor true (λ t. after t cursor) none)))

  resume-Fits :
      (fuel w : ℕ) (cursor : Cursor) → Fits IsOpening Never (resume send env fuel w cursor)
  unfolding resume
  resume-Fits fuel w cursor =
      after_section IsOpening Never _ _
        λ result. after_check IsOpening Never result _ (replay-Fits fuel w cursor)

  installed-Fits :
      (fuel w : ℕ) (v : Watcher) (kept : List Transaction) (s : Snapshot)
      → Fits IsReading Never (installed send env fuel w v kept s)
  unfolding installed
  installed-Fits fuel w v kept s = after_section IsReading Never _ _ λ _.
      after_check IsReading Never (streamed_from v s [] kept) _ λ streamed.
        after_section IsReading Never _ _ λ _.
          after_emit IsReading IsLive Never snapshot_end _ may_end (
            then-Keeps X At IsLive IsLive Never _ _ (batches_fit streamed)
              (λ _. live-Fits fuel w s.cursor false (not_covered s) none))

  read_last-Fits : (reason : ResyncReason) → Fits IsReading Never (last send env reason)
  read_last-Fits reason =
      from-Keeps X At IsReading IsUnended Never _ reading-IsUnended (last-Fits reason)

  unless_ended-Fits :
      (overflow : Option ResyncReason) (m : WatchAction M X (Unit {0}))
      → Fits IsReading Never m
      → Fits IsReading Never (unless_ended send env overflow m)
  unless_ended-Fits none m h = h
  unless_ended-Fits (some reason) m h = read_last-Fits reason

  after_read-Fits :
      (fuel w : ℕ) (v : Watcher) (kept : List Transaction) (r : Result ReadError Snapshot)
      → Fits IsReading Never (after_read send env fuel w v kept r)
  unfolding after_read
  after_read-Fits fuel w v kept (err window_closed) =
      read_last-Fits ResyncReason.snapshot_window_closed
  after_read-Fits fuel w v kept (err source_stopped) = read_last-Fits ResyncReason.source_stopped
  after_read-Fits fuel w v kept (err not_started) =
      failed-Keeps X At Unit IsReading Never source_not_started
  after_read-Fits fuel w v kept (err (other_error e)) =
      failed-Keeps X At Unit IsReading Never (snapshot_failed e)
  after_read-Fits fuel w v kept (ok s) =
      after_section IsReading Never _ _
        λ overflow. unless_ended-Fits overflow _ (installed-Fits fuel w v kept s)

  snapshot-Fits : (fuel w : ℕ) (v : Watcher) → Fits IsOpening Never (snapshot send env fuel w v)
  unfolding snapshot
  snapshot-Fits fuel w v = after_section IsOpening Never (snapshot_locked w) _ λ kept.
      deferring-Keeps X At send env IsOpening Never (unregister w) _ (
        after_emit IsOpening IsReading Never snapshot_begin _ may_begin (
          then-Keeps X At IsReading IsReading Never moment _ (moment-Keeps X At IsReading) λ now.
            then-Keeps X At IsReading IsReading Never _ _
              (each-Keeps X At IsReading _ _ λ rows.
                emit-Keeps X At send env laws IsReading IsReading (snapshot_rows rows)
                  (may_rows rows))
              (λ _. after_read-Fits fuel w v kept _)))

  serve_request-Fits :
      (fuel w : ℕ) (scope : Text) (served : Served)
      → Fits IsOpening Never (serve_request send env fuel w scope served)
  serve_request-Fits fuel w scope Served.unknown_projection =
      failed-Keeps X At Unit IsOpening Never unknown_projection
  serve_request-Fits fuel w scope Served.already_stopped =
      from-Keeps X At IsOpening IsUnended Never _ opening-IsUnended (last-Fits _)
  serve_request-Fits fuel w scope (Served.rejected e) =
      failed-Keeps X At Unit IsOpening Never (cursor_error e)
  serve_request-Fits fuel w scope (Served.to_resume p cursor) =
      after_section IsOpening Never _ _ λ _. resume-Fits fuel w cursor
  serve_request-Fits fuel w scope (Served.to_snapshot p) =
      after_section IsOpening Never _ _ λ _. snapshot-Fits fuel w (watcher_of p scope)

  pub watch_call-Fits :
      (lsn : LsnText) (fuel w : ℕ) (req : Request)
      → Fits IsOpening Never (watch_call send env lsn fuel w req)
  unfolding watch_call
  watch_call-Fits lsn fuel w req =
      after_section IsOpening Never _ _ (serve_request-Fits fuel w req.scope)
