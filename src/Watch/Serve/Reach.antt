-- ===== src/Watch/Serve/Reach.antt =====
-- The states that a hub of internal/watch/hub.go reaches by its operations, in any order.
use watchd.Base.{
  ℕ, ◌≡◌, sym, subst, Bool, true, false, not, List, [], none, some, if◌then◌else◌, Text, ok, mem,
  All, filter,
}
use watchd.Cdc.Cursor.{Cursor}
use watchd.Cdc.Transaction.{Transaction}
use watchd.Cdc.Visibility.{Snapshot}
use watchd.Watch.Window.Replay.{record_snapshot-Tracks, CommitsBeforeEnd, needed}
use watchd.Watch.Window.{replayable}
use watchd.Watch.Registry.{Watcher, Projection, register_locked}
use watchd.Watch.Registry.Index.{remove_locked-Indexed}
use watchd.Watch.Hub.{Hub, has_text, accept_new, accept}
use watchd.Watch.Hub.Accept.{accept_new-outcome, outcome}
use watchd.Watch.Event.{ResyncReason}
use watchd.Watch.Serve.Backlog.{batches_of, resume_locked_complete}
use watchd.Watch.Serve.{
  Config, new_hub, new_watcher, receive, position, Resumed, refused, replays, resume_locked,
  snapshot_locked, revalidate, record_snapshot_locked, unregister, stop,
}
use watchd.Watch.Serve.Valid.{
  noted, Valid, new_hub-Valid, accept-Valid, registered-Valid, resume_locked-Valid,
  new_watcher-Valid, receive_from-Valid,
}

-- The states of a hub of the source, each with all that it accepted: the stream delivers
-- transactions, watch calls run their sections in any order, and watchers take from their queues.
pub data Reach (sid : Text) : List Transaction → Hub → Type 0 where
  starts :
      (memory : ℕ → Watcher) (cfg : Config) {h : Hub}
      → cfg.source_id ≡ sid
      → new_hub memory cfg ≡ some h
      → Reach sid [] h
  accepts :
      {hist hist' : List Transaction} {h h' : Hub} (t : Transaction)
      → t.cursor.source_id ≡ sid
      → Reach sid hist h
      → hist' ≡ noted h.window.received t hist
      → accept t h ≡ ok h'
      → Reach sid hist' h'
  makes :
      {hist : List Transaction} {h h' : Hub} (w : ℕ) (p : Projection) (scope : Text)
      → mem w h.registry.watchers ≡ false
      → Reach sid hist h
      → h' ≡ new_watcher w p scope h
      → Reach sid hist h'
  resumes :
      {hist : List Transaction} {h h' : Hub} (w : ℕ) (c : Cursor) (r : Resumed)
      → mem w h.registry.watchers ≡ false
      → (h.registry.memory w).overflow ≡ none
      → Reach sid hist h
      → resume_locked w c h ≡ ok (h', r)
      → Reach sid hist h'
  snapshots :
      {hist : List Transaction} {h h' : Hub} (w : ℕ)
      → mem w h.registry.watchers ≡ false
      → (h.registry.memory w).overflow ≡ none
      → Reach sid hist h
      → h' ≡ (snapshot_locked w h).0
      → Reach sid hist h'
  revalidates :
      {hist : List Transaction} {h h' : Hub} (w : ℕ)
      → Reach sid hist h
      → h' ≡ revalidate w h
      → Reach sid hist h'
  records :
      {hist : List Transaction} {h h' : Hub} (s : Snapshot)
      → s.cursor.source_id ≡ sid
      → Reach sid hist h
      → h' ≡ record_snapshot_locked s h
      → Reach sid hist h'
  positions :
      {hist : List Transaction} {h h' : Hub}
      → Reach sid hist h
      → h' ≡ (position h).0
      → Reach sid hist h'
  receives :
      {hist : List Transaction} {h h' : Hub} (w : ℕ)
      → Reach sid hist h
      → h' ≡ (receive w h).0
      → Reach sid hist h'
  unregisters :
      {hist : List Transaction} {h h' : Hub} (w : ℕ)
      → Reach sid hist h
      → h' ≡ unregister w h
      → Reach sid hist h'
  stops :
      {hist : List Transaction} {h h' : Hub} → Reach sid hist h → h' ≡ stop h → Reach sid hist h'

-- In every state that a hub reaches by accepting transactions of its source, by the sections of
-- watch calls in any order, and by watchers taking from their queues, the window tracks the history
-- of all that was accepted, and the routes index exactly the registered watchers, each once under
-- its own table, scope column and scope, and none of them ended.
pub Reach-Valid :
    {sid : Text} {hist : List Transaction} {h : Hub} → Reach sid hist h → Valid sid hist h
unfolding receive revalidate position record_snapshot_locked unregister stop snapshot_locked
Reach-Valid {sid} (starts memory cfg s e) = new_hub-Valid sid memory cfg e
Reach-Valid {sid} (accepts {hist} {hist'} {h} {h'} t s r n e) =
    subst (λ x. Valid sid x h') (sym n) (accept-Valid t h s e (Reach-Valid r))
Reach-Valid {sid} {hist} (makes {h = h} w p scope new r e) =
    subst (Valid sid hist) (sym e) (new_watcher-Valid w p scope h new (Reach-Valid r))
Reach-Valid (resumes {h = h} w c d new open_ r e) =
    resume_locked-Valid w c h d new open_ e (Reach-Valid r)
Reach-Valid {sid} {hist} (snapshots {h = h} w new open_ r e) =
    subst (Valid sid hist) (sym e) (registered-Valid w h new open_ (Reach-Valid r))
Reach-Valid {sid} {hist} (revalidates {h = h} w r e) =
    let v = Reach-Valid r in
    subst (Valid sid hist) (sym e)
      (record { gone = v.gone; tracks = v.tracks; indexed = v.indexed })
Reach-Valid {sid} {hist} (records {h = h} s k r e) =
    let v = Reach-Valid r in
    subst (Valid sid hist) (sym e) (record {
      gone = v.gone;
      tracks = record_snapshot-Tracks s.cursor k v.tracks;
      indexed = v.indexed;
    })
Reach-Valid {sid} {hist} (positions {h = h} r e) =
    let v = Reach-Valid r in
    subst (Valid sid hist) (sym e)
      (record { gone = v.gone; tracks = v.tracks; indexed = v.indexed })
Reach-Valid {sid} {hist} (receives {h = h} w r e) =
    subst (Valid sid hist) (sym e)
      (receive_from-Valid (h.registry.memory w).queue w h (Reach-Valid r))
Reach-Valid {sid} {hist} (unregisters {h = h} w r e) =
    let v = Reach-Valid r in
    subst (Valid sid hist) (sym e) (record {
      gone = v.gone;
      tracks = v.tracks;
      indexed = remove_locked-Indexed w h.registry v.indexed;
    })
Reach-Valid {sid} {hist} (stops {h = h} r e) =
    let v = Reach-Valid r in
    subst (Valid sid hist) (sym e)
      (record { gone = v.gone; tracks = v.tracks; indexed = v.indexed })

-- In every state that a hub reaches, a resume of a cursor of the hub's source that is not refused
-- replays exactly the batches of the watcher's scope that the cursor still needs from everything
-- the hub ever accepted, and registers the watcher, where every accepted transaction commits
-- before it ends. It never fails.
pub resume_reached :
    {hist : List Transaction} {h : Hub} (w : ℕ) (c : Cursor)
    → Reach c.source_id hist h
    → All CommitsBeforeEnd hist
    → resume_locked w c h ≡ (
        if has_text (h.registry.memory w).projection.table h.stale
        then ok (h, refused ResyncReason.schema_changed)
        else if not (replayable h.window c)
        then ok (h, refused ResyncReason.cursor_unavailable)
        else ok (
          record h { registry = register_locked w h.registry },
          replays (batches_of (h.registry.memory w) (filter (needed c) hist)),
        ))
resume_reached w c r commits = resume_locked_complete w c _ (Reach-Valid r).tracks commits

-- In every state that a hub reaches, a registered watcher that accepts a new transaction is ended
-- where the transaction changes its table's shape, is left alone where the transaction has no
-- change for its projection and scope, and otherwise has exactly those changes queued once, or is
-- ended for a full queue.
pub delivered_reached :
    {sid : Text} {hist : List Transaction} {h : Hub} (t : Transaction) (x : ℕ)
    → Reach sid hist h
    → mem x h.registry.watchers ≡ true
    → (memo : Bool) × ((accept_new t h).registry.memory x
        ≡ outcome t h.registry.queue_size memo (h.registry.memory x))
delivered_reached t x r m = accept_new-outcome t _ x (Reach-Valid r).indexed m
