-- ===== src/Watch/Serve/Backlog.antt =====
-- `resume` of internal/watch/hub.go: what it replays.
use mathlib.Core.List.{append_assoc, append-nil}
use watchd.Base.{
  ℕ, ◌≡◌, sym, ap, ◌∙◌, false, not, List, [], ◌∷◌, ◌++◌, if◌then◌else◌, text_eq_iff, ok, is_empty,
  filter, All, All-right, arith, Bool-cases, inl, inr,
}
use watchd.Cdc.Cursor.{Cursor}
use watchd.Cdc.Transaction.{Transaction, after}
use watchd.Watch.Event.{ResyncReason, Batch}
use watchd.Watch.Window.{replayable}
use watchd.Watch.Window.Ascent.{OfSource}
use watchd.Watch.Window.Replay.{Tracks, needed, CommitsBeforeEnd, replayable_complete}
use watchd.Watch.Registry.{Watcher, register_locked}
use watchd.Watch.Hub.{Hub, projection_changes, has_text}
use watchd.Watch.Serve.{append_batch, backlog_from, refused, replays, resume_locked}

-- The batches of a watcher's scope in a list of transactions.
abbrev pub batches_of : Watcher → List Transaction → List Batch
batches_of v [] = []
batches_of v (t ∷ ts) =
    if is_empty (projection_changes v.projection v.scope t)
    then batches_of v ts
    else record {
      cursor = t.cursor;
      changes = projection_changes v.projection v.scope t;
      memo = false;
    }
      ∷ batches_of v ts

append_batch-batches_of :
    (v : Watcher) (bs : List Batch) (t : Transaction) (ts : List Transaction)
    → append_batch v bs t ++ batches_of v ts ≡ bs ++ batches_of v (t ∷ ts)
unfolding append_batch
append_batch-batches_of v bs t ts =
    elim (Bool-cases (is_empty (projection_changes v.projection v.scope t))) [
      | inl e ↦ rw e
      | inr e ↦ rw e (append_assoc bs _ (batches_of v ts))
    ]

after-needed :
    (t : Transaction) (c : Cursor) → t.cursor.source_id ≡ c.source_id → after t c ≡ ok (needed c t)
unfolding after
after-needed t c e = ground (arith, text_eq_iff t.cursor.source_id c.source_id)

-- On transactions of the cursor's source the loop never fails, and keeps the needed ones.
pub backlog_from-batches_of :
    (v : Watcher) (c : Cursor) (bs : List Batch) (ts : List Transaction)
    → OfSource c.source_id ts
    → backlog_from v c bs ts ≡ ok (bs ++ batches_of v (filter (needed c) ts))
unfolding backlog_from
backlog_from-batches_of v c bs [] s = ap ok (sym (append-nil bs))
backlog_from-batches_of v c bs (t ∷ ts) s =
    rw (after-needed t c s.0) (elim (Bool-cases (needed c t)) [
      | inl e ↦ rw e (
          backlog_from-batches_of v c (append_batch v bs t) ts s.1
          ∙ ap ok (append_batch-batches_of v bs t (filter (needed c) ts)))
      | inr e ↦ rw e (backlog_from-batches_of v c bs ts s.1)
    ])

-- A resume that is not refused replays, of everything the hub ever accepted, exactly the batches
-- of the watcher's scope that its cursor still needs, and registers the watcher; it does not
-- fail. It is refused exactly for a stale table or a cursor that the window does not reach.
pub resume_locked_complete :
    {hist gone : List Transaction} (w : ℕ) (c : Cursor) (h : Hub)
    → Tracks c.source_id hist gone h.window
    → All CommitsBeforeEnd hist
    → resume_locked w c h ≡ (
        if has_text (h.registry.memory w).projection.table h.stale
        then ok (h, refused ResyncReason.schema_changed)
        else if not (replayable h.window c)
        then ok (h, refused ResyncReason.cursor_unavailable)
        else ok (
          record h { registry = register_locked w h.registry },
          replays (batches_of (h.registry.memory w) (filter (needed c) hist)),
        ))
unfolding resume_locked
resume_locked_complete {hist} {gone} w c h t commits =
    elim (Bool-cases (has_text (h.registry.memory w).projection.table h.stale)) [
      | inl e ↦ rw e
      | inr e ↦ rw e (elim (Bool-cases (replayable h.window c)) [
        | inr k ↦ rw k
        | inl k ↦ rw k (
            rw (
              backlog_from-batches_of (h.registry.memory w) c [] h.window.ring
                  (All-right _ gone h.window.ring (rw t.split at t.sources)),
              replayable_complete c t commits k,
            ))
      ])
    ]
