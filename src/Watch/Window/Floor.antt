-- ===== src/Watch/Window/Floor.antt =====
-- `floor` and `lastEvicted` of internal/watch/hub.go after an incompatible change of a table.
use watchd.Base.{
  ℕ, zero, suc, ◌≡◌, ◌<◌, ◌≤◌, refl, true, false, List, [], ◌∷◌, ◌++◌, Option, none, some, ltb,
  length, length-append, Text, text_eq_iff, text_eq_refl, arith, Bool-cases, Option-cases, inl, inr,
}
use watchd.Cdc.Cursor.{Cursor, compare}
use watchd.Cdc.Cursor.Least.{later_iff}
use watchd.Cdc.Transaction.{Transaction}
use watchd.Watch.Window.{
  Window, raise, evict_locked, evict_over, push, record_snapshot, snapshot_floor, invalidate,
  replayable,
}

-- What the hub does to its window.
pub data Op : Type 0 where
  pushes : Transaction → Op
  snapshots : Cursor → Op
  invalidates : Cursor → Op

unfoldable pub run : List Op → Window → Window
run [] w = w
run (pushes t ∷ ops) w = run ops (push t w)
run (snapshots c ∷ ops) w = run ops (record_snapshot c w)
run (invalidates c ∷ ops) w = run ops (invalidate c w)

-- A floor of the source, at or after a position.
abbrev pub FloorFrom : Text → ℕ → Option Cursor → Type 0
FloorFrom sid n none = ⊥
FloorFrom sid n (some f) = (f.source_id ≡ sid) × (n ≤ f.lsn)

raise-FloorFrom :
    (sid : Text) (n : ℕ) (f : Option Cursor) (c : Cursor)
    → FloorFrom sid n f
    → FloorFrom sid n (raise f c)
raise-FloorFrom sid n none c h = h
raise-FloorFrom sid n (some f) c h = ground (arith, later_iff c f)

evict_locked-FloorFrom :
    (sid : Text) (n : ℕ) (ring : List Transaction) (w : Window)
    → FloorFrom sid n w.floor
    → FloorFrom sid n (evict_locked ring w).floor
unfolding evict_locked
evict_locked-FloorFrom sid n [] w h = h
evict_locked-FloorFrom sid n (t ∷ ring) w h = raise-FloorFrom sid n w.floor t.cursor h

evict_over-FloorFrom :
    (sid : Text) (n : ℕ) (fuel : ℕ) (w : Window)
    → FloorFrom sid n w.floor
    → FloorFrom sid n (evict_over fuel w).floor
unfolding evict_over
evict_over-FloorFrom sid n zero w h = h
evict_over-FloorFrom sid n (suc fuel) w h = elim (Bool-cases (ltb w.max_replay (length w.ring))) [
  | inl e ↦ rw e (
      evict_over-FloorFrom sid n fuel (evict_locked w.ring w)
        (evict_locked-FloorFrom sid n w.ring w h))
  | inr e ↦ rw e h
]

snapshot_floor-FloorFrom :
    (sid : Text) (n : ℕ) (f e : Option Cursor) (c : Cursor)
    → FloorFrom sid n f
    → FloorFrom sid n (snapshot_floor f e c)
snapshot_floor-FloorFrom sid n none e c h = absurd h
snapshot_floor-FloorFrom sid n (some f) e c h = h

-- Once there is a floor, nothing lowers it.
run-FloorFrom :
    (sid : Text) (n : ℕ) (ops : List Op) (w : Window)
    → FloorFrom sid n w.floor
    → FloorFrom sid n (run ops w).floor
unfolding run
run-FloorFrom sid n [] w h = h
run-FloorFrom sid n (pushes t ∷ ops) w h =
    run-FloorFrom sid n ops (push t w) (unfold push in evict_over-FloorFrom sid n _ _ h)
run-FloorFrom sid n (snapshots c ∷ ops) w h =
    run-FloorFrom sid n ops (record_snapshot c w)
      (unfold record_snapshot in snapshot_floor-FloorFrom sid n w.floor w.last_evicted c h)
run-FloorFrom sid n (invalidates c ∷ ops) w h =
    run-FloorFrom sid n ops (invalidate c w)
      (unfold invalidate in raise-FloorFrom sid n w.floor c h)

below_floor :
    (sid : Text) (n : ℕ) (w : Window) (c : Cursor)
    → FloorFrom sid n w.floor
    → c.source_id ≡ sid
    → c.lsn < n
    → replayable w c ≡ false
unfolding replayable compare
below_floor sid n w c h s lt = elim (Option-cases w.floor) [
  | inl e ↦ absurd (rw e at h)
  | inr (f, e) ↦
      let k : FloorFrom sid n (some f) = rw e at h in
      rw e (ground (arith, text_eq_iff c.source_id f.source_id))
]

-- Once a floor of the same source is set, an incompatible change at `bad` refuses every cursor of
-- the source from before it for good: after any further transactions, snapshots and incompatible
-- changes the window still does not replay from it.
pub invalidate_lasting :
    (w : Window) (f bad c : Cursor) (ops : List Op)
    → w.floor ≡ some f
    → f.source_id ≡ bad.source_id
    → c.source_id ≡ bad.source_id
    → c.lsn < bad.lsn
    → replayable (run ops (invalidate bad w)) c ≡ false
invalidate_lasting w f bad c ops e sf sc lt =
    below_floor bad.source_id bad.lsn (run ops (invalidate bad w)) c
      (run-FloorFrom bad.source_id bad.lsn ops (invalidate bad w) raised) sc lt
  where
    raised : FloorFrom bad.source_id bad.lsn (invalidate bad w).floor
    raised = unfold invalidate in rw e (ground (arith, later_iff bad f))

evict_over_done :
    (fuel : ℕ) (w : Window) → ltb w.max_replay (length w.ring) ≡ false → evict_over fuel w ≡ w
unfolding evict_over
evict_over_done zero w h = refl
evict_over_done (suc fuel) w h = rw h

one_eviction :
    (t u : Transaction) (rest : List Transaction) (w : Window)
    → w.ring ≡ u ∷ rest
    → length (u ∷ rest) ≡ w.max_replay
    → push t w ≡ record w {
      received = some t.cursor;
      ring = rest ++ t ∷ [];
      last_evicted = some u.cursor;
      floor = raise w.floor u.cursor;
    }
unfolding push evict_over evict_locked
one_eviction t u rest w e full =
    let w' : Window = record w {
      received = some t.cursor;
      ring = rest ++ t ∷ [];
      last_evicted = some u.cursor;
      floor = raise w.floor u.cursor;
    } in
    rw e (ground (arith, length-append rest (t ∷ []), evict_over_done (length (rest ++ t ∷ [])) w'))

-- Before the first snapshot, and before anything was evicted, the window forgets an incompatible
-- change at `bad`: with the ring full and `u` its oldest transaction, one more transaction evicts
-- `u` and overwrites the position of the change in `lastEvicted`. A first snapshot at `c`, from `u`
-- on and before `bad`, then lets a watcher resume from `c`, across the change, which without the
-- one more transaction is refused.
pub push_forgets :
    (w : Window) (bad c : Cursor) (t u : Transaction) (rest : List Transaction)
    → w.floor ≡ none
    → w.ring ≡ u ∷ rest
    → length (u ∷ rest) ≡ w.max_replay
    → c.source_id ≡ bad.source_id
    → u.cursor.source_id ≡ bad.source_id
    → u.cursor.lsn ≤ c.lsn
    → c.lsn < bad.lsn
    → w.last_evicted ≡ none
    → (replayable (record_snapshot c (invalidate bad w)) c ≡ false)
      × (replayable (record_snapshot c (push t (invalidate bad w))) c ≡ true)
unfolding replayable record_snapshot invalidate compare
push_forgets w bad c t u rest nofloor full_ring full sc su le lt fresh = (
  ground (arith, text_eq_iff c.source_id bad.source_id, later_iff bad c),
  rw (one_eviction t u rest (invalidate bad w) full_ring full) (
      ground (
        arith,
        text_eq_iff u.cursor.source_id c.source_id,
        text_eq_iff c.source_id u.cursor.source_id,
        text_eq_refl c.source_id,
        later_iff u.cursor c,
        later_iff u.cursor bad,
      )),
)
