-- ===== src/Watch/Window/Replay.antt =====
-- The replay window of internal/watch/hub.go against the history of what was accepted.
use mathlib.Core.List.{append_assoc}
use watchd.Base.{
  ℕ, zero, suc, ◌<◌, ◌≤◌, ◌≡◌, refl, sym, subst, ◌∙◌, inl, inr, Bool, true, List, [], ◌∷◌, ◌++◌,
  Option, none, some, Text, text_eq_iff, ltb, leb, length, filter, filter-append, All, All-append,
  All-left, Bool-cases, Option-cases, arith,
}
use watchd.Cdc.Cursor.{Cursor, compare, later}
use watchd.Cdc.Cursor.Least.{later_iff}
use watchd.Cdc.Transaction.{Transaction}
use watchd.Watch.Window.{
  Window, raise, evict_locked, evict_over, push, record_snapshot, snapshot_floor, latest,
  invalidate, replayable,
}
use watchd.Watch.Window.Ascent.{
  end_lsn, Ascending, UpTo, OfSource, UpTo-mono, UpTo-snoc, Ascending-snoc, UpTo-middle,
}

-- The newest accepted position is at or after every transaction.
abbrev pub Newest : Text → List Transaction → Option Cursor → Type 0
Newest sid ts none = ts ≡ []
Newest sid ts (some r) = (r.source_id ≡ sid) × UpTo r.lsn ts

-- A floor, once there, is at or after everything that left the ring.
abbrev pub Floored : Text → List Transaction → Option Cursor → Type 0
Floored sid gone none = Unit
Floored sid gone (some f) = (f.source_id ≡ sid) × UpTo f.lsn gone

-- `hist` is everything accepted, and `gone` what is no longer in the ring.
pub record Tracks (sid : Text) (hist gone : List Transaction) (w : Window) : Type 0 where
  pub split : hist ≡ gone ++ w.ring
  pub ascending : Ascending hist
  pub sources : OfSource sid hist
  pub newest : Newest sid hist w.received
  pub floored : Floored sid gone w.floor
  pub evicted : Newest sid gone w.last_evicted

-- A transaction of the source that ends after the newest accepted one.
abbrev pub Fresh : Text → Option Cursor → Transaction → Type 0
Fresh sid none t = t.cursor.source_id ≡ sid
Fresh sid (some r) t = (t.cursor.source_id ≡ sid) × (r.lsn < end_lsn t)

UpTo-nil : (n : ℕ) (ts : List Transaction) → ts ≡ [] → UpTo n ts
UpTo-nil n [] e = tt
UpTo-nil n (t ∷ ts) e = absurd (cc)

snapshot_floor-Floored :
    (sid : Text) (gone : List Transaction) (f e : Option Cursor) (c : Cursor)
    → Floored sid gone f
    → Newest sid gone e
    → c.source_id ≡ sid
    → Floored sid gone (snapshot_floor f e c)
snapshot_floor-Floored sid gone (some f) e c h k s = h
snapshot_floor-Floored sid gone none none c h k s = (s, UpTo-nil c.lsn gone k)
snapshot_floor-Floored sid gone none (some e) c h k s = elim (Bool-cases (later e c)) [
  | inl l ↦ rw l k
  | inr l ↦ let i = later_iff e c in rw l (s, UpTo-mono e.lsn c.lsn gone (ground arith) k.1)
]

latest-Newest :
    (sid : Text) (gone : List Transaction) (e : Option Cursor) (c : Cursor)
    → Newest sid gone e
    → c.source_id ≡ sid
    → UpTo c.lsn gone
    → Newest sid gone (latest e c)
latest-Newest sid gone none c k s u = (s, u)
latest-Newest sid gone (some e) c k s u = elim (Bool-cases (later c e)) [
  | inl l ↦ rw l (s, u)
  | inr l ↦ rw l k
]

raise-Floored :
    (sid : Text) (old gone : List Transaction) (f : Option Cursor) (c : Cursor)
    → Floored sid old f
    → c.source_id ≡ sid
    → UpTo c.lsn gone
    → Floored sid gone (raise f c)
raise-Floored sid old gone none c h s u = tt
raise-Floored sid old gone (some g) c h s u = elim (Bool-cases (later c g)) [
  | inl e ↦ rw e (s, u)
  | inr e ↦ let k = later_iff c g in rw e (h.0, UpTo-mono c.lsn g.lsn gone (ground arith) u)
]

module _ {sid : Text} where
  evict-Tracks :
      {hist gone : List Transaction} {w : Window} (t : Transaction) (rest : List Transaction)
      → w.ring ≡ t ∷ rest
      → Tracks sid hist gone w
      → Tracks sid hist (gone ++ t ∷ []) (evict_locked w.ring w)
  unfolding evict_locked
  evict-Tracks {hist} {gone} {w} t rest e h =
      rw (e, evict_locked)
        (record {
          split = whole ∙ sym (append_assoc gone (t ∷ []) rest);
          ascending = h.ascending;
          sources = h.sources;
          newest = h.newest;
          floored = raise-Floored sid gone _ w.floor t.cursor h.floored source older;
          evicted = (source, older);
        })
    where
      whole : hist ≡ gone ++ t ∷ rest
      whole = rw (← e) h.split

      older : UpTo (end_lsn t) (gone ++ t ∷ [])
      older = UpTo-middle gone t rest (rw whole at h.ascending)

      pick : (xs : List Transaction) → OfSource sid (xs ++ t ∷ rest) → t.cursor.source_id ≡ sid
      pick [] all = all.0
      pick (x ∷ xs) all = pick xs all.1

      source : t.cursor.source_id ≡ sid
      source = pick gone (rw whole at h.sources)

  evict_locked-Tracks :
      {hist gone : List Transaction} {w : Window} (ring : List Transaction)
      → w.ring ≡ ring
      → Tracks sid hist gone w
      → (gone' : List Transaction) × Tracks sid hist gone' (evict_locked ring w)
  unfolding evict_locked
  evict_locked-Tracks {gone = gone} [] e h = (gone, h)
  evict_locked-Tracks {hist} {gone} {w} (t ∷ rest) e h = (
    gone ++ t ∷ [],
    subst (λ r. Tracks sid hist (gone ++ t ∷ []) (evict_locked r w)) e (evict-Tracks t rest e h),
  )

  evict_over-Tracks :
      (fuel : ℕ) {hist gone : List Transaction} {w : Window}
      → Tracks sid hist gone w
      → (gone' : List Transaction) × Tracks sid hist gone' (evict_over fuel w)
  unfolding evict_over
  evict_over-Tracks zero {gone = gone} h = (gone, h)
  evict_over-Tracks (suc fuel) {hist} {gone} {w} h =
      elim (Bool-cases (ltb w.max_replay (length w.ring))) [
        | inl e ↦ rw e (evict_over-Tracks fuel (evict_locked-Tracks w.ring refl h).1)
        | inr e ↦ rw e (gone, h)
      ]

  extend-Tracks :
      (hist gone : List Transaction) (w : Window) (t : Transaction) (r : Option Cursor)
      → w.received ≡ r
      → Fresh sid r t
      → Tracks sid hist gone w
      → Tracks sid
          (hist ++ t ∷ [])
          gone
          (record w { received = some t.cursor; ring = w.ring ++ t ∷ [] })
  extend-Tracks hist gone w t none e f h =
      let empty : hist ≡ [] = rw e at h.newest in
      record {
        split = rw h.split (append_assoc gone w.ring (t ∷ []));
        ascending = rw empty (tt, tt);
        sources = rw empty (f, tt);
        newest = rw empty (f, (omega arith, tt));
        floored = h.floored;
        evicted = h.evicted;
      }
  extend-Tracks hist gone w t (some r) e f h =
      let newest : (r.source_id ≡ sid) × UpTo r.lsn hist = rw e at h.newest in
      record {
        split = rw h.split (append_assoc gone w.ring (t ∷ []));
        ascending = Ascending-snoc hist t r.lsn newest.1 f.1 h.ascending;
        sources = All-append _ hist (t ∷ []) h.sources (f.0, tt);
        newest = (f.0, UpTo-snoc t hist r.lsn (omega arith) newest.1);
        floored = h.floored;
        evicted = h.evicted;
      }

  pub push-Tracks :
      {hist gone : List Transaction} {w : Window} (t : Transaction)
      → Fresh sid w.received t
      → Tracks sid hist gone w
      → (gone' : List Transaction) × Tracks sid (hist ++ t ∷ []) gone' (push t w)
  unfolding push
  push-Tracks {hist} {gone} {w} t f h =
      evict_over-Tracks (length (w.ring ++ t ∷ []))
        (extend-Tracks hist gone w t w.received refl f h)

  pub record_snapshot-Tracks :
      {hist gone : List Transaction} {w : Window} (c : Cursor)
      → c.source_id ≡ sid
      → Tracks sid hist gone w
      → Tracks sid hist gone (record_snapshot c w)
  unfolding record_snapshot
  record_snapshot-Tracks {hist} {gone} {w} c s h = record {
    split = h.split;
    ascending = h.ascending;
    sources = h.sources;
    newest = h.newest;
    floored = snapshot_floor-Floored sid gone w.floor w.last_evicted c h.floored h.evicted s;
    evicted = h.evicted;
  }

  pub invalidate-Tracks :
      {hist gone : List Transaction} {w : Window} (c : Cursor)
      → w.received ≡ some c
      → Tracks sid hist gone w
      → Tracks sid hist gone (invalidate c w)
  unfolding invalidate
  invalidate-Tracks {hist} {gone} {w} c e h =
      let newest : (c.source_id ≡ sid) × UpTo c.lsn hist = rw e at h.newest in
      let older : UpTo c.lsn gone = All-left _ gone w.ring (rw h.split at newest.1) in
      record {
        split = h.split;
        ascending = h.ascending;
        sources = h.sources;
        newest = h.newest;
        floored = raise-Floored sid gone gone w.floor c h.floored newest.0 older;
        evicted = latest-Newest sid gone w.last_evicted c h.evicted newest.0 older;
      }

-- What a watcher that resumes from `c` must still apply, as `After` tests it.
abbrev pub needed : Cursor → Transaction → Bool
needed c t = leb c.lsn t.commit_lsn

-- A commit record starts before it ends.
abbrev pub CommitsBeforeEnd : Transaction → Type 0
CommitsBeforeEnd t = t.commit_lsn < end_lsn t

replayable-Floored :
    (w : Window) (c : Cursor)
    → replayable w c ≡ true
    → (f : Cursor) × (w.floor ≡ some f) × (f.lsn ≤ c.lsn) × (f.source_id ≡ c.source_id)
unfolding replayable compare
replayable-Floored w c h = elim (Option-cases w.floor) [
  | inl e ↦ absurd (ground arith)
  | inr (f, e) ↦ (
    f,
    e,
    ground (arith, text_eq_iff c.source_id f.source_id),
    ground (arith, text_eq_iff c.source_id f.source_id),
  )
]

not_needed :
    (n : ℕ) (c : Cursor) (ts : List Transaction)
    → n ≤ c.lsn
    → UpTo n ts
    → All CommitsBeforeEnd ts
    → filter (needed c) ts ≡ []
not_needed n c [] le u a = refl
not_needed n c (t ∷ ts) le u a = ground (arith, not_needed n c ts le u.1 a.1)

-- Where the window tracks the history of what was accepted, every accepted transaction commits
-- before it ends, and the window accepts a cursor: what the cursor still needs of the whole history
-- is what it needs of the ring. Nothing that it needs has been evicted.
pub replayable_complete :
    {sid : Text} {hist gone : List Transaction} {w : Window} (c : Cursor)
    → Tracks sid hist gone w
    → All CommitsBeforeEnd hist
    → replayable w c ≡ true
    → filter (needed c) hist ≡ filter (needed c) w.ring
replayable_complete {sid} {hist} {gone} {w} c h commits r =
    let (f, e, le, _) = replayable-Floored w c r in
    let floored : (f.source_id ≡ sid) × UpTo f.lsn gone = rw e at h.floored in
    rw
      (
        h.split,
        filter-append (needed c) gone,
        not_needed f.lsn c gone le floored.1
            (All-left CommitsBeforeEnd gone w.ring (rw h.split at commits)),
      )
      refl
