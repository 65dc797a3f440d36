-- ===== src/Cdc/Reading/Gapless.antt =====
-- internal/cdc/snapshot.go: the rows of `Snapshot` and the stream from its cursor meet without a gap.
use watchd.Base.{
  ℕ, ◌%◌, ◌^◌, ◌+◌, ◌-◌, ◌≤◌, ◌<◌, ◌≡◌, refl, sym, subst, ◌⊎◌, inl, inr, true, false, Bool-cases,
  ltb, List, ◌++◌, Option, some, Text, text_eq_iff, ok, Occurs, arith,
}
use watchd.Cdc.Failure.{Failure}
use watchd.Cdc.Cursor.{LsnText}
use watchd.Cdc.Transaction.{Transaction, ProjectionSpec, after}
use watchd.Cdc.Visibility.{Visibility, Snapshot, new_snapshot, covers}
use watchd.Cdc.Visibility.Widen.{covers_exact}
use watchd.Cdc.Paging.Complete.{pages_rows}
use watchd.Cdc.Session.{Database, View, fresh, World}
use watchd.Cdc.Session.Rules.{weaken, Returns}
use watchd.Cdc.Reading.{snapshot}
use watchd.Watch.Event.{SnapshotRow}
use watchd.Cdc.Reading.Traced.{
  position_at, visibility_at, restart_at, Scoped, Traced, snapshot-Traced,
}

-- The snapshot of this visibility sees the transaction of this full ID.
abbrev pub Sees : Visibility → ℕ → Type 0
Sees v full = (full < v.xmax) × ((full < v.xmin) ⊎ (¬ Occurs full v.in_progress))

-- What PostgreSQL does with a transaction that commits: it writes its commit record, and from a later
-- moment on the transaction is visible to new snapshots. In between it may wait, for example on a
-- synchronous standby. An insert position that is read before the record is written is at or before
-- the record, and a snapshot that is fixed once the transaction is visible sees it. Its full ID stays
-- within 2 ^ 31 of the next one to be assigned.
pub record Committed (lsn : LsnText) (db : Database) (t : Transaction) (full : ℕ)
    (written visible : ℕ) : Type 0 where
  pub low_bits : t.xid ≡ full % 2 ^ 32
  pub writes :
      (asked position : ℕ)
      → position_at lsn db asked ≡ some position
      → asked < written
      → position ≤ t.commit_lsn
  pub shows :
      (fixed : ℕ) (v : Visibility) → visibility_at db fixed ≡ some v → visible ≤ fixed → Sees v full
  pub near :
      (fixed : ℕ) (v : Visibility)
      → visibility_at db fixed ≡ some v
      → (v.xmax < 2 ^ 63 - 2 ^ 31) × (v.xmax ≤ full + 2 ^ 31) × (full < v.xmax + 2 ^ 31)

-- The commit record was there when the cursor was read, and the transaction was still not visible
-- when the snapshot was fixed, after it.
abbrev pub Straddles : ℕ → ℕ → ℕ → ℕ → Type 0
Straddles written visible asked fixed = (written ≤ asked) × (asked < fixed) × (fixed < visible)

-- What is left of a transaction that is not covered: it commits at or after the cursor, or it
-- straddles the read.
abbrev pub Rest : Transaction → Snapshot → Type 0 → Type 0
Rest t s straddles = (covers s t ≡ ok false) × ((after t s.cursor ≡ ok true) ⊎ straddles)

covered_or_rest :
    (t : Transaction) (full position : ℕ) (source_id : Text) (v : Visibility) (straddles : Type 0)
    → t.cursor.source_id ≡ source_id
    → t.xid ≡ full % 2 ^ 32
    → (v.xmax < 2 ^ 63 - 2 ^ 31) × (v.xmax ≤ full + 2 ^ 31) × (full < v.xmax + 2 ^ 31)
    → (¬ Sees v full → (position ≤ t.commit_lsn) ⊎ straddles)
    → let s = new_snapshot source_id position (some v) in
      ((Sees v full) × (covers s t ≡ ok true)) ⊎ ((¬ Sees v full) × Rest t s straddles)
unfolding new_snapshot after
covered_or_rest t full position source_id v straddles same low near later =
    let s = new_snapshot source_id position (some v) in
    let exact = covers_exact s t v full refl same low near.0 near.1 near.2 in
    elim exact.0 [
      | inl yes' ↦ inl (exact.1.0 yes', yes')
      | inr no' ↦
          let unseen : ¬ Sees v full =
            λ sees. let e : covers s t ≡ ok true = exact.1.1 sees in absurd (cc) in
          inr (
            unseen,
            (
              no',
              elim (later unseen) [
                | inl le ↦ inl (ground (arith, text_eq_iff t.cursor.source_id source_id))
                | inr straddle ↦ inr straddle
              ],
            ),
          )
    ]

-- The rows and the stream meet.
pub record Meets (lsn : LsnText) (db : Database) (rows : View → List SnapshotRow) (t : Transaction)
    (full written visible : ℕ) (before : List (List SnapshotRow)) (s : Snapshot)
    (now : List (List SnapshotRow)) : Type 0 where
  pub asked : ℕ
  pub fixed : ℕ
  pub seen : Visibility
  pub last : ℕ
  pub restart : ℕ
  pub pages : List (List SnapshotRow)
  pub is_cursor : position_at lsn db asked ≡ some s.cursor.lsn
  pub asked-fixed : asked < fixed
  pub is_visibility : visibility_at db fixed ≡ some seen
  pub is_seen : s.visibility ≡ some seen
  pub is_now : now ≡ before ++ pages
  pub all_rows : pages_rows pages ≡ rows (fresh fixed)
  pub covered :
      (Sees seen full × (covers s t ≡ ok true))
      ⊎ ((¬ Sees seen full) × Rest t s (Straddles written visible asked fixed))
  pub is_restart : restart_at lsn db last ≡ some restart
  pub retained : restart ≤ s.cursor.lsn
  pub fixed-last : fixed < last

later_or_Straddles :
    (lsn : LsnText) (db : Database) (t : Transaction) (full written visible : ℕ)
    → Committed lsn db t full written visible
    → (asked fixed position : ℕ) (v : Visibility) → asked < fixed
    → position_at lsn db asked ≡ some position
    → visibility_at db fixed ≡ some v
    → ¬ Sees v full
    → (position ≤ t.commit_lsn) ⊎ Straddles written visible asked fixed
later_or_Straddles lsn db t full written visible c asked fixed position v early at_asked at_fixed
      unseen =
    elim (Bool-cases (ltb asked written)) [
      | inl e ↦ inl (c.writes asked position at_asked (ground arith))
      | inr e ↦ elim (Bool-cases (ltb fixed visible)) [
        | inl f ↦ inr (ground arith)
        | inr f ↦ absurd (unseen (c.shows fixed v at_fixed (ground arith)))
      ]
    ]

Traced-Meets :
    (lsn : LsnText) (db : Database) (source_id : Text) (rows : View → List SnapshotRow)
    (t : Transaction) (full written visible : ℕ) (before now : List (List SnapshotRow))
    (s : Snapshot)
    → Committed lsn db t full written visible
    → t.cursor.source_id ≡ source_id
    → Traced lsn db source_id rows before s now
    → Meets lsn db rows t full written visible before s now
unfolding new_snapshot
Traced-Meets lsn db source_id rows t full written visible before now s c same h =
    subst (λ x. Meets lsn db rows t full written visible before x now) (sym h.result)
      (record {
        asked = h.asked;
        fixed = h.fixed;
        seen = h.visibility;
        last = h.last;
        restart = h.restart;
        pages = h.pages;
        is_cursor = h.is_position;
        asked-fixed = h.asked-fixed;
        is_visibility = h.is_visibility;
        is_seen = refl;
        is_now = h.is_now;
        all_rows = h.all_rows;
        covered =
            covered_or_rest t full h.position source_id h.visibility _ same c.low_bits
              (c.near h.fixed h.visibility h.is_visibility)
              (λ unseen.
                later_or_Straddles lsn db t full written visible c h.asked h.fixed h.position
                  h.visibility h.asked-fixed h.is_position h.is_visibility unseen);
        is_restart = h.is_restart;
        retained = h.retained;
        fixed-last = h.fixed-last;
      })

module _ (lsn : LsnText) (source_id : Text) (batch_rows fuel : ℕ) (db : Database)
    (spec : ProjectionSpec) (sink : List SnapshotRow → Option Failure)
    (rows : View → List SnapshotRow) (scoped : Scoped db spec.primary_key batch_rows fuel sink rows)
    (t : Transaction) (full written visible : ℕ)
    (committed : Committed lsn db t full written visible)
    (same : t.cursor.source_id ≡ spec.source_id) where
  -- Where the database returns the rows of the scope in pages, the sink takes every page, and the
  -- fuel is more than the rows: `Snapshot` ends, and where it returns without an error, the cursor
  -- was read at one moment and a snapshot fixed at a later one; the sink was given all rows that the
  -- scope has in that snapshot, and the visibility returned is that of it. Of a committed transaction
  -- of the source, `Covers` is true exactly if the snapshot sees it; one that is not covered commits
  -- at or after the cursor, from which a resume replays it, or it straddles the read: its commit
  -- record was written before the cursor was read, and it became visible only after the snapshot was
  -- fixed. What the slot still retained at a moment after that begins no later than the cursor.
  pub snapshot_gapless :
      (w : World)
      → Returns
          (λ s w'. Meets lsn db rows t full written visible w.pages s w'.pages)
          (snapshot lsn source_id batch_rows fuel db spec (some sink))
          w
  snapshot_gapless w =
      weaken _ _ _ w
        (λ s w'.
          Traced-Meets lsn db spec.source_id rows t full written visible w.pages w'.pages s
            committed same)
        (snapshot-Traced lsn source_id batch_rows fuel db spec sink rows scoped w)
