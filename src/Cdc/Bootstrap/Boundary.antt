-- ===== src/Cdc/Bootstrap/Boundary.antt =====
-- internal/cdc/bootstrap.go: the rows of a bootstrap and the stream that it starts meet with no gap
-- and no overlap.
use native.Mathlib.Decide.{dec_lt}
use watchd.Base.{
  or_err-ok, ℕ, ◌%◌, ◌^◌, ◌+◌, ◌-◌, ◌≤◌, ◌<◌, ◌≡◌, refl, sym, subst, ◌⊎◌, inl, inr, true, false,
  List, ◌++◌, Option, some, Text, text_eq_iff, ok, arith,
}
use watchd.Cdc.Failure.{ConnectionError, Failure}
use watchd.Cdc.Cursor.{LsnText}
use watchd.Cdc.Transaction.{Transaction, ProjectionSpec, after}
use watchd.Cdc.Visibility.{Visibility, Snapshot, new_snapshot, covers}
use watchd.Cdc.Visibility.Widen.{covers_exact}
use watchd.Cdc.Paging.Complete.{pages_rows}
use watchd.Cdc.Session.{Database, View, World}
use watchd.Cdc.Session.Rules.{Returns}
use watchd.Watch.Event.{SnapshotRow}
use watchd.Cdc.Reading.Traced.{Scoped}
use watchd.Base.{
  true, false, List, ◌∷◌, Result, ok, err, suc, text_eq_iff, arith, ◌↔◌, ◌++◌, ap, sym, ◌∙◌,
}
use watchd.Cdc.Reading.Traced.{
  read_text, parsed, parsed_visibility, Given, delivered, validate_projection-pages, Scoped,
}
use watchd.Cdc.Reading.Gapless.{Sees}
use watchd.Cdc.Session.{exported, CreatedSlot, postgres, tick}
use watchd.Cdc.Session.Rules.{
  Returns, gives, next_ask, next_check, next_change, next_part, through_defer,
}
use watchd.Cdc.Reading.{read_snapshot, read_in_transaction, choose_view, in_transaction}
use watchd.Cdc.Bootstrap.{
  close_unless_transferred, bootstrap, bootstrap_queries, read_created, create_bootstrap_slot,
  created_slot,
}

-- What the snapshot of a name sees.
abbrev pub visibility_in : Database → Text → Option Visibility
visibility_in db name = read_text parsed (postgres (db.snapshot_text (exported name)))

-- What PostgreSQL documents of the snapshot that it exports with a new slot: it has a name, and it
-- sees exactly the transactions that commit before the slot's consistent point. The transaction's
-- full ID stays within 2 ^ 31 of the next one to be assigned.
pub record Exports (lsn : LsnText) (db : Database) (t : Transaction) (full : ℕ) : Type 0 where
  pub low_bits : t.xid ≡ full % 2 ^ 32
  pub named :
      (moment : ℕ) (slot : CreatedSlot)
      → db.create_slot moment ≡ ok slot
      → (c : ℕ) × (cs : Text) × (slot.snapshot_name ≡ c ∷ cs)
  pub consistent :
      (moment : ℕ) (slot : CreatedSlot) (point : ℕ) (v : Visibility)
      → db.create_slot moment ≡ ok slot
      → lsn.parse_lsn slot.consistent_point ≡ some point
      → visibility_in db slot.snapshot_name ≡ some v
      → Sees v full ↔ (t.commit_lsn < point)
  pub near :
      (moment : ℕ) (slot : CreatedSlot) (v : Visibility)
      → db.create_slot moment ≡ ok slot
      → visibility_in db slot.snapshot_name ≡ some v
      → (v.xmax < 2 ^ 63 - 2 ^ 31) × (v.xmax ≤ full + 2 ^ 31) × (full < v.xmax + 2 ^ 31)

-- A transaction is in the rows or in the stream from the cursor, and not in both.
abbrev pub InOne : Snapshot → Transaction → Type 0
InOne s t =
    ((covers s t ≡ ok true) × (after t s.cursor ≡ ok false))
    ⊎ ((covers s t ≡ ok false) × (after t s.cursor ≡ ok true))

in_one :
    (t : Transaction) (full point : ℕ) (source_id : Text) (v : Visibility)
    → t.cursor.source_id ≡ source_id
    → t.xid ≡ full % 2 ^ 32
    → (v.xmax < 2 ^ 63 - 2 ^ 31) × (v.xmax ≤ full + 2 ^ 31) × (full < v.xmax + 2 ^ 31)
    → Sees v full ↔ (t.commit_lsn < point)
    → InOne (new_snapshot source_id point (some v)) t
unfolding new_snapshot after
in_one t full point source_id v same low near meets =
    let s = new_snapshot source_id point (some v) in
    let exact = covers_exact s t v full refl same low near.0 near.1 near.2 in
    elim exact.0 [
      | inl yes' ↦
          let before : t.commit_lsn < point = meets.0 (exact.1.0 yes') in
          inl (yes', ground (arith, text_eq_iff t.cursor.source_id source_id))
      | inr no' ↦
          let later : point ≤ t.commit_lsn = elim (dec_lt t.commit_lsn point) [
            | yes p ↦ let e : covers s t ≡ ok true = exact.1.1 (meets.1 p) in absurd (cc)
            | no q ↦ omega arith
          ] in
          inr (no', ground (arith, text_eq_iff t.cursor.source_id source_id))
    ]

-- The rows are those of the exported snapshot.
pub record Joins (db : Database) (rows : View → List SnapshotRow) (t : Transaction)
    (before : List (List SnapshotRow)) (s : Snapshot) (now : List (List SnapshotRow)) : Type 0 where
  pub name : Text
  pub pages : List (List SnapshotRow)
  pub is_visibility : visibility_in db name ≡ s.visibility
  pub is_now : now ≡ before ++ pages
  pub all_rows : pages_rows pages ≡ rows (exported name)
  pub in_one_of : InOne s t

closing_pages : (w : World) → (close_unless_transferred w).pages ≡ w.pages
closing_pages w = ground arith

made_of :
    (r : Result ConnectionError CreatedSlot) (slot : CreatedSlot)
    → created_slot r ≡ ok slot
    → r ≡ ok slot
unfolding created_slot
made_of (ok made) slot e = cc
made_of (err x) slot e = absurd (cc)

module _ (lsn : LsnText) (source_id : Text) (batch_rows fuel : ℕ) (db : Database)
    (spec : ProjectionSpec) (sink : List SnapshotRow → Option Failure)
    (rows : View → List SnapshotRow) (scoped : Scoped db spec.primary_key batch_rows fuel sink rows)
    (t : Transaction) (full : ℕ) (exports : Exports lsn db t full)
    (same : t.cursor.source_id ≡ spec.source_id) where
  abbrev Imported : Text → World → Visibility → World → Type 0
  Imported name w v w' =
      (visibility_in db name ≡ some v)
      × Given db spec.primary_key batch_rows fuel sink rows scoped (exported name) w.pages w'.pages

  -- With a name, the transaction reads the snapshot of that name.
  imported_view :
      (c : ℕ) (cs : Text) (w : World)
      → Returns
          (λ view w'. (view ≡ exported (c ∷ cs)) × (w'.pages ≡ w.pages))
          (choose_view db (c ∷ cs))
          w
  unfolding choose_view
  imported_view c cs w =
      let Q = λ (view : View) (w' : World). (view ≡ exported (c ∷ cs)) × (w'.pages ≡ w.pages) in
      next_check Q _ _ w λ x e. next_ask Q _ _ w λ y e'. gives Q _ _ (refl, refl)

  read_snapshot-Imported :
      (c : ℕ) (cs : Text) (w : World)
      → Returns
          (Imported (c ∷ cs) w)
          (read_snapshot db spec.primary_key batch_rows fuel sink (c ∷ cs))
          w
  unfolding read_snapshot read_in_transaction
  read_snapshot-Imported c cs w =
      let Q = Imported (c ∷ cs) w in
      next_ask Q _ _ w λ begun e. next_change Q _ _ _ (
        through_defer Q _ _ _ (λ v w' h. h)
          (next_part Q _ _ _ _ (imported_view c cs (in_transaction true (tick w))) λ view w1 h.
            rw (h.0) (
              next_ask Q _ _ _ λ text e'. next_check Q _ _ _ λ v h'.
                next_part Q _ _ _ _
                  (delivered db spec.primary_key batch_rows fuel sink rows scoped
                    (exported (c ∷ cs)) (tick w1))
                  λ x w2 d. next_ask Q _ _ _ λ done' e''. gives Q _ _ (
                    parsed_visibility _ text v e' h',
                    (d.1.0, d.1.1 ∙ ap (λ l. l ++ d.1.0) h.1, d.1.2),
                  ))))

  -- What comes after the creation of the slot, from the state `w`.
  Joined : List (List SnapshotRow) → Snapshot → World → Type 0
  Joined before s w = Joins db rows t before s w.pages

  read_created-Joined :
      (before : List (List SnapshotRow)) (slot : CreatedSlot) (moment : ℕ) (w : World)
      → w.pages ≡ before
      → db.create_slot moment ≡ ok slot
      → Returns (Joined before) (read_created lsn source_id batch_rows fuel db spec sink slot) w
  unfolding read_created Joined new_snapshot
  read_created-Joined before slot moment w same_pages made =
      let Q = Joined before in
      let named = exports.named moment slot made in
      next_check Q _ _ w λ cursor e.
        next_part Q (Imported slot.snapshot_name w) _ _ _
          (rw (named.2) (read_snapshot-Imported named.0 named.1 w))
          λ visibility w1 read. next_ask Q _ _ w1 λ x e'. next_change Q _ _ _ (
            gives Q _ _ (record {
              name = slot.snapshot_name;
              pages = read.1.0;
              is_visibility = read.0;
              is_now = read.1.1 ∙ ap (λ l. l ++ read.1.0) same_pages;
              all_rows = read.1.2;
              in_one_of =
                  in_one t full cursor spec.source_id visibility same exports.low_bits
                    (exports.near moment slot visibility made read.0)
                    (exports.consistent moment slot cursor visibility made (or_err-ok _ _ cursor e)
                      read.0);
            }))

  create_bootstrap_slot-made :
      (w : World)
      → Returns
          (λ slot w'. ((moment : ℕ) × (db.create_slot moment ≡ ok slot)) × (w'.pages ≡ w.pages))
          (create_bootstrap_slot db)
          w
  unfolding create_bootstrap_slot
  create_bootstrap_slot-made w =
      let Q = λ (slot : CreatedSlot) (w' : World).
        ((moment : ℕ) × (db.create_slot moment ≡ ok slot)) × (w'.pages ≡ w.pages) in
      next_ask Q _ _ w λ found e. next_check Q _ _ _ λ x e'. next_ask Q _ _ _ λ slot e''.
        next_change Q _ _ _
          (gives Q _ _ ((_, made_of (db.create_slot (suc w.moment)) slot e''), refl))

  -- Where the database returns the rows of the scope in pages, the sink takes every page, and the
  -- fuel is more than the rows: `Bootstrap` ends, and where it returns without an error, the sink was
  -- given all rows that the scope has in the snapshot exported with the slot, whose visibility is
  -- returned, and every transaction of the source is either covered by it or after the cursor, and
  -- not both: the rows and the stream have no gap and no overlap.
  pub bootstrap_boundary :
      (w : World)
      → Returns
          (λ s w'. Joins db rows t w.pages s w'.pages)
          (bootstrap lsn source_id batch_rows fuel db spec (some sink))
          w
  unfolding bootstrap bootstrap_queries Joined
  bootstrap_boundary w =
      let Q = λ (s : Snapshot) (w' : World). Joins db rows t w.pages s w'.pages in
      next_check Q _ _ w λ described e. next_ask Q _ _ w λ connected e'. next_change Q _ _ _ (
        through_defer Q _ _ _
          (λ s w' h. subst (λ now. Joins db rows t w.pages s now) (sym (closing_pages w')) h)
          (next_ask Q _ _ _ λ managed' e''. next_change Q _ _ _ (
            through_defer Q _ _ _ (λ s w' h. h)
              (next_ask Q _ _ _ λ published e3.
                next_part Q _ _ _ _ (validate_projection-pages db spec _) λ x w1 same1.
                  next_part Q _ _ _ _ (create_bootstrap_slot-made w1) λ slot w2 made.
                    through_defer Q _ _ _ (λ s w' h. h)
                      (read_created-Joined w.pages slot made.0.0 w2 (made.1 ∙ same1) made.0.1)))))
