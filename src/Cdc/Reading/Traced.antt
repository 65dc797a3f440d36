-- ===== src/Cdc/Reading/Traced.antt =====
-- internal/cdc/snapshot.go: what `Snapshot` has done where it returns, in the order of its queries.
use watchd.Base.{
  ℕ, suc, ◌≤◌, ◌<◌, ◌≡◌, refl, ap, ◌∙◌, true, not, List, ◌++◌, [], Option, none, some, Text, Result,
  ok, err, or_err, or_err-ok, require, ltb, All, length, arith,
}
use watchd.Cdc.Error.{Error}
use watchd.Cdc.Failure.{Failure, plain, Kind}
use watchd.Cdc.Cursor.{LsnText}
use watchd.Cdc.Transaction.{ProjectionSpec}
use watchd.Cdc.Visibility.{Visibility, Snapshot, new_snapshot, parse_visibility}
use watchd.Cdc.Paging.{scan_rows}
use watchd.Cdc.Paging.Complete.{Fetches, Keyed, pages_rows, scan_rows-Delivers}
use watchd.Cdc.Slot.{parse_lsn}
use watchd.Cdc.Session.{see, Database, View, fresh, World, postgres, SlotState, tick}
use watchd.Cdc.Session.Rules.{
  Returns, gives, checked, next_ask, next_see, changes, next_check, next_change, next_part,
  through_defer,
}
use watchd.Cdc.Reading.{
  choose_view, visibility_result, deliver, read_in_transaction, read_snapshot, check_replay_window,
  in_transaction, validate_projection, snapshot_queries, snapshot,
}
use watchd.Watch.Event.{SnapshotRow}

-- PostgreSQL's answers at a moment, as the code reads them.
abbrev pub read_text : {A : Type 0} → (Text → Option A) → Result Failure Text → Option A
read_text read (ok text) = read text
read_text read (err e) = none

abbrev pub parsed : Text → Option Visibility
parsed text = elim (parse_visibility text) [ ok v ↦ some v | err e ↦ none ]

abbrev pub position_at : LsnText → Database → ℕ → Option ℕ
position_at lsn db t = read_text lsn.parse_lsn (postgres (db.insert_lsn t))

abbrev pub visibility_at : Database → ℕ → Option Visibility
visibility_at db t = read_text parsed (postgres (db.snapshot_text (fresh t)))

abbrev pub restart_of : LsnText → Result Failure (Option SlotState) → Option ℕ
restart_of lsn (ok (some slot)) = lsn.parse_lsn slot.restart_lsn
restart_of lsn (ok none) = none
restart_of lsn (err e) = none

abbrev pub restart_at : LsnText → Database → ℕ → Option ℕ
restart_at lsn db t = restart_of lsn (postgres (db.slot t))

pub parsed_visibility :
    (read : Result Failure Text) (text : Text) (v : Visibility)
    → read ≡ ok text
    → visibility_result (parse_visibility text) ≡ ok v
    → read_text parsed read ≡ some v
parsed_visibility read text v e h = rw e (go (parse_visibility text) h)
  where
    go :
        (r : Result Error Visibility)
        → visibility_result r ≡ ok v
        → ◌≡◌ {A = Option Visibility} (elim r [ ok v ↦ some v | err e ↦ none ]) (some v)
    go (ok u) h' = cc
    go (err x) h' = absurd (cc)

-- The scope has these rows in the snapshot of a moment, and the database returns its pages in the
-- order of their keys; the sink takes every page, and there is fuel for all of them.
pub record Scoped (db : Database) (primary_key : List Text) (batch_rows fuel : ℕ)
    (sink : List SnapshotRow → Option Failure) (rows : View → List SnapshotRow) : Type 0 where
  pub fetches : (v : View) → Fetches (db.page v) sink primary_key batch_rows (rows v)
  pub keyed : (v : View) → All (Keyed (db.page v) sink primary_key batch_rows (rows v)) (rows v)
  pub taken : (page : List SnapshotRow) → sink page ≡ none
  pub some_rows : 0 < batch_rows
  pub enough : (v : View) → length (rows v) < fuel

module _ (db : Database) (primary_key : List Text) (batch_rows fuel : ℕ)
    (sink : List SnapshotRow → Option Failure) (rows : View → List SnapshotRow)
    (scoped : Scoped db primary_key batch_rows fuel sink rows) where
  -- The sink was given all rows of the scope in this snapshot, beside what it had before.
  abbrev pub Given : View → List (List SnapshotRow) → List (List SnapshotRow) → Type 0
  Given v before now =
      (pages : List (List SnapshotRow)) × (now ≡ before ++ pages) × (pages_rows pages ≡ rows v)

  -- What `readSnapshot` returns with from the state `w`: its visibility is that of the moment after
  -- its first query, and so are the rows that it gave the sink.
  abbrev pub Read : World → Visibility → World → Type 0
  Read w v w' =
      (visibility_at db (suc w.moment) ≡ some v)
      × (suc w.moment < w'.moment)
      × Given (fresh (suc w.moment)) w.pages w'.pages

  pub delivered :
      (view : View) (w : World)
      → Returns
          (λ x w'. (w'.moment ≡ w.moment) × Given view w.pages w'.pages)
          (deliver (scan_rows (db.page view) sink primary_key batch_rows fuel none))
          w
  unfolding Returns
  delivered view w =
      let d =
        scan_rows-Delivers (db.page view) sink primary_key batch_rows (rows view) fuel none []
          (rows view) (scoped.fetches view) scoped.taken scoped.some_rows (scoped.keyed view) refl
          (scoped.fetches view).0 (scoped.enough view) in
      rw d.1 (refl, (d.0, refl, d.2))

  -- With no exported snapshot to import, the transaction reads a new one.
  own_view :
      (w : World) → Returns (λ view w'. (view ≡ fresh w.moment) × (w' ≡ w)) (choose_view db []) w
  unfolding Returns choose_view see
  own_view w = (refl, refl)

  pub read_snapshot-Read :
      (w : World) → Returns (Read w) (read_snapshot db primary_key batch_rows fuel sink []) w
  unfolding read_snapshot read_in_transaction
  read_snapshot-Read w = next_ask (Read w) _ _ w λ begun e. next_change (Read w) _ _ _ (
      through_defer (Read w) _ _ _ (λ v w' h. h)
        (next_part (Read w) _ _ _ _ (own_view (in_transaction true (tick w))) λ view w1 h.
          rw (h.0, h.1)
            (next_ask (Read w) _ _ _ λ text e'. next_check (Read w) _ _ _ λ v h'.
              next_part (Read w) _ _ _ _ (delivered (fresh (suc w.moment)) _) λ x w2 d.
                next_ask (Read w) _ _ _ λ committed e''.
                  gives (Read w) _ _ (parsed_visibility _ text v e' h', omega (arith, d.0), d.1))))

-- What a `Snapshot` that returned has done: it read its cursor, then fixed the snapshot of its rows
-- and its visibility, and then saw what the slot retains.
pub record Traced (lsn : LsnText) (db : Database) (source_id : Text)
    (rows : View → List SnapshotRow) (before : List (List SnapshotRow)) (s : Snapshot)
    (now : List (List SnapshotRow)) : Type 0 where
  pub asked : ℕ
  pub fixed : ℕ
  pub last : ℕ
  pub position : ℕ
  pub restart : ℕ
  pub visibility : Visibility
  pub pages : List (List SnapshotRow)
  pub asked-fixed : asked < fixed
  pub fixed-last : fixed < last
  pub is_position : position_at lsn db asked ≡ some position
  pub is_visibility : visibility_at db fixed ≡ some visibility
  pub is_restart : restart_at lsn db last ≡ some restart
  pub retained : restart ≤ position
  pub result : s ≡ new_snapshot source_id position (some visibility)
  pub is_now : now ≡ before ++ pages
  pub all_rows : pages_rows pages ≡ rows (fresh fixed)

restart_read :
    (lsn : LsnText) (r : Result Failure (Option SlotState)) (found : Option SlotState)
    (slot : SlotState) (restart : ℕ)
    → r ≡ ok found
    → or_err found (plain Kind.slot_not_found) ≡ ok slot
    → parse_lsn lsn slot.restart_lsn ≡ ok restart
    → restart_of lsn r ≡ some restart
restart_read lsn r found slot restart e e' e'' =
    rw (e, or_err-ok found _ slot e') (or_err-ok _ _ restart e'')

not_below : (a b : ℕ) (e : Failure) → require (not (ltb a b)) e ≡ ok tt → b ≤ a
not_below a b e h = ground arith

module _ (lsn : LsnText) (db : Database) where
  abbrev Checked : ℕ → World → Unit {0} → World → Type 0
  Checked cursor w x w' =
      ((restart : ℕ) × (restart_at lsn db w.moment ≡ some restart) × (restart ≤ cursor))
      × (w'.pages ≡ w.pages)

  check_replay_window-Checked :
      (cursor : ℕ) (w : World) → Returns (Checked cursor w) (check_replay_window lsn db cursor) w
  unfolding check_replay_window
  check_replay_window-Checked cursor w = next_ask (Checked cursor w) _ _ w λ found e.
      next_check (Checked cursor w) _ _ _ λ slot e'.
        next_check (Checked cursor w) _ _ _ λ restart e''. checked (Checked cursor w) _ _ λ fits e3.
          (
            (
              restart,
              restart_read lsn _ found slot restart e e' e'',
              not_below cursor restart _ e3,
            ),
            refl,
          )

pub validate_projection-pages :
    (db : Database) (spec : ProjectionSpec) (w : World)
    → Returns (λ x w'. w'.pages ≡ w.pages) (validate_projection db spec) w
unfolding validate_projection
validate_projection-pages db spec w =
    let Q = λ (x : Unit {0}) (w' : World). w'.pages ≡ w.pages in
    next_see Q _ _ w (next_ask Q _ _ w λ shapes e. changes Q _ _ refl)

module _ (lsn : LsnText) (source_id : Text) (batch_rows fuel : ℕ) (db : Database)
    (spec : ProjectionSpec) (sink : List SnapshotRow → Option Failure)
    (rows : View → List SnapshotRow)
    (scoped : Scoped db spec.primary_key batch_rows fuel sink rows) where
  snapshot_queries-Traced :
      (w : World)
      → Returns
          (λ s w'. Traced lsn db spec.source_id rows w.pages s w'.pages)
          (snapshot_queries lsn source_id batch_rows fuel db spec sink)
          w
  unfolding snapshot_queries
  snapshot_queries-Traced w =
      let T = λ (s : Snapshot) (w' : World). Traced lsn db spec.source_id rows w.pages s w'.pages in
      next_ask T _ _ w λ published e.
        next_part T (λ x w'. w'.pages ≡ w.pages) _ _ _ (validate_projection-pages db spec (tick w))
          λ x w1 same. next_ask T _ _ _ λ found e1. next_check T _ _ _ λ slot e2.
            next_check T _ _ _ λ ours e3. next_ask T _ _ _ λ text e4.
              next_check T _ _ _ λ position e5.
                next_part T _ _ _ _
                  (read_snapshot-Read db spec.primary_key batch_rows fuel sink rows scoped
                    (tick (tick w1)))
                  λ visibility w2 read.
                    next_part T _ _ _ _ (check_replay_window-Checked lsn db position w2)
                      λ y w3 window. gives T _ _ (record {
                        asked = suc w1.moment;
                        fixed = suc (suc (suc w1.moment));
                        last = w2.moment;
                        position = position;
                        restart = window.0.0;
                        visibility = visibility;
                        pages = read.2.0;
                        asked-fixed = omega arith;
                        fixed-last = read.1;
                        is_position = rw e4 (or_err-ok _ _ position e5);
                        is_visibility = read.0;
                        is_restart = window.0.1;
                        retained = window.0.2;
                        result = refl;
                        all_rows = read.2.2;
                        is_now = window.1 ∙ read.2.1 ∙ ap (λ l. l ++ read.2.0) same;
                      })

  pub snapshot-Traced :
      (w : World)
      → Returns
          (λ s w'. Traced lsn db spec.source_id rows w.pages s w'.pages)
          (snapshot lsn source_id batch_rows fuel db spec (some sink))
          w
  unfolding snapshot
  snapshot-Traced w =
      let T = λ (s : Snapshot) (w' : World). Traced lsn db spec.source_id rows w.pages s w'.pages in
      next_check T _ _ w λ described e. next_ask T _ _ w λ connected e'.
        next_change T _ _ _ (through_defer T _ _ _ (λ s w' h. h) (snapshot_queries-Traced _))
