-- ===== src/Tests/Readings.antt =====
-- internal/cdc/snapshot.go and bootstrap.go on a scope of one row, with a transaction that commits
-- after the snapshot.
use mathlib.Core.List.{nil≢cons, tail-eq_of_cons-eq}
use watchd.Base.{
  ◌≡◌, refl, sym, ap, subst, ok-injective, Bool, true, false, Text, leb, Bool-cases, inl, inr,
  if◌then◌else◌, List, [], ◌∷◌, ◌++◌, Option, none, some, codes, text_eq, Result, ok, take, arith,
}
use watchd.Cdc.Failure.{Failure}
use watchd.Cdc.Cursor.{LsnText}
use watchd.Cdc.Transaction.{Transaction, ProjectionSpec}
use watchd.Cdc.Visibility.{Visibility, parse_visibility, new_snapshot}
use watchd.Cdc.Validation.{
  validate_projection_spec_config, validate_source_projection_spec, same_strings,
  validate_publication, validate_projection_spec,
}
use watchd.Cdc.Paging.{next_key, row_text, scan_rows}
use watchd.Cdc.Session.{
  ◌>>=◌, see, check, ask, change, return, deferring, connect_with_timeout, Database, View, fresh,
  exported, SlotState, CreatedSlot, World, Connection, Connect, done,
}
use watchd.Cdc.Session.Rules.{Returns}
use watchd.Cdc.Session.Endings.{Ends}
use watchd.Cdc.Reading.{
  snapshot, snapshot_queries, validate_projection, read_snapshot, read_in_transaction, choose_view,
  check_replay_window, is_exported_name,
}
use watchd.Cdc.Reading.Traced.{Scoped, parsed}
use watchd.Cdc.Reading.Gapless.{Committed, Meets, snapshot_gapless}
use watchd.Cdc.Bootstrap.{
  bootstrap, bootstrap_queries, read_created, create_bootstrap_slot, created_slot,
}
use watchd.Cdc.Bootstrap.Boundary.{Exports, Joins, bootstrap_boundary}
use watchd.Cdc.Bootstrap.Cleanup.{Serving, Withdrawn, bootstrap_cleanup}
use watchd.Cdc.Shape.{Shape}
use watchd.Watch.Event.{SnapshotRow}

-- Positions are the first bytes of their texts, to keep the numbers small.
abbrev first_byte : LsnText
first_byte = record {
  lsn_text = λ n. n ∷ [];
  parse_lsn = λ t. elim t [ [] ↦ none | c ∷ cs ↦ some c ];
}

abbrev spec : ProjectionSpec
spec = record {
  source_id = codes "s";
  schema = codes "public";
  table = codes "grants";
  scope_column = codes "id";
  primary_key = codes "id" ∷ [];
}

abbrev row : SnapshotRow
row = (codes "id", some (codes "a")) ∷ []

abbrev grants : Shape
grants = record {
  table = codes "public.grants";
  oid = 7;
  replica_identity = 100;
  columns = [];
  key = codes "id" ∷ [];
}

abbrev our_slot : SlotState
our_slot = record {
  slot_type = codes "logical";
  plugin = codes "pgoutput";
  active = true;
  resume_lsn = codes "A";
  restart_lsn = codes "A";
}

abbrev created : CreatedSlot
created = record { consistent_point = codes "F"; snapshot_name = codes "0-1" }

-- The slot retains from "A" on, which is 65, and the insert position is "B"; a snapshot sees
-- the transactions below 11, and from the moment 90 on those below 12.
abbrev text_at : Bool → Text
text_at true = codes "12:12:"
text_at false = codes "10:11:"

abbrev text_of : View → Text
text_of (fresh t) = text_at (leb 90 t)
text_of (exported name) = codes "10:11:"

abbrev database : Database
database = record {
  replication = λ t. Connect.connected;
  management = λ t. Connect.connected;
  cleanup = λ t. none;
  publication =
      λ t. ok (some (record { inserts = true; updates = true; deletes = true; truncates = false }));
  catalog = λ t. record {
    table = ok (true, true);
    primary_key = ok (codes "id" ∷ []);
    published = ok true;
    shape = ok grants;
  };
  slot = λ t. ok (some our_slot);
  create_slot = λ t. ok created;
  drop_slot = λ t. none;
  insert_lsn = λ t. ok (codes "B");
  begin_transaction = λ t. ok tt;
  set_snapshot = λ t name. ok tt;
  snapshot_text = λ v. ok (text_of v);
  page = λ v key. elim key [ none ↦ ok (row ∷ []) | some k ↦ ok [] ];
  commit = λ t. ok tt;
  start_replication = λ t cursor. ok tt;
}

-- Without the slot, as a bootstrap wants it.
abbrev new_database : Database
new_database = record database { slot = λ t. ok none }

abbrev world : World
world = record {
  moment = 0;
  stream = Connection.absent;
  management = Connection.absent;
  transaction = false;
  created = 0;
  dropped = 0;
  transferred = false;
  bootstrap_stream = none;
  shapes = record { gen = 0; by_table = λ _. none; by_oid = λ _. none };
  pages = [];
}

abbrev takes_all : List SnapshotRow → Option Failure
takes_all page = none

abbrev later : Transaction
later = record {
  cursor = record { source_id = codes "s"; lsn = 71 };
  changes = [];
  incompatible = [];
  commit_lsn = 70;
  xid = 11;
}

abbrev rows : View → List SnapshotRow
rows v = row ∷ []

after_row :
    (before after : List SnapshotRow) (r : SnapshotRow)
    → row ∷ [] ≡ before ++ r ∷ after
    → ok [] ≡ (let t : Result Failure (List SnapshotRow) = ok (take 2 after) in t)
after_row [] after r e = rw (sym (tail-eq_of_cons-eq e)) refl
after_row (x ∷ []) after r e = absurd (nil≢cons (tail-eq_of_cons-eq e))
after_row (x ∷ y ∷ before) after r e = absurd (nil≢cons (tail-eq_of_cons-eq e))

database-Scoped : Scoped database (codes "id" ∷ []) 2 5 takes_all rows
unfolding next_key row_text text_eq
database-Scoped = record {
  fetches = λ v. (refl, λ before after r key e k. after_row before after r e);
  keyed = λ v. ((codes "a" ∷ [], refl), tt);
  taken = λ page. refl;
  some_rows = omega arith;
  enough = λ v. omega arith;
}

new_database-Scoped : Scoped new_database (codes "id" ∷ []) 2 5 takes_all rows
unfolding next_key row_text text_eq
new_database-Scoped = record {
  fetches = λ v. (refl, λ before after r key e k. after_row before after r e);
  keyed = λ v. ((codes "a" ∷ [], refl), tt);
  taken = λ page. refl;
  some_rows = omega arith;
  enough = λ v. omega arith;
}

abbrev seen : Visibility
seen = record { xmin = 10; xmax = 11; in_progress = [] }

abbrev seen_later : Visibility
seen_later = record { xmin = 12; xmax = 12; in_progress = [] }

parses :
    (late : Bool) (v : Visibility)
    → parsed (text_at late) ≡ some v
    → v ≡ (if late then seen_later else seen)
unfolding parse_visibility
parses true v q = let e : some seen_later ≡ some v = q in cc
parses false v q = let e : some seen ≡ some v = q in cc

-- The transaction 11 has its commit record from the moment 80 on, and is visible from 90 on.
later-Committed : Committed first_byte database later 11 80 90
later-Committed = record {
  low_bits = refl;
  writes = λ asked position p early. let e : some 66 ≡ some position = p in ground arith;
  shows = λ fixed v q visible.
      let late : leb 90 fixed ≡ true = ground arith in
      let e : v ≡ seen_later = rw late at (parses (leb 90 fixed) v q) in
      rw e (omega arith, inl (omega arith));
  near = λ fixed v q. elim (Bool-cases (leb 90 fixed)) [
    | inl late ↦
        let e : v ≡ seen_later = rw late at (parses (leb 90 fixed) v q) in
        rw e (omega arith, omega arith, omega arith)
    | inr early ↦
        let e : v ≡ seen = rw early at (parses (leb 90 fixed) v q) in
        rw e (omega arith, omega arith, omega arith)
  ];
}

later-Exports : Exports first_byte new_database later 11
unfolding parse_visibility
later-Exports = record {
  low_bits = refl;
  named = λ moment slot e. (_, _, ap (λ s. s.snapshot_name) (sym (ok-injective e)));
  consistent = λ moment slot point v e p q.
      let v_seen : some seen ≡ some v = q in
      let at_point : some 70 ≡ some point =
        subst (λ s. first_byte.parse_lsn s.consistent_point ≡ some point) (sym (ok-injective e))
          p in
      (λ sees. ground arith, λ l. ground arith);
  near = λ moment slot v e q. let v_seen : some seen ≡ some v = q in ground arith;
}

snapshot_gapless_example :
    Returns
      (λ s w'. Meets first_byte database rows later 11 80 90 [] s w'.pages)
      (snapshot first_byte (codes "s") 2 5 database spec (some takes_all))
      world
snapshot_gapless_example =
    snapshot_gapless first_byte (codes "s") 2 5 database spec takes_all rows database-Scoped later
      11 80 90 later-Committed refl world

bootstrap_boundary_example :
    Returns
      (λ s w'. Joins new_database rows later [] s w'.pages)
      (bootstrap first_byte (codes "s") 2 5 new_database spec (some takes_all))
      world
bootstrap_boundary_example =
    bootstrap_boundary first_byte (codes "s") 2 5 new_database spec takes_all rows
      new_database-Scoped later 11 later-Exports refl world

bootstrap_cleanup_example :
    Ends
      (Serving first_byte (codes "s") 2 5 new_database spec takes_all world)
      (Withdrawn first_byte (codes "s") 2 5 new_database spec takes_all world)
      (bootstrap first_byte (codes "s") 2 5 new_database spec (some takes_all))
      world
bootstrap_cleanup_example =
    bootstrap_cleanup first_byte (codes "s") 2 5 new_database spec takes_all world
      (refl, refl, refl, refl)

-- Both return at these inputs.
snapshot_returns :
    (snapshot first_byte (codes "s") 2 5 database spec (some takes_all) world).0
    ≡ done (new_snapshot (codes "s") 66 (some seen))
unfolding ◌>>=◌ see check ask change return deferring connect_with_timeout snapshot_queries
    validate_publication validate_projection validate_projection_spec read_snapshot
    read_in_transaction choose_view parse_visibility scan_rows check_replay_window next_key row_text
    same_strings validate_source_projection_spec validate_projection_spec_config text_eq
    new_snapshot snapshot
snapshot_returns = refl

bootstrap_returns :
    (bootstrap first_byte (codes "s") 2 5 new_database spec (some takes_all) world).0
    ≡ done (new_snapshot (codes "s") 70 (some seen))
unfolding ◌>>=◌ see check ask change return deferring connect_with_timeout bootstrap_queries
    read_created create_bootstrap_slot created_slot is_exported_name validate_publication
    validate_projection validate_projection_spec read_snapshot read_in_transaction choose_view
    parse_visibility scan_rows next_key row_text same_strings validate_source_projection_spec
    validate_projection_spec_config text_eq new_snapshot bootstrap
bootstrap_returns = refl
