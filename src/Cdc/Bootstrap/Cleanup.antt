-- ===== src/Cdc/Bootstrap/Cleanup.antt =====
-- internal/cdc/bootstrap.go: what a bootstrap leaves behind.
use watchd.Base.{
  ℕ, suc, ◌+◌, ◌≤◌, ◌≡◌, refl, true, false, List, [], ◌∷◌, Option, none, some, Text, arith, ◌⊎◌,
  inl, inr, Bool-cases, Option-cases,
}
use watchd.Cdc.Failure.{Failure, ConnectFault}
use watchd.Cdc.Cursor.{LsnText}
use watchd.Cdc.Transaction.{ProjectionSpec}
use watchd.Cdc.Visibility.{Visibility, Snapshot, new_snapshot}
use watchd.Cdc.Session.{Database, View, CreatedSlot, World, Connection, is_opened, shut, tick, see}
use watchd.Cdc.Session.Endings.{
  Ends, end_give, end_defer, end_part, end_weaken, end_ask, end_see, end_then, end_change,
  end_changes,
}
use watchd.Cdc.Paging.{Scanned}
use watchd.Cdc.Reading.{
  read_snapshot, read_in_transaction, choose_view, deliver, validate_projection,
}
use watchd.Cdc.Slot.{managed, open_management}
use watchd.Cdc.Bootstrap.{
  open_stream, count_created, drop_slot, read_created, is_gone, bootstrap_queries, bootstrap,
  create_bootstrap_slot,
}
use watchd.Watch.Event.{SnapshotRow}

-- The call holds what it held. Only the fields of what it holds are compared.
abbrev Holds : World → World → Type 0
Holds w w' =
    (w'.stream ≡ w.stream)
    × (w'.management ≡ w.management)
    × (w'.created ≡ w.created)
    × (w'.dropped ≡ w.dropped)
    × (w'.transferred ≡ w.transferred)
    × (w'.bootstrap_stream ≡ w.bootstrap_stream)

-- It has no transaction open, either.
abbrev Rests : World → World → Type 0
Rests w w' = Holds w w' × (w'.transaction ≡ false)

module _ (db : Database) where
  choose_view-Holds :
      (w0 : World) (name : Text) (w : World)
      → Holds w0 w
      → Ends (λ v w'. Holds w0 w') (Holds w0) (choose_view db name) w
  unfolding choose_view Ends see
  choose_view-Holds w0 [] w h = h
  choose_view-Holds w0 (c ∷ cs) w h =
      let Q = λ (v : View) (w' : World). Holds w0 w' in
      end_then Q (Holds w0) _ _ w h
        λ x e. end_ask Q (Holds w0) _ _ w h λ y e'. end_give Q (Holds w0) _ _ h

  deliver-Holds :
      (w0 : World) (scanned : Option Scanned) (w : World)
      → Holds w0 w
      → Ends (λ x w'. Holds w0 w') (Holds w0) (deliver scanned) w
  unfolding Ends
  deliver-Holds w0 none w h = tt
  deliver-Holds w0 (some (pages, none)) w h = h
  deliver-Holds w0 (some (pages, some e)) w h = h

  read_snapshot-Rests :
      (primary_key : List Text) (batch_rows fuel : ℕ) (sink : List SnapshotRow → Option Failure)
      (name : Text) (w0 w : World)
      → Rests w0 w
      → Ends
          (λ v w'. Rests w0 w')
          (Rests w0)
          (read_snapshot db primary_key batch_rows fuel sink name)
          w
  unfolding read_snapshot read_in_transaction
  read_snapshot-Rests primary_key batch_rows fuel sink name w0 w h =
      let Q = λ (v : Visibility) (w' : World). Holds w0 w' in
      end_ask (λ v w'. Rests w0 w') (Rests w0) _ _ w h
        λ begun e.
          end_change (λ v w'. Rests w0 w') (Rests w0) _ _ _
            (end_defer (λ v w'. Rests w0 w') (Rests w0) Q (Holds w0) _ _ _ (λ v w' k. (k, refl))
              (λ f w' k. (k, refl))
              (end_part Q (Holds w0) _ _ _ _ (choose_view-Holds w0 name _ h.0) λ view w1 h1.
                end_ask Q (Holds w0) _ _ w1 h1 λ text e1. end_then Q (Holds w0) _ _ _ h1 λ v e2.
                  end_part Q (Holds w0) _ _ _ _ (deliver-Holds w0 _ _ h1) λ x w2 h2.
                    end_ask Q (Holds w0) _ _ w2 h2 λ committed e3. end_give Q (Holds w0) v _ h2))

  validate_projection-Rests :
      (spec : ProjectionSpec) (w0 w : World)
      → Rests w0 w
      → Ends (λ x w'. Rests w0 w') (Rests w0) (validate_projection db spec) w
  unfolding validate_projection
  validate_projection-Rests spec w0 w h =
      let Q = λ (x : Unit {0}) (w' : World). Rests w0 w' in
      end_see Q (Rests w0) _ _ w
        (end_ask Q (Rests w0) _ _ w h λ shapes e. end_changes Q (Rests w0) _ _ h)

-- A bootstrap that has started the stream, from the state `b` before it created the slot.
abbrev Started : World → Snapshot → World → Type 0
Started b s w =
    (w.stream ≡ b.stream)
    × (w.management ≡ b.management)
    × (w.transaction ≡ false)
    × (w.transferred ≡ true)
    × (w.bootstrap_stream ≡ some s.cursor.lsn)
    × (w.created ≡ suc b.created)
    × (w.dropped ≡ b.dropped)

-- The cleanup failed, as the last thing that was asked before this moment: it did not connect, or it
-- connected and PostgreSQL did not drop the slot.
abbrev pub Uncleaned : Database → ℕ → Type 0
Uncleaned db last =
    ((t : ℕ) × (last ≡ suc t) × (fault : ConnectFault) × (db.cleanup t ≡ some fault))
    ⊎ ((t : ℕ) × (last ≡ suc (suc t))
        × (db.cleanup t ≡ none)
        × (is_gone (db.drop_slot (suc t)) ≡ false))

-- From one state to another, as many slots were dropped as created, one at most; or the one that was
-- created is left, for a cleanup that failed.
abbrev pub SlotsDropped : Database → World → World → Type 0
SlotsDropped db b w =
    ((w.created + b.dropped ≡ b.created + w.dropped) × (w.created ≤ suc b.created))
    ⊎ ((w.created ≡ suc b.created) × (w.dropped ≡ b.dropped) × Uncleaned db w.moment)

-- One that has failed: it has dropped what it created.
abbrev Undone : Database → World → World → Type 0
Undone db b w =
    (shut w.stream ≡ shut b.stream)
    × (w.management ≡ b.management)
    × (w.transaction ≡ false)
    × (w.transferred ≡ b.transferred)
    × (w.bootstrap_stream ≡ b.bootstrap_stream)
    × SlotsDropped db b w

Rests-Undone : (db : Database) (b w : World) → Rests b w → Undone db b w
Rests-Undone db b w h =
    (ground arith, ground arith, ground arith, ground arith, ground arith, inl (ground arith))

drop_slot-Undone :
    (db : Database) (b w : World) → Rests (count_created b) w → Undone db b (drop_slot db w)
unfolding drop_slot
drop_slot-Undone db b w h = elim (Option-cases (db.cleanup w.moment)) [
  | inr (fault, e) ↦
      rw (e, drop_slot)
        (
          ground arith,
          ground arith,
          ground arith,
          ground arith,
          ground arith,
          inr (ground arith, ground arith, inl (w.moment, refl, fault, e)),
        )
  | inl e ↦ elim (Bool-cases (is_gone (db.drop_slot (suc w.moment)))) [
    | inl gone ↦
        rw (e, gone, drop_slot)
          (ground arith, ground arith, ground arith, ground arith, ground arith, inl (ground arith))
    | inr kept ↦
        rw (e, kept, drop_slot)
          (
            ground arith,
            ground arith,
            ground arith,
            ground arith,
            ground arith,
            inr (ground arith, ground arith, inr (w.moment, refl, e, kept)),
          )
  ]
]

module _ (lsn : LsnText) (source_id : Text) (batch_rows fuel : ℕ) (db : Database)
    (spec : ProjectionSpec) (sink : List SnapshotRow → Option Failure) where
  create_bootstrap_slot-Rests :
      (b w : World)
      → Rests b w
      → Ends (λ slot w'. Rests (count_created b) w') (Rests b) (create_bootstrap_slot db) w
  unfolding create_bootstrap_slot
  create_bootstrap_slot-Rests b w h =
      let Q = λ (slot : CreatedSlot) (w' : World). Rests (count_created b) w' in
      end_ask Q (Rests b) _ _ w h λ found e. end_then Q (Rests b) _ _ _ h λ x e'.
        end_ask Q (Rests b) _ _ _ h
          λ slot e''. end_change Q (Rests b) _ _ _ (end_give Q (Rests b) _ _ (ground arith))

  read_created-Started :
      (slot : CreatedSlot) (b w : World)
      → Rests (count_created b) w
      → Ends
          (Started b)
          (Rests (count_created b))
          (read_created lsn source_id batch_rows fuel db spec sink slot)
          w
  unfolding read_created new_snapshot
  read_created-Started slot b w h =
      let Q = Started b in
      let F = Rests (count_created b) in
      end_then Q F _ _ w h λ cursor e.
        end_part Q F _ _ _ _
          (read_snapshot-Rests db spec.primary_key batch_rows fuel sink slot.snapshot_name
            (count_created b) w h)
          λ visibility w1 h1.
            end_ask Q F _ _ w1 h1 λ x e'. end_change Q F _ _ _ (end_give Q F _ _ (ground arith))

  bootstrap_queries-Started :
      (b : World)
      → b.transaction ≡ false
      → Ends
          (Started b)
          (Undone db b)
          (bootstrap_queries lsn source_id batch_rows fuel db spec sink)
          b
  unfolding bootstrap_queries
  bootstrap_queries-Started b idle =
      let Q = Started b in
      let F = Undone db b in
      let kept : Rests b b = ((refl, refl, refl, refl, refl, refl), idle) in
      end_ask Q F _ _ b (Rests-Undone db b (tick b) kept) λ published e.
        end_part Q F (λ x w. Rests b w) _ _ _
          (end_weaken _ F (Rests b) _ _ (Rests-Undone db b)
            (validate_projection-Rests db spec b (tick b) kept))
          λ x w1 h1.
            end_part Q F (λ slot w. Rests (count_created b) w) _ _ _
              (end_weaken _ F (Rests b) _ _ (Rests-Undone db b)
                (create_bootstrap_slot-Rests b w1 h1))
              λ slot w2 h2.
                end_defer Q F Q (Rests (count_created b)) _ _ _ (λ s w h. h)
                  (λ f w h. drop_slot-Undone db b w h) (read_created-Started slot b w2 h2)

  -- Nothing is open or kept yet.
  abbrev pub Idle : World → Type 0
  Idle w =
      (w.stream ≡ Connection.absent)
      × (w.management ≡ Connection.absent)
      × (w.transaction ≡ false)
      × (w.transferred ≡ false)

  -- The stream is open and left to `Run` at the position of the snapshot's cursor, with a new slot;
  -- nothing else is open.
  abbrev pub Serving : World → Snapshot → World → Type 0
  Serving w s w' =
      (w'.stream ≡ Connection.opened)
      × (is_opened w'.management ≡ false)
      × (w'.transaction ≡ false)
      × (w'.bootstrap_stream ≡ some s.cursor.lsn)
      × (w'.created ≡ suc w.created)
      × (w'.dropped ≡ w.dropped)

  -- Nothing is open, the reader keeps no new stream, and the slots are as `SlotsDropped` says.
  abbrev pub Withdrawn : World → World → Type 0
  Withdrawn w w' =
      (is_opened w'.stream ≡ false)
      × (is_opened w'.management ≡ false)
      × (w'.transaction ≡ false)
      × (w'.bootstrap_stream ≡ w.bootstrap_stream)
      × SlotsDropped db w w'

  -- The same before the stream is closed, unless it was left to `Run`.
  abbrev Kept : World → Snapshot → World → Type 0
  Kept w s w' = Serving w s w' × (w'.transferred ≡ true)

  abbrev Left : World → World → Type 0
  Left w w' =
      (shut w'.stream ≡ Connection.closed)
      × (is_opened w'.management ≡ false)
      × (w'.transaction ≡ false)
      × (w'.transferred ≡ false)
      × (w'.bootstrap_stream ≡ w.bootstrap_stream)
      × SlotsDropped db w w'

  managed-Kept :
      (w : World)
      → Idle w
      → let v = open_stream (tick w) in
        Ends
          (Kept w)
          (Left w)
          (managed db (bootstrap_queries lsn source_id batch_rows fuel db spec sink))
          v
  managed-Kept w idle =
      let v = open_stream (tick w) in
      let b = open_management (tick v) in
      end_ask (Kept w) (Left w) _ _ v (ground arith) λ connected e.
        end_change (Kept w) (Left w) _ _ _ (
          end_defer (Kept w) (Left w) (Started b) (Undone db b) _ _ _ (λ s w' h. ground arith)
            (λ f w' h. ground arith) (bootstrap_queries-Started b idle.2))

  -- A bootstrap that returns a snapshot leaves the stream open for `Run` at the snapshot's cursor,
  -- with one new slot and nothing else open. One that returns an error leaves nothing open and no
  -- stream behind, and has dropped exactly the slots that it created; only where its cleanup failed,
  -- because it did not connect or PostgreSQL did not drop the slot, the one slot that it created is
  -- left. It never drops a slot that it found.
  pub bootstrap_cleanup :
      (w : World)
      → Idle w
      → Ends
          (Serving w)
          (Withdrawn w)
          (bootstrap lsn source_id batch_rows fuel db spec (some sink))
          w
  unfolding bootstrap
  bootstrap_cleanup w idle =
      let Q = Serving w in
      let F = Withdrawn w in
      end_then Q F _ _ w (ground arith) λ described e.
        end_ask Q F _ _ w (ground arith) λ connected e'. end_change Q F _ _ _ (
          end_defer Q F (Kept w) (Left w) _ _ _ (λ s w' h. ground arith) (λ f w' h. ground arith)
            (managed-Kept w idle))
