-- ===== src/Tests/Windows.antt =====
-- internal/watch/hub.go on concrete inputs: a replay window of two transactions.
use watchd.Base.{
  ℕ, ◌-◌, ◌≡◌, refl, true, false, [], ◌∷◌, none, some, Text, codes, text_eq, filter, arith,
}
use watchd.Cdc.Cursor.{Cursor, compare}
use watchd.Cdc.Transaction.{Transaction}
use watchd.Watch.Window.{Window, push, record_snapshot, invalidate, replayable}
use watchd.Watch.Window.Replay.{Tracks, replayable_complete, needed}
use watchd.Watch.Window.Floor.{pushes, snapshots, run, invalidate_lasting, push_forgets}

abbrev sid : Text
sid = codes "db"

abbrev at_lsn : ℕ → Cursor
at_lsn n = record { source_id = sid; lsn = n }

abbrev transaction : ℕ → Transaction
transaction n = record {
  cursor = at_lsn n;
  changes = [];
  incompatible = [];
  commit_lsn = n - 1;
  xid = n;
}

-- Two of three transactions are left, and the floor is at the first.
abbrev window : Window
window = record {
  max_replay = 2;
  ring = transaction 20 ∷ transaction 30 ∷ [];
  received = some (at_lsn 30);
  floor = some (at_lsn 10);
  last_evicted = some (at_lsn 10);
}

window-Tracks :
    Tracks sid (transaction 10 ∷ transaction 20 ∷ transaction 30 ∷ []) (transaction 10 ∷ []) window
window-Tracks = record {
  split = refl;
  ascending = ((omega arith, (omega arith, tt)), ((omega arith, tt), (tt, tt)));
  sources = (refl, (refl, (refl, tt)));
  newest = (refl, (omega arith, (omega arith, (omega arith, tt))));
  floored = (refl, (omega arith, tt));
  evicted = (refl, (omega arith, tt));
}

replayable_complete_example :
    filter (needed (at_lsn 20)) (transaction 10 ∷ transaction 20 ∷ transaction 30 ∷ [])
    ≡ filter (needed (at_lsn 20)) (transaction 20 ∷ transaction 30 ∷ [])
unfolding replayable compare text_eq
replayable_complete_example =
    replayable_complete (at_lsn 20) window-Tracks (omega arith, (omega arith, (omega arith, tt)))
      refl

invalidate_lasting_example :
    replayable
      (run (pushes (transaction 40) ∷ snapshots (at_lsn 15) ∷ []) (invalidate (at_lsn 30) window))
      (at_lsn 25)
    ≡ false
invalidate_lasting_example =
    invalidate_lasting window (at_lsn 10) (at_lsn 30) (at_lsn 25)
      (pushes (transaction 40) ∷ snapshots (at_lsn 15) ∷ []) refl refl refl (omega arith)

-- As `window`, before the first snapshot and the first eviction.
abbrev young : Window
young = record window { floor = none; last_evicted = none }

push_forgets_example :
    (replayable (record_snapshot (at_lsn 25) (invalidate (at_lsn 30) young)) (at_lsn 25) ≡ false)
    × (replayable
          (record_snapshot (at_lsn 25) (push (transaction 40) (invalidate (at_lsn 30) young)))
          (at_lsn 25)
        ≡ true)
push_forgets_example =
    push_forgets young (at_lsn 30) (at_lsn 25) (transaction 40) (transaction 20)
      (transaction 30 ∷ []) refl refl refl refl refl (omega arith) (omega arith) refl
