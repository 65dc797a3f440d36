-- ===== src/Tests/Turns.antt =====
-- The loop of `live` of internal/watch/hub.go on concrete inputs.
use watchd.Base.{ℕ, ◌-◌, ◌≡◌, refl, true, false, [], ◌∷◌, none, some, Text, codes, text_eq, ok, All}
use watchd.Cdc.Cursor.{Cursor, later, compare}
use watchd.Cdc.Transaction.{after}
use watchd.Watch.Event.{progress}
use watchd.Watch.Registry.{Queued}
use watchd.Watch.Window.Replay.{needed}
use watchd.Watch.Live.{turn, batch_of}
use watchd.Watch.Live.Turn.{From, turn_complete}

abbrev sid : Text
sid = codes "db"

abbrev at_lsn : ℕ → Cursor
at_lsn n = record { source_id = sid; lsn = n }

abbrev queued : ℕ → Queued
queued n = record {
  transaction = record {
    cursor = at_lsn n;
    changes = [];
    incompatible = [];
    commit_lsn = n - 1;
    xid = n;
  };
  changes = [];
  memo = false;
}

-- A watcher that resumed at 20 takes what ends at 15, which it has, and what ends at 30.
turn_complete_example :
    (position : Cursor) × (turn
        (at_lsn 20)
        true
        (some (at_lsn 10))
        (λ t. after t (at_lsn 20))
        none
        (queued 15 ∷ queued 30 ∷ [])
      ≡ (batch_of (queued 30) ∷ progress position ∷ [], ok (some position)))
    × From (at_lsn 20) position
    × All (λ (item : Queued). From item.transaction.cursor position) (queued 15 ∷ queued 30 ∷ [])
unfolding after text_eq later compare
turn_complete_example =
    turn_complete sid (at_lsn 20) true (some (at_lsn 10)) (λ t. after t (at_lsn 20))
      (λ item. needed (at_lsn 20) item.transaction) none (queued 15 ∷ queued 30 ∷ []) refl refl
      (refl, (refl, tt)) (refl, (refl, tt))
