-- ===== src/Tests/Decoders.antt =====
-- internal/cdc/decoder.go on concrete inputs: an empty transaction is begun and committed.
use watchd.Base.{◌≡◌, refl, [], Option, none, some}
use watchd.Cdc.Transaction.{Transaction}
use watchd.Cdc.Assembly.{Decoder}
use watchd.Cdc.Decoder.{LogText, begin_message, commit_message, consume}
use watchd.Cdc.Decoder.Limits.{Bounded, consume_limits}

abbrev pub silent : LogText
silent = record { renamed_to = λ table. table; describe = λ d. [] }

abbrev pub idle : Decoder
idle = record {
  relations = λ _. none;
  pending = none;
  pending_xid = 0;
  pending_bytes = 0;
  max_transaction_bytes = 1000;
  max_transaction_changes = 10;
  max_value_bytes = 100;
  shapes = none;
  events = [];
}

abbrev begun : Decoder
begun = record idle { pending = some []; pending_xid = 7 }

abbrev committed : Transaction
committed = record {
  cursor = record { source_id = []; lsn = 40 };
  changes = [];
  incompatible = [];
  commit_lsn = 30;
  xid = 7;
}

begun-Bounded : Bounded begun
unfolding consume
begun-Bounded = (consume_limits silent (begin_message 7) idle begun none tt refl).0

consume_limits_example :
    Bounded (record idle { pending_xid = 7 })
    × ((u : Transaction)
        → ◌≡◌ {A = Option Transaction} (some committed) (some u)
        → (begun.pending ≡ some u.changes) × (u.incompatible ≡ []) × (idle.pending ≡ none))
unfolding consume
consume_limits_example =
    consume_limits silent (commit_message 30 40) begun (record idle { pending_xid = 7 })
      (some committed) begun-Bounded refl
