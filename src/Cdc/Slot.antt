-- ===== src/Cdc/Slot.antt =====
-- internal/cdc/slot.go: the replication slot of a reader, and the position that `Run` resumes from.
use watchd.Base.{
  ℕ, Bool, true, not, ◌&&◌, ◌||◌, Option, if◌then◌else◌, Text, codes, text_eq, Result, err, require,
  or_err, is_empty,
}
use watchd.Cdc.Failure.{Failure, plain, classified, Kind}
use watchd.Cdc.Cursor.{LsnText}
use watchd.Cdc.Validation.{validate_publication}
use watchd.Cdc.Session.{
  SlotState, Database, Call, ◌>>=◌, ◌>>◌, check, ask, change, deferring, postgres,
  connect_with_timeout, Connection, World, close_management,
}

-- The slot's type and plugin are those of a logical slot for `pgoutput`.
abbrev pub is_ours : SlotState → Bool
is_ours slot = text_eq slot.slot_type (codes "logical") && text_eq slot.plugin (codes "pgoutput")

-- `validateSlot`.
unfoldable pub validate_slot : SlotState → Result Failure (Unit {0})
validate_slot slot =
    if not (is_ours slot) || is_empty slot.resume_lsn
    then err (plain Kind.slot_invalidated)
    else require (not slot.active) (classified Kind.slot_in_use true)

-- `parseLSN`.
abbrev pub parse_lsn : LsnText → Text → Result Failure ℕ
parse_lsn lsn value = or_err (lsn.parse_lsn value) (plain Kind.slot_invalidated)

-- `lookupSlot`.
abbrev pub lookup_slot : Database → Call (Option SlotState)
lookup_slot db = ask (λ t. postgres (db.slot t))

abbrev pub open_management : World → World
open_management w = record w { management = Connection.opened }

-- What `Snapshot` and `requireSlot` do first: connect, and check the publication. The connection is
-- closed however the rest ends.
abbrev pub managed {ℓ} : {A : Type ℓ} → Database → Call A → Call A
managed db m =
    ask (λ t. connect_with_timeout (db.management t))
    >> (change open_management >> deferring (λ o w. close_management w) m)

-- `requireSlot`.
unfoldable pub require_slot : LsnText → Database → Call ℕ
require_slot lsn db = managed db do
  ask (λ t. validate_publication (db.publication t))
  found ← lookup_slot db
  slot ← check (or_err found (plain Kind.slot_invalidated))
  check (validate_slot slot)
  check (parse_lsn lsn slot.resume_lsn)
