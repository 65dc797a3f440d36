-- ===== src/Cdc/Session.antt =====
-- What internal/cdc/snapshot.go, slot.go, bootstrap.go and connections.go ask of PostgreSQL, and the
-- state that their calls change. The answers of PostgreSQL are a parameter, `Database`: what it
-- answers at each moment, where the moments count the queries of one call, and all other sessions act
-- between two of them.
pub mod Rules
pub mod Endings
use watchd.Base.{
  ℕ, zero, suc, Bool, true, false, List, [], Option, none, some, ◌++◌, if◌then◌else◌, Text, Result,
  ok, err,
}
use watchd.Cdc.Failure.{
  Failure, plain, Kind, ConnectionError, ConnectFault, classify_postgres_error,
  classify_connection_error,
}
use watchd.Cdc.Validation.{Publication, Catalog}
use watchd.Cdc.Shape.{Shapes}
use watchd.Watch.Event.{SnapshotRow}

-- The snapshot that a transaction reads: a new one, fixed by its first query at this moment, or one
-- that another session exported.
pub data View : Type 0 where
  fresh : ℕ → View
  exported : Text → View

-- `slotState`.
pub record SlotState : Type 0 where
  pub slot_type : Text
  pub plugin : Text
  pub active : Bool
  pub resume_lsn : Text
  pub restart_lsn : Text

-- `pglogrepl.CreateReplicationSlotResult`, by the fields that are read.
pub record CreatedSlot : Type 0 where
  pub consistent_point : Text
  pub snapshot_name : Text

-- What an attempt to connect comes to. The Boolean says whether the caller's context has ended.
pub data Connect : Type 0 where
  connected : Connect
  unconnected : Bool → ConnectFault → Connect

-- The answers. `none` of a slot's query is `pgx.ErrNoRows`; the rows of a page are those after a key.
pub record Database : Type 0 where
  pub replication : ℕ → Connect
  pub management : ℕ → Connect
  pub cleanup : ℕ → Option ConnectFault
  pub publication : ℕ → Result Failure (Option Publication)
  pub catalog : ℕ → Catalog
  pub slot : ℕ → Result ConnectionError (Option SlotState)
  pub create_slot : ℕ → Result ConnectionError CreatedSlot
  pub drop_slot : ℕ → Option ConnectionError
  pub insert_lsn : ℕ → Result ConnectionError Text
  pub begin_transaction : ℕ → Result ConnectionError (Unit {0})
  pub set_snapshot : ℕ → Text → Result ConnectionError (Unit {0})
  pub snapshot_text : View → Result ConnectionError Text
  pub page : View → Option (List Text) → Result Failure (List SnapshotRow)
  pub commit : ℕ → Result ConnectionError (Unit {0})
  pub start_replication : ℕ → ℕ → Result Failure (Unit {0})

pub data Connection : Type 0 where
  absent opened closed : Connection

-- What one call holds and changes: its connections, the transaction, how many slots it has created
-- and dropped, the pages that its sink was given, and of the reader the baselines and the stream
-- kept for `Run`, with its position.
pub record World : Type 0 where
  pub moment : ℕ
  pub stream : Connection
  pub management : Connection
  pub transaction : Bool
  pub created : ℕ
  pub dropped : ℕ
  pub transferred : Bool
  pub bootstrap_stream : Option ℕ
  pub shapes : Shapes
  pub pages : List (List SnapshotRow)

-- A value, an error, or a loop that has used up its fuel.
pub data Outcome {ℓ} (A : Type ℓ) : Type ℓ where
  done : A → Outcome A
  failed : Failure → Outcome A
  running : Outcome A

abbrev pub Call {ℓ} : Type ℓ → Type ℓ
Call A = World → Outcome A × World

abbrev pub continue {ℓ κ} :
    {A : Type ℓ} {B : Type κ} → (A → Call B) → Outcome A → World → Outcome B × World
continue f (done a) w = f a w
continue f (failed e) w = (failed e, w)
continue f running w = (running, w)

infixl 5 ◌>>=◌ ◌>>◌
unfoldable pub ◌>>=◌ {ℓ κ} : {A : Type ℓ} {B : Type κ} → Call A → (A → Call B) → Call B
◌>>=◌ m f w = continue f (m w).0 (m w).1

abbrev pub ◌>>◌ {ℓ} : {B : Type ℓ} → Call (Unit {0}) → Call B → Call B
m >> k = m >>= λ _. k

unfoldable pub return {ℓ} : {A : Type ℓ} → A → Call A
return a w = (done a, w)

abbrev pub outcome {ℓ} : {A : Type ℓ} → Result Failure A → Outcome A
outcome (ok a) = done a
outcome (err e) = failed e

-- A look at what the call holds.
unfoldable pub see {ℓ} : {A : Type ℓ} → (World → A) → Call A
see f w = (done (f w), w)

-- A check that asks nothing.
unfoldable pub check {ℓ} : {A : Type ℓ} → Result Failure A → Call A
check r w = (outcome r, w)

abbrev pub tick : World → World
tick w = record w { moment = suc w.moment }

-- A query.
unfoldable pub ask {ℓ} : {A : Type ℓ} → (ℕ → Result Failure A) → Call A
ask q w = (outcome (q w.moment), tick w)

-- A change of what the call holds.
unfoldable pub change : (World → World) → Call (Unit {0})
change f w = (done tt, f w)

-- `defer`: the change is made however the rest ends.
unfoldable pub deferring {ℓ} : {A : Type ℓ} → (Outcome A → World → World) → Call A → Call A
deferring f m w = ((m w).0, f (m w).0 (m w).1)

-- `if err != nil { return classifyPostgresError(err) }`
abbrev pub postgres {ℓ} : {A : Type ℓ} → Result ConnectionError A → Result Failure A
postgres (ok a) = ok a
postgres (err e) = err (classify_postgres_error e)

-- `connectReplication` and `connectManagementWithTimeout`.
unfoldable pub connect_with_timeout : Connect → Result Failure (Unit {0})
unfolding classify_connection_error
connect_with_timeout connected = ok tt
connect_with_timeout (unconnected ended fault) =
    err (if ended then plain Kind.cancelled else classify_connection_error fault)

abbrev pub is_opened : Connection → Bool
is_opened opened = true
is_opened _ = false

abbrev pub shut : Connection → Connection
shut opened = closed
shut c = c

-- `closeReplicationConnection` and `closeManagementConnection`.
abbrev pub close_stream : World → World
close_stream w = record w { stream = shut w.stream }

abbrev pub close_management : World → World
close_management w = record w { management = shut w.management }
