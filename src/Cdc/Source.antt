-- ===== src/Cdc/Source.antt =====
-- internal/cdc/source.go: the lifecycle of a `Source`, its one lock as the sections between which
-- calls and goroutines run. What the reader answers is an input.
pub mod Lifecycle
use watchd.Base.{
  ℕ, ◌+◌, ◌-◌, Bool, true, false, not, ◌&&◌, ◌||◌, Option, none, some, if◌then◌else◌, ◌==◌, Result,
  ok, err,
}
use watchd.Cdc.Failure.{Failure, Kind, plain, classified}

-- The errors of the source's own, and one of its reader.
pub data SourceError : Type 0 where
  not_started already_started source_stopped : SourceError
  reader_failed : Failure → SourceError

-- `Source`. `once` is `stopOnce`; `done` counts how often the channel was closed, `runs` the
-- goroutines of Run that were started, and `running` those that have not returned.
pub record Source : Type 0 where
  pub started : Bool
  pub streaming : Bool
  pub stopped : Bool
  pub once : Bool
  pub failure : Option Failure
  pub done : ℕ
  pub runs : ℕ
  pub running : ℕ

-- `NewSource`.
abbrev pub new_source : Source
new_source = record {
  started = false;
  streaming = false;
  stopped = false;
  once = false;
  failure = none;
  done = 0;
  runs = 0;
  running = 0;
}

-- `readyLocked`.
unfoldable pub ready_locked : Source → Option SourceError
ready_locked s =
    if not s.started then some not_started else if s.stopped then some source_stopped else none

-- `stopLocked`.
unfoldable pub stop_locked : Option Failure → Source → Source
stop_locked e s =
    if s.once then s else record s { once = true; stopped = true; failure = e; done = s.done + 1 }

-- `startRunLocked`.
unfoldable pub start_run_locked : Source → Source
start_run_locked s =
    if s.streaming
    then s
    else record s { streaming = true; runs = s.runs + 1; running = s.running + 1 }

-- The end of the goroutine of Run.
unfoldable pub run_returned : Option Failure → Source → Source
unfolding stop_locked
run_returned e s = stop_locked e (record s { running = s.running - 1 })

-- The goroutine of `Start`, when its context is done.
unfoldable pub lifetime_ended : Source → Source
unfolding stop_locked
lifetime_ended s = if s.streaming then s else stop_locked none s

-- `Start`, with the answer of `slotExists`.
unfoldable pub start : Result Failure Bool → Source → Source × Option SourceError
unfolding start_run_locked
start exists s = if s.started then (s, some already_started) else elim exists [
  | err e ↦ (s, some (reader_failed e))
  | ok found ↦
      let s' = record s { started = true } in (if found then start_run_locked s' else s', none)
]

-- `errors.Is(err, ErrBootstrapSlotExists)`
abbrev pub is_slot_exists : Failure → Bool
is_slot_exists (plain Kind.bootstrap_slot_exists) = true
is_slot_exists (classified Kind.bootstrap_slot_exists b) = true
is_slot_exists e = false

abbrev pub of_reader {ℓ} : {A : Type ℓ} → Result Failure A → Result SourceError A
of_reader (ok a) = ok a
of_reader (err e) = err (reader_failed e)

-- The branch of `Snapshot` that runs `Bootstrap` under the lock.
unfoldable pub bootstrapped {ℓ} :
    {A : Type ℓ} → Result Failure A → Result Failure A → Source → Source × Result SourceError A
unfolding start_run_locked
bootstrapped (ok a) read s = (start_run_locked s, ok a)
bootstrapped (err e) read s =
    if is_slot_exists e then (start_run_locked s, of_reader read) else (s, err (reader_failed e))

-- `Snapshot`, with what `Bootstrap` and the reader's `Snapshot` answer if they are called.
unfoldable pub snapshot {ℓ} :
    {A : Type ℓ} → Result Failure A → Result Failure A → Source → Source × Result SourceError A
unfolding ready_locked bootstrapped
snapshot boot read s = elim (ready_locked s) [
  | some e ↦ (s, err e)
  | none ↦ if s.streaming then (s, of_reader read) else bootstrapped boot read s
]

-- `Err`.
unfoldable pub source_err : Source → Option Failure
source_err s = if s.done == 0 then none else s.failure
