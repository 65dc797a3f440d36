-- ===== src/Cdc/Source/Lifecycle.antt =====
-- internal/cdc/source.go: the states of a source in any order of its calls and goroutines.
use watchd.Base.{
  ◌≡◌, ◌<◌, refl, sym, subst, Bool, true, false, not, ◌&&◌, ◌||◌, Option, if◌then◌else◌, Result, ok,
  err, arith, Bool-cases, inl, inr,
}
use watchd.Cdc.Failure.{Failure}
use watchd.Cdc.Source.{
  Source, new_source, ready_locked, stop_locked, start_run_locked, run_returned, lifetime_ended,
  start, is_slot_exists, bootstrapped, snapshot, source_err,
}

-- The states of a source: `Start` and `Snapshot` are called at any time with any answers of the
-- reader, a Run that was started returns, and the context of a `Start` ends.
pub data Reach (A : Type 0) : Source → Type 0 where
  begins : Reach A new_source
  starts :
      {s s' : Source} (exists : Result Failure Bool)
      → Reach A s
      → s' ≡ (start exists s).0
      → Reach A s'
  snapshots :
      {s s' : Source} (boot read : Result Failure A)
      → Reach A s
      → s' ≡ (snapshot boot read s).0
      → Reach A s'
  returns :
      {s s' : Source} (e : Option Failure)
      → 0 < s.running
      → Reach A s
      → s' ≡ run_returned e s
      → Reach A s'
  ends : {s s' : Source} → s.started ≡ true → Reach A s → s' ≡ lifetime_ended s → Reach A s'

-- A source between its sections.
pub record Whole (s : Source) : Type 0 where
  pub one_run : s.runs ≡ (if s.streaming then 1 else 0)
  pub alive : s.running ≡ (if s.streaming && not s.stopped then 1 else 0)
  pub closed_once : s.done ≡ (if s.stopped then 1 else 0)
  pub in_step : s.once ≡ s.stopped
  pub streams_started : not s.streaming || s.started ≡ true
  pub stops_started : not s.stopped || s.started ≡ true
  pub reports : source_err s ≡ s.failure

start_run_locked-Whole :
    (s : Source) → s.started ≡ true → s.stopped ≡ false → Whole s → Whole (start_run_locked s)
unfolding start_run_locked source_err
start_run_locked-Whole s h k v = record {
  one_run = ground arith;
  alive = ground arith;
  closed_once = ground arith;
  in_step = ground arith;
  streams_started = ground arith;
  stops_started = ground arith;
  reports = ground arith;
}

run_returned-Whole :
    (e : Option Failure) (s : Source) → 0 < s.running → Whole s → Whole (run_returned e s)
unfolding run_returned stop_locked source_err
run_returned-Whole e s h v = record {
  one_run = ground arith;
  alive = ground arith;
  closed_once = ground arith;
  in_step = ground arith;
  streams_started = ground arith;
  stops_started = ground arith;
  reports = ground arith;
}

lifetime_ended-Whole : (s : Source) → s.started ≡ true → Whole s → Whole (lifetime_ended s)
unfolding lifetime_ended stop_locked source_err
lifetime_ended-Whole s h v = record {
  one_run = ground arith;
  alive = ground arith;
  closed_once = ground arith;
  in_step = ground arith;
  streams_started = ground arith;
  stops_started = ground arith;
  reports = ground arith;
}

marked-Whole : (s : Source) → Whole s → Whole (record s { started = true })
unfolding source_err
marked-Whole s v = record {
  one_run = v.one_run;
  alive = v.alive;
  closed_once = v.closed_once;
  in_step = v.in_step;
  streams_started = ground arith;
  stops_started = ground arith;
  reports = v.reports;
}

start_new-Whole :
    (exists : Result Failure Bool) (s : Source)
    → s.started ≡ false
    → Whole s
    → Whole (start exists s).0
unfolding start
start_new-Whole (err e) s k v = subst Whole (ground arith) v
start_new-Whole (ok false) s k v = subst Whole (ground arith) (marked-Whole s v)
start_new-Whole (ok true) s k v = subst Whole (ground arith) (
    start_run_locked-Whole (record s { started = true }) refl (ground (arith, v.stops_started))
      (marked-Whole s v))

start-Whole : (exists : Result Failure Bool) (s : Source) → Whole s → Whole (start exists s).0
unfolding start
start-Whole exists s v = elim (Bool-cases s.started) [
  | inl k ↦ subst Whole (ground arith) v
  | inr k ↦ start_new-Whole exists s k v
]

bootstrapped-Whole :
    {A : Type 0} (boot read : Result Failure A) (s : Source)
    → s.started ≡ true
    → s.stopped ≡ false
    → Whole s
    → Whole (bootstrapped boot read s).0
unfolding bootstrapped
bootstrapped-Whole (ok a) read s h k v = start_run_locked-Whole s h k v
bootstrapped-Whole (err e) read s h k v = elim (Bool-cases (is_slot_exists e)) [
  | inl x ↦ subst Whole (ground arith) (start_run_locked-Whole s h k v)
  | inr x ↦ subst Whole (ground arith) v
]

snapshot-Whole :
    {A : Type 0} (boot read : Result Failure A) (s : Source)
    → Whole s
    → Whole (snapshot boot read s).0
unfolding snapshot ready_locked
snapshot-Whole boot read s v = elim (Bool-cases (s.started && (not s.stopped && not s.streaming))) [
  | inl k ↦
      subst Whole (ground arith) (bootstrapped-Whole boot read s (ground arith) (ground arith) v)
  | inr k ↦ subst Whole (ground arith) v
]

-- In every state that a source reaches, whatever the order of its calls and goroutines and whatever
-- the reader answers: Run was started at most once, and is running exactly while the source
-- streams and has not stopped; the channel of Done was closed once if the source has stopped and
-- never before; a source streams or stops only after a `Start`; and `Err` gives the recorded error.
pub Reach-Whole : {A : Type 0} {s : Source} → Reach A s → Whole s
unfolding source_err
Reach-Whole begins = record {
  one_run = refl;
  alive = refl;
  closed_once = refl;
  in_step = refl;
  streams_started = refl;
  stops_started = refl;
  reports = refl;
}
Reach-Whole (starts exists r e) = subst Whole (sym e) (start-Whole exists _ (Reach-Whole r))
Reach-Whole (snapshots boot read r e) =
    subst Whole (sym e) (snapshot-Whole boot read _ (Reach-Whole r))
Reach-Whole (returns e h r k) = subst Whole (sym k) (run_returned-Whole e _ h (Reach-Whole r))
Reach-Whole (ends h r k) = subst Whole (sym k) (lifetime_ended-Whole _ h (Reach-Whole r))
