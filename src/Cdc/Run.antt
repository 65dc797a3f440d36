-- ===== src/Cdc/Run.antt =====
-- `Run` and `read` of internal/cdc/stream.go: the connections of a reader, one after another. What
-- each connection and the waits between them lead to is an input; its sleep is left out, and so is
-- the text of the error.
pub mod Endings
use watchd.Base.{
  ℕ, ◌+◌, ◌-◌, ◌≤◌, ◌<◌, ◌≡◌, refl, ap, Bool, true, false, not, List, [], ◌∷◌, ◌++◌, Option, none,
  some, if◌then◌else◌, length, leb, arith, Bool-cases, Option-cases, inl, inr,
}
use watchd.Cdc.Failure.{Failure, is_retryable}

-- The names of internal/cdc/reader.go.
pub data ConnectionState : Type 0 where
  connecting streaming backing_off stopped failed : ConnectionState

-- What `read` does: it takes the stream of a bootstrap, or connects, finds the slot and starts the
-- replication, each with its error, and then receives until an error; `none` is a nil error.
pub record Connection : Type 0 where
  pub connect : Option Failure
  pub require_slot : Option Failure
  pub start_replication : Option Failure
  pub receive : Option Failure

-- `read`: the states it sets and its error.
unfoldable pub read : Bool → Connection → List ConnectionState × Option Failure
read true c = (streaming ∷ [], c.receive)
read false c = elim c.connect [
  | some e ↦ ([], some e)
  | none ↦ elim c.require_slot [
    | some e ↦ ([], some e)
    | none ↦ elim c.start_replication [ some e ↦ ([], some e) | none ↦ (streaming ∷ [], c.receive) ]
  ]
]

-- The contexts: `ctx` of the caller, and `streamCtx`, which the retention policy cancels too.
pub record Contexts : Type 0 where
  pub caller_done : Bool
  pub stream_done : Bool

-- One turn of the loop: its connection, the contexts after it, the wait that follows, the contexts
-- after the wait, and whether the slot could be dropped if the budget was exceeded.
pub record Attempt : Type 0 where
  pub connection : Connection
  pub contexts : Contexts
  pub wait : Option Failure
  pub contexts_waited : Contexts
  pub drop_slot : Option Failure

-- How `Run` returns: nil, or which error; the error of a wait is apart.
pub data Ending : Type 0 where
  clean : Ending
  budget_exceeded : Option Failure → Ending
  failed_with : Failure → Ending
  wait_failed : Failure → Ending
  retry_exhausted : Failure → Ending

-- The states that were set, the reconnects that were counted, and the return, if there is one yet.
pub record Run : Type 0 where
  pub states : List ConnectionState
  pub reconnects : ℕ
  pub ending : Option Ending

abbrev run_ended : ConnectionState → Ending → Run
run_ended state ending = record { states = state ∷ []; reconnects = 0; ending = some ending }

abbrev after_states : List ConnectionState → Run → Run
after_states states r = record r { states = states ++ r.states }

-- The wait before the next attempt: `none` if it can be made.
unfoldable pub waits : Attempt → Option Run
waits a = elim a.wait [
  | none ↦ none
  | some e ↦
      if a.contexts_waited.caller_done
      then some (run_ended stopped clean)
      else if a.contexts_waited.stream_done
      then some (run_ended failed (budget_exceeded a.drop_slot))
      else some (run_ended failed (wait_failed e))
]

-- What follows `read` before a wait, for its error: `none` if another attempt is made.
unfoldable pub gives_up : ℕ → ℕ → Attempt → Option Failure → Option Run
unfolding is_retryable
gives_up max_attempts attempts a error =
    if a.contexts.caller_done
    then some (run_ended stopped clean)
    else if a.contexts.stream_done
    then some (run_ended failed (budget_exceeded a.drop_slot))
    else elim error [
      | none ↦ some (run_ended stopped clean)
      | some e ↦
          if not (is_retryable e)
          then some (run_ended failed (failed_with e))
          else if leb max_attempts attempts
          then some (run_ended failed (retry_exhausted e))
          else none
    ]

-- The loop of `Run` over its attempts, `attempts` of which failed before; the first one may take
-- the stream of a bootstrap.
unfoldable pub run : ℕ → ℕ → Bool → List Attempt → Run
unfolding read waits gives_up
run max_attempts attempts bootstrapped [] = record { states = []; reconnects = 0; ending = none }
run max_attempts attempts bootstrapped (a ∷ later_ones) =
    let rest = run max_attempts (attempts + 1) false later_ones in
    let (states, error) = read bootstrapped a.connection in
    after_states (connecting ∷ states) (elim (gives_up max_attempts attempts a error) [
      | some r ↦ r
      | none ↦ after_states (backing_off ∷ []) (elim (waits a) [
        | some r ↦ record r { reconnects = 1 }
        | none ↦ record rest { reconnects = rest.reconnects + 1 }
      ])
    ])
