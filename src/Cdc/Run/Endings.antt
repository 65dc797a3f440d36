-- ===== src/Cdc/Run/Endings.antt =====
-- internal/cdc/stream.go: `Run` returns, within its reconnect budget.
use watchd.Base.{
  ℕ, ◌+◌, ◌-◌, ◌≤◌, ◌<◌, ◌≡◌, refl, Bool, true, false, List, [], ◌∷◌, Option, none, some, length,
  leb, arith, Bool-cases, Option-cases, inl, inr,
}
use watchd.Cdc.Failure.{Failure, is_retryable}
use watchd.Cdc.Run.{
  Attempt, Ending, clean, budget_exceeded, failed_with, wait_failed, retry_exhausted, Run, read,
  waits, gives_up, run,
}

-- A return after so many reconnects, with the budget that was left before them: a permanent error
-- is returned as it is, and a retryable one only when the budget is spent.
abbrev pub Sanctioned : ℕ → ℕ → Ending → Type 0
Sanctioned left reconnects clean = reconnects ≤ left
Sanctioned left reconnects (budget_exceeded dropped) = reconnects ≤ left
Sanctioned left reconnects (failed_with e) = (reconnects ≤ left) × (is_retryable e ≡ false)
Sanctioned left reconnects (wait_failed e) = reconnects ≤ left
Sanctioned left reconnects (retry_exhausted e) = (reconnects ≡ left) × (is_retryable e ≡ true)

-- The run has ended, as it may.
abbrev pub Ends : ℕ → Run → Type 0
Ends left r = (e : Ending) × (r.ending ≡ some e) × Sanctioned left r.reconnects e

-- What is left to do when a turn does not end the run: nothing is wrong with another attempt.
abbrev Goes : (Run → Type 0) → Type 0 → Option Run → Type 0
Goes E N none = N
Goes E N (some r) = E r

gives_up-Goes :
    (max_attempts attempts : ℕ) (a : Attempt) (error : Option Failure)
    → attempts ≤ max_attempts
    → Goes
        (Ends (max_attempts - attempts))
        (attempts < max_attempts)
        (gives_up max_attempts attempts a error)
unfolding gives_up
gives_up-Goes max_attempts attempts a error within = elim (Bool-cases a.contexts.caller_done) [
  | inl c ↦ rw (c, gives_up) (clean, refl, omega arith)
  | inr c ↦ elim (Bool-cases a.contexts.stream_done) [
    | inl d ↦ rw (c, d, gives_up) (budget_exceeded a.drop_slot, refl, omega arith)
    | inr d ↦ elim (Option-cases error) [
      | inl n ↦ rw (c, d, n, gives_up) (clean, refl, omega arith)
      | inr (e, n) ↦ elim (Bool-cases (is_retryable e)) [
        | inr k ↦ rw (c, d, n, gives_up) (rw k (failed_with e, refl, (omega arith, k)))
        | inl k ↦ elim (Bool-cases (leb max_attempts attempts)) [
          | inl f ↦ rw (c, d, n, gives_up) (rw (k, f) (retry_exhausted e, refl, (ground arith, k)))
          | inr f ↦ rw (c, d, n, gives_up) (rw (k, f) (ground arith))
        ]
      ]
    ]
  ]
]

waits-Goes :
    (a : Attempt) (left : ℕ)
    → 0 < left
    → Goes (λ r. Ends left (record r { reconnects = 1 })) Unit (waits a)
unfolding waits
waits-Goes a left some_left = elim (Option-cases a.wait) [
  | inl n ↦ rw (n, waits) tt
  | inr (x, n) ↦ elim (Bool-cases a.contexts_waited.caller_done) [
    | inl c ↦ rw (n, c, waits) (clean, refl, omega arith)
    | inr c ↦ elim (Bool-cases a.contexts_waited.stream_done) [
      | inl d ↦ rw (n, c, d, waits) (budget_exceeded a.drop_slot, refl, omega arith)
      | inr d ↦ rw (n, c, d, waits) (wait_failed x, refl, omega arith)
    ]
  ]
]

Sanctioned-next :
    (left left' reconnects : ℕ) (e : Ending)
    → left ≡ left' + 1
    → Sanctioned left' reconnects e
    → Sanctioned left (reconnects + 1) e
Sanctioned-next left left' reconnects clean same s = omega arith
Sanctioned-next left left' reconnects (budget_exceeded dropped) same s = omega arith
Sanctioned-next left left' reconnects (failed_with e) same s = (omega (arith, s.0), s.1)
Sanctioned-next left left' reconnects (wait_failed e) same s = omega arith
Sanctioned-next left left' reconnects (retry_exhausted e) same s = (omega (arith, s.0), s.1)

-- Within its budget, with one more attempt than retries are left, the run has returned, after no
-- more reconnects than the budget allows. The error of a connection is returned as it is only where
-- it is not retryable; for a retryable one the run gives up only with all reconnects made.
pub run_terminates :
    (max_attempts attempts : ℕ) (bootstrapped : Bool) (later : List Attempt)
    → attempts ≤ max_attempts
    → max_attempts < attempts + length later
    → Ends (max_attempts - attempts) (run max_attempts attempts bootstrapped later)
unfolding run
run_terminates max_attempts attempts bootstrapped [] within enough = absurd (omega arith)
run_terminates max_attempts attempts bootstrapped (a ∷ later) within enough =
    let error = (read bootstrapped a.connection).1 in
    elim (Option-cases (gives_up max_attempts attempts a error)) [
      | inr (r, e) ↦ rw (e, run) (rw e at (gives_up-Goes max_attempts attempts a error within))
      | inl e ↦
          let less : attempts < max_attempts =
            rw e at (gives_up-Goes max_attempts attempts a error within) in
          elim (Option-cases (waits a)) [
            | inr (r, f) ↦
                rw (e, f, run) (rw f at (waits-Goes a (max_attempts - attempts) (omega arith)))
            | inl f ↦
                let next =
                  run_terminates max_attempts (attempts + 1) false later (omega arith)
                    (omega arith) in
                rw (e, f, run)
                  (
                    next.0,
                    next.1,
                    Sanctioned-next (max_attempts - attempts) (max_attempts - (attempts + 1)) _
                        next.0 (omega arith) next.2,
                  )
          ]
    ]
