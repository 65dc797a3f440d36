-- ===== src/Sdk/Sync.antt =====
-- `Sync` of sdk/go/watchd/client.go: one stream after another, with what it decides between them.
-- A duration is a number of nanoseconds, an `int64` by its bit pattern.
pub mod Retry
pub mod Verdicts
use watchd.Base.{
  ℤ, pos, negsuc, ℕ, ◌+◌, ◌*◌, ◌%◌, ◌^◌, Bool, true, false, not, ◌&&◌, List, [], ◌∷◌, Option, none,
  some, if◌then◌else◌, leb, ltb, ◌==◌, Text, Result, ok, err, ◌||◌, is_empty,
}
use watchd.Sdk.Interface.{Store}
use watchd.Wire.{
  Code, not_found, invalid_argument, failed_precondition, permission_denied, unauthenticated,
  unimplemented, other_code, WatchResponse, unavailable, internal,
}
use watchd.Sdk.Stream.{
  StreamError, resync_error, store_error, status_error, Syncer, set_state, stream,
}

-- The defaults for `MinBackoff` and `MaxBackoff`: 100ms and 5s.
unfoldable pub min_backoff_of : ℤ → ℕ
min_backoff_of (negsuc n) = 100_000_000
min_backoff_of (pos n) = if n == 0 then 100_000_000 else n

unfoldable pub max_backoff_of : ℕ → ℤ → ℕ
max_backoff_of min_backoff (negsuc n) =
    if leb min_backoff 5_000_000_000 then 5_000_000_000 else min_backoff
max_backoff_of min_backoff (pos n) =
    if ltb n min_backoff
    then (if leb min_backoff 5_000_000_000 then 5_000_000_000 else min_backoff)
    else n

-- `isPermanent`, by the status code of the error.
abbrev pub is_permanent : Code → Bool
is_permanent not_found = true
is_permanent invalid_argument = true
is_permanent failed_precondition = true
is_permanent permission_denied = true
is_permanent unauthenticated = true
is_permanent unimplemented = true
is_permanent unavailable = false
is_permanent internal = false
is_permanent other_code = false

-- The variables of the loop.
pub record Loop : Type 0 where
  pub backoff : ℕ
  pub snapshot : Bool
  pub resyncs : ℕ

-- What the switch decides: to return the error, or to go on, now or after a wait.
pub data Decision {ℓ} (E : Type ℓ) : Type ℓ where
  returns : StreamError E → Decision E
  retries : Bool → Loop → Decision E

-- The switch on a status code.
abbrev pub decide_code {ℓ} : {E : Type ℓ} → Code → Loop → Decision E
decide_code code l = elim (is_permanent code) [
  | true ↦ returns (status_error code)
  | false ↦ retries false (record l { snapshot = false })
]

-- The switch. A resync is retried at once if it is the first, and a refused cursor always.
unfoldable pub decide {ℓ} : {E : Type ℓ} → StreamError E → Loop → Decision E
decide resync_error l =
    retries ((l.resyncs + 1) % 2 ^ 64 == 1)
      (record l { snapshot = true; resyncs = (l.resyncs + 1) % 2 ^ 64 })
decide (store_error e) l = returns (store_error e)
decide (status_error not_found) l = decide_code not_found l
decide (status_error failed_precondition) l = decide_code failed_precondition l
decide (status_error permission_denied) l = decide_code permission_denied l
decide (status_error unauthenticated) l = decide_code unauthenticated l
decide (status_error unimplemented) l = decide_code unimplemented l
decide (status_error unavailable) l = decide_code unavailable l
decide (status_error internal) l = decide_code internal l
decide (status_error other_code) l = decide_code other_code l
decide (status_error invalid_argument) l =
    if not l.snapshot
    then retries true (record l { snapshot = true })
    else decide_code invalid_argument l

abbrev pub resyncs_after {ℓ} : {E : Type ℓ} → StreamError E → ℕ
resyncs_after resync_error = 1
resyncs_after (store_error e) = 0
resyncs_after (status_error code) = 0

-- `if s.progressed { ... }`
unfoldable pub after_progress {ℓ} : {E : Type ℓ} → ℕ → Bool → StreamError E → Loop → Loop
after_progress min_backoff false e l = l
after_progress min_backoff true e l = record l { backoff = min_backoff; resyncs = resyncs_after e }

-- `min` of two durations, of which the second is not negative; 2^63 and more are negative.
abbrev pub min_duration : ℕ → ℕ → ℕ
min_duration a b = if leb (2 ^ 63) a then a else if leb a b then a else b

-- `backoff = min(backoff*2, cfg.MaxBackoff)`
unfoldable pub longer : ℕ → Loop → Loop
longer max_backoff l = record l { backoff = min_duration ((l.backoff * 2) % 2 ^ 64) max_backoff }

-- One turn of the loop: how the server answers the stream's request, whether the context is cancelled
-- after the stream, and in the wait, and what `time.Duration(float64(backoff) * (0.8 +
-- 0.4*rand.Float64()))` comes to for each backoff, with the number that is drawn in this turn.
pub record Session : Type 0 where
  pub watch : Text → Result Code (List WatchResponse × Code)
  pub cancelled : Bool
  pub cancelled_wait : Bool
  pub drawn : ℕ → ℕ

-- A retry: did its stream make progress, and how long was waited, if at all.
pub record Step : Type 0 where
  pub progressed : Bool
  pub waited : Option ℕ

-- What a run of the loop did: what it returns, if it does; a nil error is `none`.
pub record Synced {ℓ κ} (S : Type ℓ) (E : Type κ) : Type (ℓ ⊔ κ) where
  pub store : S
  pub syncer : Syncer
  pub steps : List Step
  pub ending : Option (Option (StreamError E))

module _ {ℓ κ μ} {S : Type ℓ} {W : Type κ} {E : Type μ} (ops : Store S W E)
    (min_backoff max_backoff : ℕ) where
  abbrev pub stopped : S → Syncer → Option (StreamError E) → Synced S E
  stopped x s e = record { store = x; syncer = s; steps = []; ending = some e }

  abbrev pub then_step : Step → Synced S E → Synced S E
  then_step step r = record r { steps = step ∷ r.steps }

  -- What follows the switch, with what the loop does next.
  unfoldable pub conclude :
      Bool → Session → StreamError E → S → Syncer → (Loop → Synced S E) → Decision E → Synced S E
  unfolding after_progress longer
  conclude progressed q e x s next (returns e') = stopped x s (some e')
  conclude progressed q e x s next (retries now l') =
      let l'' = after_progress min_backoff progressed e l' in
      let step : Step = record {
        progressed = progressed;
        waited = if now then none else some (q.drawn l''.backoff);
      } in
      if not now && q.cancelled_wait
      then then_step step (stopped x s none)
      else then_step step (next (if now then l'' else longer max_backoff l''))

  -- The loop of `Sync` over its sessions; after them it goes on.
  unfoldable pub sync : List Session → Loop → S → Syncer → Synced S E
  unfolding stream set_state decide conclude
  sync [] l x s = record { store = x; syncer = s; steps = []; ending = none }
  sync (q ∷ qs) l x s =
      let ((x', s'), e) = stream ops l.snapshot q.watch x s in
      let s'' = set_state false s'.state.cursor s' in
      if q.cancelled
      then stopped x' s'' none
      else conclude s'.progressed q e x' s'' (λ l'. sync qs l' x' s'') (decide e l)

-- `SyncConfig`, without its callback and meter; is there a store?
pub record SyncConfig : Type 0 where
  pub projection : Text
  pub has_store : Bool
  pub min_backoff : ℤ
  pub max_backoff : ℤ

-- What `Sync` returns before it opens a stream.
pub data SetupError : Type 0 where
  incomplete no_instruments : SetupError

-- `Sync`. Are its instruments made?
unfoldable pub sync_from {ℓ κ μ} :
    {S : Type ℓ} {W : Type κ} {E : Type μ}
    → Store S W E
    → SyncConfig
    → Bool
    → List Session
    → S
    → Result SetupError (Synced S E)
unfolding sync min_backoff_of max_backoff_of
sync_from ops c instruments qs x =
    if is_empty c.projection || not c.has_store
    then err incomplete
    else if not instruments
    then err no_instruments
    else let low = min_backoff_of c.min_backoff in
      ok (
        sync ops low (max_backoff_of low c.max_backoff) qs
          (record { backoff = low; snapshot = false; resyncs = 0 }) x
          (record {
            state = record { fresh = false; cursor = [] };
            reported = false;
            progressed = false;
            seen = [];
          }))
