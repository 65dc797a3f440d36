-- ===== src/Sdk/Sync/Verdicts.antt =====
-- sdk/go/watchd/client.go: which errors end `Sync`, and what a resync after progress does.
use watchd.Base.{
  ℕ, ◌+◌, ◌%◌, ◌^◌, ◌<◌, ◌≡◌, ◌≢◌, refl, Bool, true, false, List, [], ◌∷◌, Option, none, some, ◌==◌,
  not, ◌||◌, is_empty, if◌then◌else◌, Result, ok, err, arith, Bool-cases, inl, inr,
}
use watchd.Sdk.Interface.{Store}
use watchd.Wire.{
  not_found, invalid_argument, failed_precondition, permission_denied, unauthenticated,
  unimplemented, other_code, unavailable, internal, Code,
}
use watchd.Sdk.Stream.{
  StreamError, resync_error, store_error, status_error, Syncer, stream, set_state,
}
use watchd.Sdk.Sync.{
  SyncConfig, SetupError, incomplete, no_instruments, sync_from, Loop, Decision, returns, retries,
  decide, after_progress, Session, Step, Synced, conclude, longer, sync,
}

-- What a retry cannot fix, code by code: the projection is not known, the request or the server's
-- configuration is wrong, or the client is not let in or asks what the server does not have. A server
-- that is unavailable or failed, and a connection that is lost, may be back.
abbrev pub refused_for_good : Code → Bool
refused_for_good not_found = true
refused_for_good invalid_argument = true
refused_for_good failed_precondition = true
refused_for_good permission_denied = true
refused_for_good unauthenticated = true
refused_for_good unimplemented = true
refused_for_good unavailable = false
refused_for_good internal = false
refused_for_good other_code = false

-- Does this error end a sync, whose stream was asked for a snapshot or not? A refused cursor is tried
-- again with a snapshot.
abbrev pub ends_sync {ℓ} : {E : Type ℓ} → StreamError E → Bool → Bool
ends_sync resync_error snapshot = false
ends_sync (store_error e) snapshot = true
ends_sync (status_error invalid_argument) snapshot = snapshot
ends_sync (status_error code) snapshot = refused_for_good code

-- An error that ends a sync, whatever was asked for.
abbrev pub Final {ℓ} : {E : Type ℓ} → StreamError E → Type 0
Final e = ends_sync e true ≡ true

abbrev Decided {ℓ} : {E : Type ℓ} → Decision E → Type 0
Decided (returns e) = Final e
Decided (retries now l) = Unit

decide-Decided {ℓ} : {E : Type ℓ} (e : StreamError E) (l : Loop) → Decided (decide e l)
unfolding decide
decide-Decided resync_error l = tt
decide-Decided (store_error e) l = refl
decide-Decided (status_error not_found) l = refl
decide-Decided (status_error invalid_argument) l = elim (Bool-cases l.snapshot) [
  | inl e ↦ rw e refl
  | inr e ↦ rw e tt
]
decide-Decided (status_error failed_precondition) l = refl
decide-Decided (status_error permission_denied) l = refl
decide-Decided (status_error unauthenticated) l = refl
decide-Decided (status_error unimplemented) l = refl
decide-Decided (status_error unavailable) l = tt
decide-Decided (status_error internal) l = tt
decide-Decided (status_error other_code) l = tt

-- What a run of the loop returns, if it does, is an error that ends a sync, or nil.
abbrev pub Ended {ℓ} : {E : Type ℓ} → Option (Option (StreamError E)) → Type 0
Ended none = Unit
Ended (some none) = Unit
Ended (some (some e)) = Final e

module _ {ℓ κ μ} {S : Type ℓ} {W : Type κ} {E : Type μ} (ops : Store S W E) (low high : ℕ) where
  conclude-Ended :
      (progressed : Bool) (q : Session) (e : StreamError E) (x : S) (s : Syncer)
      (next : Loop → Synced S E) (d : Decision E)
      → Decided d
      → ((l : Loop) → Ended (next l).ending)
      → Ended (conclude ops low high progressed q e x s next d).ending
  unfolding conclude
  conclude-Ended progressed q e x s next (returns e') c k = c
  conclude-Ended progressed q e x s next (retries true l') c k = k _
  conclude-Ended progressed q e x s next (retries false l') c k =
      elim (Bool-cases q.cancelled_wait) [
        | inl w ↦ rw (w, conclude) tt
        | inr w ↦ rw (w, conclude) (k _)
      ]

  sync-Ended :
      (qs : List Session) (l : Loop) (x : S) (s : Syncer)
      → Ended (sync ops low high qs l x s).ending
  unfolding sync
  sync-Ended [] l x s = tt
  sync-Ended (q ∷ qs) l x s =
      let r = stream ops l.snapshot q.watch x s in
      let s' = set_state false r.0.1.state.cursor r.0.1 in
      elim (Bool-cases q.cancelled) [
        | inl e ↦ rw (e, sync) tt
        | inr e ↦
            rw (e, sync)
              (conclude-Ended r.0.1.progressed q r.1 r.0.0 s'
                (λ l'. sync ops low high qs l' r.0.0 s') (decide r.1 l) (decide-Decided r.1 l)
                (λ l'. sync-Ended qs l' r.0.0 s'))
      ]

  -- One turn of the loop: it is over where the error ends the sync, with this error, and makes a
  -- retry where it does not.
  abbrev pub Turn : Bool → StreamError E → Synced S E → Type μ
  Turn ends e r =
      (is_empty r.steps ≡ ends) × (r.ending ≡ (if ends then some (some e) else r.ending))

  retry-Turn :
      (progressed : Bool) (q : Session) (e : StreamError E) (x : S) (s : Syncer)
      (next : Loop → Synced S E) (now : Bool) (l : Loop)
      → Turn false e (conclude ops low high progressed q e x s next (retries now l))
  unfolding conclude
  retry-Turn progressed q e x s next true l = (refl, refl)
  retry-Turn progressed q e x s next false l = elim (Bool-cases q.cancelled_wait) [
    | inl w ↦ rw (w, conclude) (refl, refl)
    | inr w ↦ rw (w, conclude) (refl, refl)
  ]

  conclude-Turn :
      (progressed : Bool) (q : Session) (e : StreamError E) (x : S) (s : Syncer)
      (next : Loop → Synced S E) (l : Loop)
      → Turn (ends_sync e l.snapshot) e (conclude ops low high progressed q e x s next (decide e l))
  unfolding conclude decide
  conclude-Turn progressed q resync_error x s next l =
      retry-Turn progressed q resync_error x s next _ _
  conclude-Turn progressed q (store_error e) x s next l = (refl, refl)
  conclude-Turn progressed q (status_error invalid_argument) x s next l =
      elim (Bool-cases l.snapshot) [
        | inl f ↦ rw (f, decide, conclude) (refl, refl)
        | inr f ↦ rw (f, decide) (retry-Turn progressed q _ x s next true _)
      ]
  conclude-Turn progressed q (status_error not_found) x s next l = (refl, refl)
  conclude-Turn progressed q (status_error failed_precondition) x s next l = (refl, refl)
  conclude-Turn progressed q (status_error permission_denied) x s next l = (refl, refl)
  conclude-Turn progressed q (status_error unauthenticated) x s next l = (refl, refl)
  conclude-Turn progressed q (status_error unimplemented) x s next l = (refl, refl)
  conclude-Turn progressed q (status_error unavailable) x s next l =
      retry-Turn progressed q _ x s next false _
  conclude-Turn progressed q (status_error internal) x s next l =
      retry-Turn progressed q _ x s next false _
  conclude-Turn progressed q (status_error other_code) x s next l =
      retry-Turn progressed q _ x s next false _

  not_first : (n : ℕ) → n ≢ 0 → n < 2 ^ 64 → ((n + 1) % 2 ^ 64 == 1) ≡ false
  not_first n counted fits = elim (Bool-cases ((n + 1) % 2 ^ 64 == 1)) [
    | inl e ↦ absurd (counted (ground arith))
    | inr e ↦ e
  ]

  conclude_waits :
      (progressed : Bool) (q : Session) (e : StreamError E) (x : S) (s : Syncer)
      (next : Loop → Synced S E) (l : Loop)
      → ((l.resyncs + 1) % 2 ^ 64 == 1) ≡ false
      → progressed ≡ true
      → e ≡ resync_error
      → (rest : List Step) × ((conclude ops low high progressed q e x s next (decide e l)).steps
          ≡ record { progressed = true; waited = some (q.drawn low) } ∷ rest)
  unfolding conclude after_progress decide
  conclude_waits false q e x s next l again p r = absurd (cc)
  conclude_waits true q (store_error e) x s next l again p r = absurd (cc)
  conclude_waits true q (status_error code) x s next l again p r = absurd (cc)
  conclude_waits true q resync_error x s next l again p r = elim (Bool-cases q.cancelled_wait) [
    | inl w ↦ ([], rw (again, w))
    | inr w ↦ (
      (next (longer high (record { backoff = low; snapshot = true; resyncs = 1 }))).steps,
      rw (again, w),
    )
  ]

  -- Once a resync is counted, a resync that ends a stream with progress is retried after the
  -- wait that is drawn for the least backoff, not at once.
  pub sync_resync_waits :
      (q : Session) (qs : List Session) (l : Loop) (x : S) (s : Syncer)
      → l.resyncs ≢ 0
      → l.resyncs < 2 ^ 64
      → q.cancelled ≡ false
      → (stream ops l.snapshot q.watch x s).1 ≡ resync_error
      → (stream ops l.snapshot q.watch x s).0.1.progressed ≡ true
      → (rest : List Step) × ((sync ops low high (q ∷ qs) l x s).steps
          ≡ record { progressed = true; waited = some (q.drawn low) } ∷ rest)
  unfolding sync
  sync_resync_waits q qs l x s counted fits running ended progressed =
      let r = stream ops l.snapshot q.watch x s in
      let s' = set_state false r.0.1.state.cursor r.0.1 in
      let next = λ (l' : Loop). sync ops low high qs l' r.0.0 s' in
      rw (running, sync)
        (conclude_waits r.0.1.progressed q r.1 r.0.0 s' next l (not_first l.resyncs counted fits)
          progressed ended)

-- What `Sync` returns: nothing is set up without a projection and a store, or without instruments.
abbrev pub Setup {ℓ κ} :
    {S : Type ℓ} {E : Type κ} → SyncConfig → Bool → Result SetupError (Synced S E) → Type 0
Setup c instruments (err incomplete) = (is_empty c.projection || not c.has_store) ≡ true
Setup c instruments (err no_instruments) =
    ((is_empty c.projection || not c.has_store) ≡ false) × (instruments ≡ false)
Setup c instruments (ok r) =
    ((is_empty c.projection || not c.has_store) ≡ false) × (instruments ≡ true) × Ended r.ending

module _ {ℓ κ μ} {S : Type ℓ} {W : Type κ} {E : Type μ} (ops : Store S W E) where
  sync_from-Setup :
      (c : SyncConfig) (instruments : Bool) (qs : List Session) (x : S)
      → Setup c instruments (sync_from ops c instruments qs x)
  unfolding sync_from
  sync_from-Setup c instruments qs x =
      elim (Bool-cases (is_empty c.projection || not c.has_store)) [
        | inl e ↦ rw (e, sync_from) e
        | inr e ↦ elim (Bool-cases instruments) [
          | inr f ↦ rw (e, f, sync_from) (e, refl)
          | inl f ↦ rw (e, f, sync_from) (e, refl, sync-Ended ops _ _ qs _ x _)
        ]
      ]

  -- `Sync` returns without a stream exactly where its projection or store is missing, or its
  -- instruments are not made. Otherwise it returns an error only where its store failed or the
  -- server answered with a status that a retry cannot fix. Each turn of its loop that is not cancelled
  -- is the last, with its error, exactly where the error is such a one; a resync, a lost connection,
  -- a server that is unavailable, and a refused cursor that was not asked for a snapshot are retried.
  pub sync_fails :
      (c : SyncConfig) (instruments : Bool) (low high : ℕ) (q : Session) (qs : List Session)
      (l : Loop) (x : S) (s : Syncer)
      → q.cancelled ≡ false
      → let e = (stream ops l.snapshot q.watch x s).1 in
        Setup c instruments (sync_from ops c instruments (q ∷ qs) x)
        × Turn ops low high (ends_sync e l.snapshot) e (sync ops low high (q ∷ qs) l x s)
  unfolding sync
  sync_fails c instruments low high q qs l x s running =
      let r = stream ops l.snapshot q.watch x s in
      let s' = set_state false r.0.1.state.cursor r.0.1 in
      (
        sync_from-Setup c instruments (q ∷ qs) x,
        rw (running, sync)
            (conclude-Turn ops low high r.0.1.progressed q r.1 r.0.0 s'
              (λ l'. sync ops low high qs l' r.0.0 s') l),
      )
