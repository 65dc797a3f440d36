-- ===== src/Sdk/Sync/Retry.antt =====
-- sdk/go/watchd/client.go: when `Sync` retries, when it waits and for how long, and when it returns.
use watchd.Base.{
  ℕ, ◌+◌, ◌-◌, ◌*◌, All, ◌%◌, ◌^◌, ◌≤◌, ◌<◌, ◌≡◌, refl, Bool, true, false, List, [], ◌∷◌, Option,
  none, some, if◌then◌else◌, ◌==◌, arith, Bool-cases, inl, inr,
}
use watchd.Sdk.Interface.{Store}
use watchd.Wire.{
  not_found, invalid_argument, failed_precondition, permission_denied, unauthenticated,
  unimplemented, other_code, unavailable, internal,
}
use watchd.Sdk.Stream.{
  StreamError, resync_error, store_error, status_error, Syncer, stream, set_state,
}
use watchd.Sdk.Sync.{
  Loop, Decision, returns, retries, decide, after_progress, longer, Session, Step, Synced, conclude,
  sync,
}

-- How many retries at once are left without progress: a first snapshot, a first resync.
abbrev credit : Loop → ℕ
credit l = (if l.snapshot then 0 else 1) + (if l.resyncs == 0 then 1 else 0)

abbrev CalmStep : Bool → Option ℕ → ℕ → Type 0 → Type 0 → Type 0
CalmStep true waited left fresh less = fresh
CalmStep false (some backoff) left fresh less = fresh
CalmStep false none left fresh less = (1 ≤ left) × less

-- No more than `left` retries in a row are at once and without progress, and after a wait or
-- progress no more than two.
abbrev pub Calm : ℕ → List Step → Type 0
Calm left [] = Unit
Calm left (step ∷ steps) =
    CalmStep step.progressed step.waited left (Calm 2 steps) (Calm (left - 1) steps)

-- The random factor of a wait: between 0.8 and 1.2, on float64, cut to whole
-- nanoseconds; below 2 ^ 52 this is off by no more than two.
abbrev pub Spread : ℕ → (ℕ → ℕ) → Type 0
Spread high drawn =
    (backoff : ℕ)
    → backoff ≤ high
    → (4 * backoff ≤ 5 * drawn backoff + 10) × (5 * drawn backoff ≤ 6 * backoff + 10)

abbrev pub AllSpread : ℕ → List Session → Type 0
AllSpread high = All (λ q. Spread high q.drawn)

-- Every wait is from 0.8 times the least backoff to 1.2 times the last, to two nanoseconds.
abbrev pub Within : ℕ → ℕ → List Step → Type 0
Within low high [] = Unit
Within low high (step ∷ steps) =
    elim step.waited [
      | none ↦ Unit
      | some wait ↦ (4 * low ≤ 5 * wait + 10) × (5 * wait ≤ 6 * high + 10)
    ]
    × Within low high steps

CalmStep-more :
    (progressed : Bool) (waited : Option ℕ) (left more : ℕ) (fresh less less' : Type 0)
    → left ≤ more
    → (less → less')
    → CalmStep progressed waited left fresh less
    → CalmStep progressed waited more fresh less'
CalmStep-more true waited left more fresh less less' h k c = c
CalmStep-more false (some backoff) left more fresh less less' h k c = c
CalmStep-more false none left more fresh less less' h k c = (omega (arith, c.0), k c.1)

Calm-more : (left more : ℕ) (steps : List Step) → left ≤ more → Calm left steps → Calm more steps
Calm-more left more [] h c = tt
Calm-more left more (step ∷ steps) h c =
    CalmStep-more step.progressed step.waited left more (Calm 2 steps) (Calm (left - 1) steps)
      (Calm (more - 1) steps) h (Calm-more (left - 1) (more - 1) steps (omega arith)) c

-- What the switch leaves for a retry at once without progress.
abbrev Costs {ℓ} : {E : Type ℓ} → Loop → Decision E → Type 0
Costs l (returns e) = Unit
Costs l (retries false l') = (l'.backoff ≡ l.backoff) × (l'.resyncs < 2 ^ 64)
Costs l (retries true l') =
    (l'.backoff ≡ l.backoff) × (l'.resyncs < 2 ^ 64) × (credit l' < credit l)

decide-Costs {ℓ} :
    {E : Type ℓ} (e : StreamError E) (l : Loop) → l.resyncs < 2 ^ 64 → Costs l (decide e l)
unfolding decide
decide-Costs resync_error l h = elim (Bool-cases ((l.resyncs + 1) % 2 ^ 64 == 1)) [
  | inr e ↦ rw e (refl, omega arith)
  | inl e ↦ rw e (refl, omega arith, ground arith)
]
decide-Costs (store_error e) l h = tt
decide-Costs (status_error not_found) l h = tt
decide-Costs (status_error invalid_argument) l h = elim (Bool-cases l.snapshot) [
  | inl e ↦ rw e tt
  | inr e ↦ rw e (refl, omega arith, ground arith)
]
decide-Costs (status_error failed_precondition) l h = tt
decide-Costs (status_error permission_denied) l h = tt
decide-Costs (status_error unauthenticated) l h = tt
decide-Costs (status_error unimplemented) l h = tt
decide-Costs (status_error unavailable) l h = (refl, omega arith)
decide-Costs (status_error internal) l h = (refl, omega arith)
decide-Costs (status_error other_code) l h = (refl, omega arith)

credit_max : (l : Loop) → credit l ≤ 2
credit_max l = ground arith

module _ (low high : ℕ) (ordered : low ≤ high) (fits : high < 2 ^ 52) where
  abbrev Good : Loop → Type 0
  Good l = (l.resyncs < 2 ^ 64) × (low ≤ l.backoff) × (l.backoff ≤ high)

  Good-kept : (l l' : Loop) → Good l → l'.backoff ≡ l.backoff → l'.resyncs < 2 ^ 64 → Good l'
  Good-kept l l' g b r = (r, omega (arith, b, g.1), omega (arith, b, g.2))

  longer-Good : (l : Loop) → Good l → Good (longer high l)
  unfolding longer
  longer-Good l g = (omega (arith, g.0), ground arith, ground arith)

  after_progress-Good {ℓ} :
      {E : Type ℓ} (progressed : Bool) (e : StreamError E) (l : Loop)
      → Good l
      → Good (after_progress low progressed e l)
  unfolding after_progress
  after_progress-Good false e l g = g
  after_progress-Good true resync_error l g = (omega arith, omega arith, omega arith)
  after_progress-Good true (store_error e) l g = (omega arith, omega arith, omega arith)
  after_progress-Good true (status_error code) l g = (omega arith, omega arith, omega arith)

  module _ {ℓ κ μ} {S : Type ℓ} {W : Type κ} {E : Type μ} (ops : Store S W E) where
    abbrev Behaves : ℕ → Synced S E → Type 0
    Behaves left r = Calm left r.steps × Within low high r.steps

    fresh_start : (l : Loop) (r : Synced S E) → Behaves (credit l) r → Calm 2 r.steps
    fresh_start l r b = Calm-more (credit l) 2 r.steps (credit_max l) b.0

    -- A wait of the bounds.
    drawn_within :
        (drawn : ℕ → ℕ) (backoff : ℕ)
        → Spread high drawn
        → low ≤ backoff
        → backoff ≤ high
        → (4 * low ≤ 5 * drawn backoff + 10) × (5 * drawn backoff ≤ 6 * high + 10)
    drawn_within drawn backoff spread least last =
        let d = spread backoff last in (omega (arith, d, least), omega (arith, d, last))

    -- A retry after a wait costs nothing.
    stays :
        (progressed : Bool) (wait left : ℕ) (steps : List Step)
        → Calm 2 steps
        → Calm left (record { progressed = progressed; waited = some wait } ∷ steps)
    stays true wait left steps c = c
    stays false wait left steps c = c

    conclude-Behaves :
        (progressed : Bool) (q : Session) (e : StreamError E) (x : S) (s : Syncer)
        (next : Loop → Synced S E) (l : Loop) (d : Decision E)
        → Spread high q.drawn
        → Good l
        → Costs l d
        → ((l' : Loop) → Good l' → Behaves (credit l') (next l'))
        → Behaves (credit l) (conclude ops low high progressed q e x s next d)
    unfolding conclude
    conclude-Behaves progressed q e x s next l (returns e') spread g c k = (tt, tt)
    conclude-Behaves true q e x s next l (retries true l') spread g c k =
        let l'' = after_progress low true e l' in
        let b = k l'' (after_progress-Good true e l' (Good-kept l l' g c.0 c.1)) in
        (fresh_start l'' (next l'') b, (tt, b.1))
    conclude-Behaves false q e x s next l (retries true l') spread g c k =
        let b = k l' (Good-kept l l' g c.0 c.1) in
        (
          (
            omega (arith, c.2),
            Calm-more (credit l') (credit l - 1) (next l').steps (omega (arith, c.2)) b.0,
          ),
          (tt, b.1),
        )
    conclude-Behaves progressed q e x s next l (retries false l') spread g c k =
        let l'' = after_progress low progressed e l' in
        let g' = after_progress-Good progressed e l' (Good-kept l l' g c.0 c.1) in
        let long = longer high l'' in
        let b = k long (longer-Good l'' g') in
        let within = drawn_within q.drawn l''.backoff spread g'.1 g'.2 in
        let fresh = fresh_start long (next long) b in
        elim (Bool-cases q.cancelled_wait) [
          | inl e' ↦ rw (e', conclude) (stays progressed _ _ [] tt, (within, tt))
          | inr e' ↦ rw (e', conclude) (stays progressed _ _ (next long).steps fresh, (within, b.1))
        ]

    sync-Behaves :
        (qs : List Session) (l : Loop) (x : S) (s : Syncer)
        → AllSpread high qs
        → Good l
        → Behaves (credit l) (sync ops low high qs l x s)
    unfolding sync
    sync-Behaves [] l x s a g = (tt, tt)
    sync-Behaves (q ∷ qs) l x s a g =
        let r = stream ops l.snapshot q.watch x s in
        let s' = set_state false r.0.1.state.cursor r.0.1 in
        elim (Bool-cases q.cancelled) [
          | inl e ↦ rw (e, sync) (tt, tt)
          | inr e ↦
              rw (e, sync)
                (conclude-Behaves r.0.1.progressed q r.1 r.0.0 s'
                  (λ l'. sync ops low high qs l' r.0.0 s') l (decide r.1 l) a.0 g
                  (decide-Costs r.1 l g.0) (λ l' g'. sync-Behaves qs l' r.0.0 s' a.1 g'))
        ]

    -- With backoffs of fewer than 2 ^ 52 nanoseconds, a least one at most the last, and a random
    -- factor between 0.8 and 1.2: every wait is from 0.8 times the least backoff to 1.2 times the
    -- last, to two nanoseconds, and of the retries of a sync never more than two in a row are at once
    -- without progress in between: a server that keeps refusing is not asked in a tight loop.
    pub sync-Calm :
        (qs : List Session) (x : S) (s : Syncer)
        → AllSpread high qs
        → let r =
            sync ops low high qs (record { backoff = low; snapshot = false; resyncs = 0 }) x s in
          Calm 2 r.steps × Within low high r.steps
    sync-Calm qs x s a =
        sync-Behaves qs (record { backoff = low; snapshot = false; resyncs = 0 }) x s a
          (omega arith, omega arith, ordered)
