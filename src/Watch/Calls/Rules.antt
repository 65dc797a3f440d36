-- ===== src/Watch/Calls/Rules.antt =====
-- Reasoning about the actions of Watch/Calls.antt by the phase of what was sent, as internal/watch/hub.go
-- goes from a snapshot to live events.
use watchd.Base.{◌≡◌, List, [], ◌∷◌, Option, none, some, Result, ok, err}
use watchd.Cdc.Error.{Error}
use watchd.Watch.Event.{Event}
use watchd.Watch.Hub.{Hub}
use watchd.Watch.Action.{
  CallError, finished, waiting, failed, Step, goes, stops, Now, WatchAction, continue, ◌>>=◌,
  return, end, moment, check, each,
}
use watchd.Watch.Calls.Phases.{Phase, over, next_phase}
use watchd.Watch.Calls.{Surroundings, emit, sent, section, after_end, deferring}

-- What was sent is in one of these phases.
abbrev pub In {ℓ} : {M : Type ℓ} → (Phase → M → Type 0) → (Phase → Type 0) → M → Type 0
In At S m = (p : Phase) × S p × At p m

abbrev pub Any : Phase → Type 0
Any p = Unit

module _ {ℓ κ} {M : Type ℓ} (X : Type κ) (At : Phase → M → Type 0) where
  -- One of the phases where a value is returned; a call that is finished has sent a resync, and
  -- every other end is in some phase.
  abbrev pub Fulfils {μ} : {A : Type μ} → (Phase → Type 0) → Step X A → M → Type 0
  Fulfils S (goes a) m = In At S m
  Fulfils S (stops finished) m = At over m
  Fulfils S (stops waiting) m = In At Any m
  Fulfils S (stops (failed e)) m = In At Any m

  -- What an action makes of these phases.
  unfoldable pub Keeps {μ} :
      {A : Type μ} → (Phase → Type 0) → (Phase → Type 0) → WatchAction M X A → Type ℓ
  Keeps S T m = (now : Now M) → In At S now.out → Fulfils T (m now).0 (m now).1.out

  -- `send` of an event that may come: the next phase, or an error in some phase.
  abbrev pub Sends : Phase → M × Option X → Type 0
  Sends p (m, none) = At p m
  Sends p (m, some x) = In At Any m

  -- Where nothing is sent.
  pub return-Keeps {μ} :
      {A : Type μ} (S : Phase → Type 0) (a : A) → Keeps S S (return {M = M} {X = X} a)
  unfolding Keeps return
  return-Keeps S a now h = h

  pub waiting-Keeps {μ} :
      (A : Type μ) (S T : Phase → Type 0) → Keeps S T (end {M = M} {X = X} {A = A} waiting)
  unfolding Keeps end
  waiting-Keeps A S T now h = (h.0, tt, h.2)

  pub failed-Keeps {μ} :
      (A : Type μ) (S T : Phase → Type 0) (e : CallError X)
      → Keeps S T (end {M = M} {A = A} (failed e))
  unfolding Keeps end
  failed-Keeps A S T e now h = (h.0, tt, h.2)

  pub moment-Keeps : (S : Phase → Type 0) → Keeps S S (moment {M = M} {X = X})
  unfolding Keeps moment
  moment-Keeps S now h = h

  pub check-Keeps {μ} :
      {A : Type μ} (S : Phase → Type 0) (r : Result Error A) → Keeps S S (check {M = M} {X = X} r)
  unfolding Keeps return end
  check-Keeps S (ok a) now h = h
  check-Keeps S (err e) now h = (h.0, tt, h.2)

  -- The rest of a call.
  pub then-Keeps {μ ν} :
      {A : Type μ} {B : Type ν} (S T U : Phase → Type 0) (m : WatchAction M X A)
      (f : A → WatchAction M X B)
      → Keeps S T m
      → ((a : A) → Keeps T U (f a))
      → Keeps S U (m >>= f)
  unfolding Keeps ◌>>=◌
  then-Keeps {A = A} S T U m f p q now h = go (m now).0 (m now).1 (p now h)
    where
      go :
          (r : Step X A) (now' : Now M)
          → Fulfils T r now'.out
          → Fulfils U (continue f r now').0 (continue f r now').1.out
      go (goes a) now' k = q a now' k
      go (stops finished) now' k = k
      go (stops waiting) now' k = k
      go (stops (failed e)) now' k = k

  pub each-Keeps {μ} :
      {A : Type μ} (S : Phase → Type 0) (f : A → WatchAction M X (Unit {0})) (xs : List A)
      → ((a : A) → Keeps S S (f a))
      → Keeps S S (each f xs)
  unfolding each
  each-Keeps S f [] p = return-Keeps S tt
  each-Keeps S f (x ∷ xs) p =
      then-Keeps S S S (f x) (λ _. each f xs) (p x) (λ _. each-Keeps S f xs p)

  -- More phases than are claimed.
  pub from-Keeps {μ} :
      {A : Type μ} (R S T : Phase → Type 0) (m : WatchAction M X A)
      → ((p : Phase) → R p → S p)
      → Keeps S T m
      → Keeps R T m
  unfolding Keeps
  from-Keeps R S T m f k now h = k now (h.0, f h.0 h.1, h.2)

  -- Of an action that does not go on.
  pub never-Keeps {μ} :
      {A : Type μ} (S T : Phase → Type 0) (m : WatchAction M X A) → Keeps S (λ p. ⊥) m → Keeps S T m
  unfolding Keeps
  never-Keeps {A = A} S T m k now h = go (m now).0 (m now).1 (k now h)
    where
      go : (r : Step X A) (now' : Now M) → Fulfils (λ p. ⊥) r now'.out → Fulfils T r now'.out
      go (goes a) now' p = elim p.1 [ ]
      go (stops finished) now' p = p
      go (stops waiting) now' p = p
      go (stops (failed e)) now' p = p

  module _ (send : Event → M → M × Option X) (env : Surroundings) where
    pub section-Keeps {μ} :
        {A : Type μ} (S : Phase → Type 0) (f : Hub → Hub × A) → Keeps S S (section send env f)
    unfolding Keeps section
    section-Keeps S f now h = h

    pub deferring-Keeps :
        (S T : Phase → Type 0) (f : Hub → Hub) (m : WatchAction M X (Unit {0}))
        → Keeps S T m
        → Keeps S T (deferring send env f m)
    unfolding Keeps deferring section ◌>>=◌ return end
    deferring-Keeps S T f m k now h = go (m now).0 (m now).1 (k now h)
      where
        go :
            (r : Step X (Unit {0})) (now' : Now M)
            → Fulfils T r now'.out
            → Fulfils T (after_end send env f r now').0 (after_end send env f r now').1.out
        go (goes a) now' p = p
        go (stops finished) now' p = p
        go (stops waiting) now' p = p
        go (stops (failed e)) now' p = p

    module _
        (laws : (p q : Phase) (e : Event) (m : M)
          → next_phase p e ≡ some q
          → At p m
          → Sends q (send e m)) where
      -- An event that may come in each of these phases.
      pub emit-Keeps :
          (S T : Phase → Type 0) (e : Event)
          → ((p : Phase) → S p → (q : Phase) × (next_phase p e ≡ some q) × T q)
          → Keeps S T (emit send env e)
      unfolding Keeps emit
      emit-Keeps S T e f now (p, s, h) =
          let (q, may, t) = f p s in go (send e now.out) q t (laws p q e now.out may h)
        where
          go : (r : M × Option X) (q : Phase) → T q → Sends q r → Fulfils T (sent send env r.1) r.0
          go (m, none) q t k = (q, t, k)
          go (m, some x) q t k = k
