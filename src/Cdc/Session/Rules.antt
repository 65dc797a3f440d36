-- ===== src/Cdc/Session/Rules.antt =====
-- Reasoning about the calls of Cdc/Session.antt, step by step: a call ends, and this holds where it
-- returns a value.
use watchd.Base.{ℕ, ◌≡◌, refl, subst, Result, ok, err}
use watchd.Cdc.Failure.{Failure}
use watchd.Cdc.Session.{
  World, Outcome, done, failed, running, Call, ◌>>=◌, continue, ask, see, check, change, return,
  deferring, outcome, tick,
}

-- `Q` of the value that is returned, and of the state then; nothing of a call that fails. A call
-- does not use up its fuel.
abbrev pub Post {ℓ} : {A : Type ℓ} → (A → World → Type 0) → Outcome A → World → Type 0
Post Q (done a) w = Q a w
Post Q (failed e) w = Unit
Post Q running w = ⊥

-- What the call `m` does in the state `w`: it ends, and where it returns, `Q` holds.
unfoldable pub Returns {ℓ} : {A : Type ℓ} → (A → World → Type 0) → Call A → World → Type 0
Returns Q m w = Post Q (m w).0 (m w).1

module _ {ℓ} {A : Type ℓ} (Q : A → World → Type 0) where
  pub gives : (a : A) (w : World) → Q a w → Returns Q (return a) w
  unfolding Returns return
  gives a w h = h

  pub checked :
      (r : Result Failure A) (w : World) → ((a : A) → r ≡ ok a → Q a w) → Returns Q (check r) w
  unfolding Returns check
  checked (ok a) w h = h a refl
  checked (err e) w h = tt

  -- A deferred change that `Q` does not see.
  pub through_defer :
      (f : Outcome A → World → World) (m : Call A) (w : World)
      → ((a : A) (w' : World) → Q a w' → Q a (f (done a) w'))
      → Returns Q m w
      → Returns Q (deferring f m) w
  unfolding Returns deferring
  through_defer f m w h p = go (m w).0 (m w).1 p
    where
      go : (o : Outcome A) (w' : World) → Post Q o w' → Post Q o (f o w')
      go (done a) w' p' = h a w' p'
      go (failed e) w' p' = tt
      go running w' p' = p'

  pub weaken :
      (P : A → World → Type 0) (m : Call A) (w : World)
      → ((a : A) (w' : World) → P a w' → Q a w')
      → Returns P m w
      → Returns Q m w
  unfolding Returns
  weaken P m w h p = go (m w).0 (m w).1 p
    where
      go : (o : Outcome A) (w' : World) → Post P o w' → Post Q o w'
      go (done a) w' p' = h a w' p'
      go (failed e) w' p' = tt
      go running w' p' = p'

  -- What is returned, from what every return has.
  pub returned :
      (m : Call A) (w : World) (a : A) (w' : World) → Returns Q m w → m w ≡ (done a, w') → Q a w'
  unfolding Returns
  returned m w a w' p e = subst (λ (r : Outcome A × World). Post Q r.0 r.1) e p

module _ {ℓ κ} {A : Type ℓ} {B : Type κ} (Q : B → World → Type 0) where
  -- A part for which a lemma is there, and the rest.
  pub next_part :
      (P : A → World → Type 0) (m : Call A) (f : A → Call B) (w : World)
      → Returns P m w
      → ((a : A) (w' : World) → P a w' → Returns Q (f a) w')
      → Returns Q (m >>= f) w
  unfolding Returns ◌>>=◌
  next_part P m f w p h = go (m w).0 (m w).1 p
    where
      go :
          (o : Outcome A) (w' : World)
          → Post P o w'
          → Post Q (continue f o w').0 (continue f o w').1
      go (done a) w' p' = h a w' p'
      go (failed e) w' p' = tt
      go running w' p' = p'

  pub next_see :
      (g : World → A) (f : A → Call B) (w : World)
      → Returns Q (f (g w)) w
      → Returns Q (see g >>= f) w
  unfolding Returns ◌>>=◌ see
  next_see g f w h = h

  -- A query, and the rest.
  pub next_ask :
      (q : ℕ → Result Failure A) (f : A → Call B) (w : World)
      → ((a : A) → q w.moment ≡ ok a → Returns Q (f a) (tick w))
      → Returns Q (ask q >>= f) w
  unfolding Returns ◌>>=◌ ask
  next_ask q f w h = go (q w.moment) h
    where
      go :
          (r : Result Failure A)
          → ((a : A) → r ≡ ok a → Post Q (f a (tick w)).0 (f a (tick w)).1)
          → Post Q (continue f (outcome r) (tick w)).0 (continue f (outcome r) (tick w)).1
      go (ok a) k = k a refl
      go (err x) k = tt

  -- A check, and the rest.
  pub next_check :
      (r : Result Failure A) (f : A → Call B) (w : World)
      → ((a : A) → r ≡ ok a → Returns Q (f a) w)
      → Returns Q (check r >>= f) w
  unfolding Returns ◌>>=◌ check
  next_check (ok a) f w h = h a refl
  next_check (err x) f w h = tt

-- A change, and the rest.
pub next_change {κ} :
    {B : Type κ} (Q : B → World → Type 0) (g : World → World) (f : Unit {0} → Call B) (w : World)
    → Returns Q (f tt) (g w)
    → Returns Q (change g >>= f) w
unfolding Returns ◌>>=◌ change
next_change Q g f w h = h

pub changes :
    (Q : Unit {0} → World → Type 0) (g : World → World) (w : World)
    → Q tt (g w)
    → Returns Q (change g) w
unfolding Returns change
changes Q g w h = h
