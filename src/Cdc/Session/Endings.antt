-- ===== src/Cdc/Session/Endings.antt =====
-- Reasoning about the calls of Cdc/Session.antt however they end: this holds where a value is
-- returned, and that where the call fails.
use watchd.Base.{ℕ, ◌≡◌, refl, Result, ok, err}
use watchd.Cdc.Failure.{Failure}
use watchd.Cdc.Session.{
  World, Outcome, done, failed, running, Call, ◌>>=◌, continue, ask, see, check, change, return,
  deferring, outcome, tick,
}

-- `Q` of what is returned, and `F` of the state of a call that fails.
abbrev pub Settled {ℓ} :
    {A : Type ℓ} → (A → World → Type 0) → (World → Type 0) → Outcome A → World → Type 0
Settled Q F (done a) w = Q a w
Settled Q F (failed e) w = F w
Settled Q F running w = Unit

unfoldable pub Ends {ℓ} :
    {A : Type ℓ} → (A → World → Type 0) → (World → Type 0) → Call A → World → Type 0
Ends Q F m w = Settled Q F (m w).0 (m w).1

module _ {ℓ} {A : Type ℓ} (Q : A → World → Type 0) (F : World → Type 0) where
  pub end_give : (a : A) (w : World) → Q a w → Ends Q F (return a) w
  unfolding Ends return
  end_give a w h = h

  pub end_check :
      (r : Result Failure A) (w : World) → ((a : A) → Q a w) → F w → Ends Q F (check r) w
  unfolding Ends check
  end_check (ok a) w q f = q a
  end_check (err e) w q f = f

  pub end_weaken :
      (G : World → Type 0) (m : Call A) (w : World)
      → ((w' : World) → G w' → F w')
      → Ends Q G m w
      → Ends Q F m w
  unfolding Ends
  end_weaken G m w f p = go (m w).0 (m w).1 p
    where
      go : (o : Outcome A) (w' : World) → Settled Q G o w' → Settled Q F o w'
      go (done a) w' p' = p'
      go (failed e) w' p' = f w' p'
      go running w' p' = tt

  -- A deferred change, which may turn what held into what is claimed.
  pub end_defer :
      (P : A → World → Type 0) (G : World → Type 0) (g : Outcome A → World → World) (m : Call A)
      (w : World)
      → ((a : A) (w' : World) → P a w' → Q a (g (done a) w'))
      → ((e : Failure) (w' : World) → G w' → F (g (failed e) w'))
      → Ends P G m w
      → Ends Q F (deferring g m) w
  unfolding Ends deferring
  end_defer P G g m w q f p = go (m w).0 (m w).1 p
    where
      go : (o : Outcome A) (w' : World) → Settled P G o w' → Settled Q F o (g o w')
      go (done a) w' p' = q a w' p'
      go (failed e) w' p' = f e w' p'
      go running w' p' = tt

module _ {ℓ κ} {A : Type ℓ} {B : Type κ} (Q : B → World → Type 0) (F : World → Type 0) where
  pub end_part :
      (P : A → World → Type 0) (m : Call A) (f : A → Call B) (w : World)
      → Ends P F m w
      → ((a : A) (w' : World) → P a w' → Ends Q F (f a) w')
      → Ends Q F (m >>= f) w
  unfolding Ends ◌>>=◌
  end_part P m f w p h = go (m w).0 (m w).1 p
    where
      go :
          (o : Outcome A) (w' : World)
          → Settled P F o w'
          → Settled Q F (continue f o w').0 (continue f o w').1
      go (done a) w' p' = h a w' p'
      go (failed e) w' p' = p'
      go running w' p' = tt

  pub end_see :
      (g : World → A) (f : A → Call B) (w : World) → Ends Q F (f (g w)) w → Ends Q F (see g >>= f) w
  unfolding Ends ◌>>=◌ see
  end_see g f w h = h

  pub end_ask :
      (q : ℕ → Result Failure A) (f : A → Call B) (w : World)
      → F (tick w)
      → ((a : A) → q w.moment ≡ ok a → Ends Q F (f a) (tick w))
      → Ends Q F (ask q >>= f) w
  unfolding Ends ◌>>=◌ ask
  end_ask q f w e h = go (q w.moment) h
    where
      go :
          (r : Result Failure A)
          → ((a : A) → r ≡ ok a → Settled Q F (f a (tick w)).0 (f a (tick w)).1)
          → Settled Q F (continue f (outcome r) (tick w)).0 (continue f (outcome r) (tick w)).1
      go (ok a) k = k a refl
      go (err x) k = e

  pub end_then :
      (r : Result Failure A) (f : A → Call B) (w : World)
      → F w
      → ((a : A) → r ≡ ok a → Ends Q F (f a) w)
      → Ends Q F (check r >>= f) w
  unfolding Ends ◌>>=◌ check
  end_then (ok a) f w e h = h a refl
  end_then (err x) f w e h = e

pub end_change {κ} :
    {B : Type κ} (Q : B → World → Type 0) (F : World → Type 0) (g : World → World)
    (f : Unit {0} → Call B) (w : World)
    → Ends Q F (f tt) (g w)
    → Ends Q F (change g >>= f) w
unfolding Ends ◌>>=◌ change
end_change Q F g f w h = h

pub end_changes :
    (Q : Unit {0} → World → Type 0) (F : World → Type 0) (g : World → World) (w : World)
    → Q tt (g w)
    → Ends Q F (change g) w
unfolding Ends change
end_changes Q F g w h = h
