-- ===== src/Base/Results.antt =====
-- Go's `(value, error)` results: a value, or the error that is returned instead of it.
use mathlib.Core.Path.{◌≡◌, refl}
use mathlib.Core.Logic.{◌⊎◌, inl, inr}
use mathlib.Core.Bool.{Bool, true, false}
use mathlib.Core.Option.{Option, none, some}

pub data Result {ℓ κ} (E : Type ℓ) (A : Type κ) : Type (ℓ ⊔ κ) where
  ok : A → Result E A
  err : E → Result E A

-- `abbrev`, so that `ok a >>= f` computes wherever it stands.
infixl 5 ◌>>=◌ ◌>>◌
abbrev pub ◌>>=◌ {ℓ κ μ} :
    {E : Type ℓ} {A : Type κ} {B : Type μ} → Result E A → (A → Result E B) → Result E B
ok a >>= f = f a
err e >>= f = err e

abbrev pub ◌>>◌ {ℓ κ} : {E : Type ℓ} {B : Type κ} → Result E (Unit {0}) → Result E B → Result E B
m >> k = m >>= λ _. k

-- `if !cond { return e }`
abbrev pub require {ℓ} : {E : Type ℓ} → Bool → E → Result E (Unit {0})
require true e = ok tt
require false e = err e

-- `if missing { return e }`
abbrev pub or_err {ℓ κ} : {E : Type ℓ} {A : Type κ} → Option A → E → Result E A
or_err none e = err e
or_err (some a) e = ok a

pub ok-injective {ℓ κ} :
    {E : Type ℓ} {A : Type κ} {a b : A} → ◌≡◌ {A = Result E A} (ok a) (ok b) → a ≡ b
ok-injective e = cc

pub Result-cases {ℓ κ} :
    {E : Type ℓ} {A : Type κ} (r : Result E A) → ((a : A) × (r ≡ ok a)) ⊎ ((e : E) × (r ≡ err e))
Result-cases (ok a) = inl (a, refl)
Result-cases (err e) = inr (e, refl)

-- A result that is a value has the property; an error has it for free.
pub data Ensures {ℓ κ μ} {E : Type ℓ} {A : Type κ} (P : A → Type μ)
    : Result E A → Type (ℓ ⊔ κ ⊔ μ) where
  holds : {a : A} → P a → Ensures P (ok a)
  fails : {e : E} → Ensures P (err e)

pub Ensures-bind {ℓ κ μ ν ρ} :
    {E : Type ℓ} {A : Type κ} {B : Type μ} {Q : A → Type ν} {P : B → Type ρ} {m : Result E A}
    {f : A → Result E B}
    → Ensures Q m
    → ((a : A) → Q a → Ensures P (f a))
    → Ensures P (m >>= f)
Ensures-bind (holds {a} h) k = k a h
Ensures-bind fails k = fails

pub Ensures-require {ℓ μ ρ} :
    {E : Type ℓ} {B : Type μ} {P : B → Type ρ} (b : Bool) (e : E) {k : Result E B}
    → (b ≡ true → Ensures P k)
    → Ensures P (require b e >> k)
Ensures-require true e h = h refl
Ensures-require false e h = fails

pub Ensures-ok {ℓ κ μ} :
    {E : Type ℓ} {A : Type κ} {P : A → Type μ} {a : A} → Ensures {E = E} P (ok a) → P a
Ensures-ok (holds h) = h

pub Ensures-or_err {ℓ κ μ} :
    {E : Type ℓ} {A : Type κ} {P : A → Type μ} (o : Option A) (e : E)
    → ((a : A) → o ≡ some a → P a)
    → Ensures P (or_err o e)
Ensures-or_err none e h = fails
Ensures-or_err (some a) e h = holds (h a refl)

-- What a chain of fallible steps that returns has done.
pub bind_ok {ℓ κ μ} :
    {E : Type ℓ} {A : Type κ} {B : Type μ} (m : Result E A) (f : A → Result E B) (b : B)
    → (m >>= f) ≡ ok b
    → (a : A) × (m ≡ ok a) × (f a ≡ ok b)
bind_ok (ok a) f b e = (a, refl, e)
bind_ok (err x) f b e = absurd (cc)

pub require-ok {ℓ} : {E : Type ℓ} (b : Bool) (e : E) (u : Unit {0}) → require b e ≡ ok u → b ≡ true
require-ok true e u h = refl
require-ok false e u h = absurd (cc)

pub or_err-ok {ℓ κ} :
    {E : Type ℓ} {A : Type κ} (o : Option A) (e : E) (a : A) → or_err o e ≡ ok a → o ≡ some a
or_err-ok (some b) e a h = cc
or_err-ok none e a h = absurd (cc)
