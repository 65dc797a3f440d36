-- ===== src/Watch/Action.antt =====
-- The calls of internal/watch/hub.go as actions: each goes on with a value or ends the call, over the
-- hub and what was sent.
use watchd.Base.{ℕ, List, [], ◌∷◌, Result, ok, err}
use watchd.Cdc.Error.{Error}
use watchd.Cdc.Failure.{Failure}
use watchd.Watch.Hub.{Hub}

-- The errors that `Watch` returns.
pub data CallError {ℓ} (X : Type ℓ) : Type ℓ where
  unknown_projection source_not_started context_ended : CallError X
  cursor_error : Error → CallError X
  snapshot_failed : Failure → CallError X
  send_error : X → CallError X

-- How a call ends: `finished` is nil. One that is `waiting` has not ended.
pub data Stop {ℓ} (X : Type ℓ) : Type ℓ where
  finished waiting : Stop X
  failed : CallError X → Stop X

pub data Step {ℓ κ} (X : Type ℓ) (A : Type κ) : Type (ℓ ⊔ κ) where
  goes : A → Step X A
  stops : Stop X → Step X A

-- The hub, the moments so far, and what `send` keeps.
pub record Now {ℓ} (M : Type ℓ) : Type ℓ where
  pub hub : Hub
  pub moment : ℕ
  pub out : M

abbrev pub WatchAction {ℓ κ μ} : Type ℓ → Type κ → Type μ → Type (ℓ ⊔ κ ⊔ μ)
WatchAction M X A = Now M → Step X A × Now M

abbrev pub continue {ℓ κ μ ν} :
    {M : Type ℓ} {X : Type κ} {A : Type μ} {B : Type ν}
    → (A → WatchAction M X B)
    → Step X A
    → Now M
    → Step X B × Now M
continue f (goes a) now = f a now
continue f (stops e) now = (stops e, now)

infixl 5 ◌>>=◌ ◌>>◌
unfoldable pub ◌>>=◌ {ℓ κ μ ν} :
    {M : Type ℓ} {X : Type κ} {A : Type μ} {B : Type ν}
    → WatchAction M X A
    → (A → WatchAction M X B)
    → WatchAction M X B
◌>>=◌ m f now = continue f (m now).0 (m now).1

abbrev pub ◌>>◌ {ℓ κ ν} :
    {M : Type ℓ} {X : Type κ} {B : Type ν}
    → WatchAction M X (Unit {0})
    → WatchAction M X B
    → WatchAction M X B
m >> k = m >>= λ _. k

unfoldable pub return {ℓ κ μ} : {M : Type ℓ} {X : Type κ} {A : Type μ} → A → WatchAction M X A
return a now = (goes a, now)

unfoldable pub end {ℓ κ μ} : {M : Type ℓ} {X : Type κ} {A : Type μ} → Stop X → WatchAction M X A
end e now = (stops e, now)

unfoldable pub moment {ℓ κ} : {M : Type ℓ} {X : Type κ} → WatchAction M X ℕ
moment now = (goes now.moment, now)

-- `if err != nil { return err }`
abbrev pub check {ℓ κ μ} :
    {M : Type ℓ} {X : Type κ} {A : Type μ} → Result Error A → WatchAction M X A
check (ok a) = return a
check (err e) = end (failed (cursor_error e))

-- The loops over pages and batches.
unfoldable pub each {ℓ κ μ} :
    {M : Type ℓ} {X : Type κ} {A : Type μ}
    → (A → WatchAction M X (Unit {0}))
    → List A
    → WatchAction M X (Unit {0})
each f [] = return tt
each f (a ∷ rest) = f a >> each f rest
