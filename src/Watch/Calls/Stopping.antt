-- ===== src/Watch/Calls/Stopping.antt =====
-- `live` of internal/watch/hub.go, once the hub is stopped: the loop ends.
use watchd.Base.{All, ℕ, ◌<◌, ◌≡◌, Bool, List, [], ◌∷◌, Option, none, length, Result, ok}
use watchd.Cdc.Error.{Error}
use watchd.Cdc.Cursor.{Cursor}
use watchd.Cdc.Transaction.{Transaction}
use watchd.Watch.Event.{Event, ResyncReason}
use watchd.Watch.Registry.{Queued}
use watchd.Watch.Hub.{Hub}
use watchd.Watch.Live.{drain}
use watchd.Watch.Action.{goes, Now, WatchAction}
use watchd.Watch.Calls.{Surroundings, drain_queue}
use watchd.Watch.Calls.Still.{waiting_items, Still, WindsDown, TakesReady}

module _ {ℓ κ} {M : Type ℓ} {X : Type κ} (send : Event → M → M × Option X) where
  -- What is kept of these events that are sent.
  abbrev pub send_all : List Event → M → M
  send_all [] m = m
  send_all (e ∷ es) m = send_all es (send e m).0

module _ {ℓ κ} {M : Type ℓ} {X : Type κ} (send : Event → M → M × Option X) (env : Surroundings)
    (w : ℕ) (need : Transaction → Result Error Bool)
    (works : (e : Event) (m : M) → (send e m).1 ≡ none) (winds : WindsDown w env)
    (takes : TakesReady w env) where
  -- `need` answers for these items.
  abbrev pub Answers : List Queued → Type 0
  Answers = All (λ item. (b : Bool) × (need item.transaction ≡ ok b))

  -- An action goes on with this value and these events, at a hub that is still.
  abbrev GoesOn {μ} :
      {A : Type μ}
      → WatchAction M X A
      → A
      → List Event
      → ℕ
      → Option ResyncReason
      → Now M
      → Type (ℓ ⊔ κ ⊔ μ)
  GoesOn m a events tick over now =
      (now' : Now M) × (m now ≡ (goes a, now'))
      × (now'.out ≡ send_all send events now.out)
      × Still w tick over now'.hub

  -- The loop drains these items: it sends what `drain` says.
  abbrev Drained :
      Cursor → List Queued → ℕ → Option ResyncReason → Now M → WatchAction M X Cursor → Type (ℓ ⊔ κ)
  Drained at items tick over now m =
      (at' : Cursor) × (events : List Event) × (drain need at items ≡ (events, ok at'))
      × GoesOn m at' events tick over now

  abbrev Drains : ℕ → Type (ℓ ⊔ κ)
  Drains n =
      (at : Cursor) (items : List Queued) (tick : ℕ) (over : Option ResyncReason) (now : Now M)
      → Still w tick over now.hub
      → waiting_items w now.hub ≡ items
      → Answers items
      → length items < n
      → Drained at items tick over now (drain_queue send env n w need at)
