-- ===== src/Watch/Hub/History.antt =====
-- `Accept` of internal/watch/hub.go: the order of transactions, and the history of the window.
use watchd.Base.{
  ℕ, zero, suc, ◌≤◌, ◌≡◌, refl, sym, ap, ◌∙◌, ◌⊎◌, inl, inr, List, [], ◌∷◌, ◌++◌, Option, none,
  some, Text, Result, ok, arith,
}
use watchd.Cdc.Error.{Error}
use watchd.Cdc.Cursor.{Cursor}
use watchd.Cdc.Cursor.Least.{compare_cases}
use watchd.Cdc.Transaction.{Transaction, Incompatible}
use watchd.Watch.Window.{Window, evict_locked, evict_over, push, invalidate}
use watchd.Watch.Window.Ascent.{end_lsn, UpTo}
use watchd.Watch.Window.Replay.{Tracks, Fresh, push-Tracks, invalidate-Tracks}
use watchd.Watch.Hub.{
  Hub, invalidate_locked, invalidate_all, take_tick, accept_new, accept_after, accept,
}

evict_locked_received :
    (ring : List Transaction) (w : Window) → (evict_locked ring w).received ≡ w.received
unfolding evict_locked
evict_locked_received [] w = refl
evict_locked_received (t ∷ ring) w = refl

evict_over_received : (fuel : ℕ) (w : Window) → (evict_over fuel w).received ≡ w.received
unfolding evict_over
evict_over_received zero w = refl
evict_over_received (suc fuel) w =
    ground (arith, evict_over_received fuel (evict_locked w.ring w), evict_locked_received w.ring w)

push_received : (t : Transaction) (w : Window) → (push t w).received ≡ some t.cursor
unfolding push
push_received t w = evict_over_received _ _

module _ {sid : Text} {hist gone : List Transaction} (c : Cursor) where
  invalidate_all-Tracks :
      (is : List Incompatible) (h : Hub)
      → h.window.received ≡ some c
      → Tracks sid hist gone h.window
      → Tracks sid hist gone (invalidate_all is c h).window
  unfolding invalidate_all invalidate_locked
  invalidate_all-Tracks [] h e t = t
  invalidate_all-Tracks (i ∷ is) h e t =
      invalidate_all-Tracks is (invalidate_locked i.table c h) (unfold invalidate in e)
        (invalidate-Tracks c e t)

accept_new-Tracks :
    {sid : Text} {hist gone : List Transaction} (t : Transaction) (h : Hub)
    → Fresh sid h.window.received t
    → Tracks sid hist gone h.window
    → (gone' : List Transaction) × Tracks sid (hist ++ t ∷ []) gone' (accept_new t h).window
unfolding accept_new
accept_new-Tracks t h f k =
    let (gone', pushed) = push-Tracks t f k in
    (
      gone',
      invalidate_all-Tracks t.cursor t.incompatible
          (record (take_tick h) { window = push t h.window }) (push_received t h.window) pushed,
    )

-- What `Accept` did: it took the transaction as new, or it was a repetition.
abbrev Accepted :
    Text → List Transaction → Option Cursor → Transaction → Hub → Result Error Hub → Type 0
Accepted sid hist received t h result =
    ((result ≡ ok (accept_new t h))
      × Fresh sid received t
      × ((gone' : List Transaction) × Tracks sid (hist ++ t ∷ []) gone' (accept_new t h).window))
    ⊎ ((result ≡ ok h) × ((r : Cursor) × (received ≡ some r) × (end_lsn t ≤ r.lsn)))

accept_after-Accepted :
    {sid : Text} {hist gone : List Transaction} (received : Option Cursor) (t : Transaction)
    (h : Hub)
    → h.window.received ≡ received
    → t.cursor.source_id ≡ sid
    → Tracks sid hist gone h.window
    → Accepted sid hist received t h (accept_after received t h)
unfolding accept_after
accept_after-Accepted {sid} none t h e s k = inl (refl, s, accept_new-Tracks t h (rw e s) k)
accept_after-Accepted {sid} {hist} (some r) t h e s k =
    let newest : (r.source_id ≡ sid) × UpTo r.lsn hist = rw e at k.newest in
    elim (compare_cases t.cursor r (s ∙ sym newest.0)) [
      | inl p ↦ inr (rw p.0 refl, (r, refl, omega arith))
      | inr (inl p) ↦ inr (rw p.0 refl, (r, refl, omega (arith, ap (λ (c : Cursor). c.lsn) p.1)))
      | inr (inr p) ↦ inl (rw p.0 refl, (s, p.1), accept_new-Tracks t h (rw e (s, p.1)) k)
    ]

-- Where the window tracks the history of what was accepted, `Accept` never fails on a transaction
-- of the hub's source: it takes one that ends after the newest one taken, and the window then
-- tracks the history with it added; and it leaves the hub as it was for one that ends no later.
pub accept-Tracks :
    {sid : Text} {hist gone : List Transaction} (t : Transaction) (h : Hub)
    → t.cursor.source_id ≡ sid
    → Tracks sid hist gone h.window
    → ((accept t h ≡ ok (accept_new t h))
        × Fresh sid h.window.received t
        × ((gone' : List Transaction) × Tracks sid (hist ++ t ∷ []) gone' (accept_new t h).window))
      ⊎ ((accept t h ≡ ok h) × ((r : Cursor) × (h.window.received ≡ some r) × (end_lsn t ≤ r.lsn)))
unfolding accept
accept-Tracks t h s k = accept_after-Accepted h.window.received t h refl s k
