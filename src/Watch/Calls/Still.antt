-- ===== src/Watch/Calls/Still.antt =====
-- A hub of internal/watch/hub.go that is stopped, as a watch meets it.
use watchd.Base.{
  sym, ltb, Option-cases, ℕ, ◌==◌, ◌≡◌, ◌≢◌, ◌⊎◌, refl, true, false, List, [], ◌∷◌, Option, none,
  some, arith, inl, inr, update, ap, ◌∙◌,
}
use watchd.Watch.Event.{ResyncReason}
use watchd.Watch.Registry.{Queued}
use watchd.Watch.Hub.{Hub}
use watchd.Watch.Serve.{ended, receive, receive_from}
use watchd.Watch.Calls.{
  Surroundings, WakeCase, stopped, context_done, overflowed, ticked, blocked, resynced, woken,
}

abbrev pub waiting_items : ℕ → Hub → List Queued
waiting_items w h = (h.registry.memory w).queue

-- A hub is stopped, at this tick, and the watcher is ended for this reason, or not ended.
abbrev pub Still : ℕ → ℕ → Option ResyncReason → Hub → Type 0
Still w tick over h = (h.stopped ≡ true) × (h.tick ≡ tick) × (ended w h ≡ over)

-- A stopped hub stays so; nothing is accepted any more, so that no items come to the watcher, it is not
-- ended, and no tick is closed.
abbrev pub WindsDown : ℕ → Surroundings → Type 0
WindsDown w env =
    (t tick : ℕ) (over : Option ResyncReason) (h : Hub)
    → Still w tick over h
    → Still w tick over (env.others t h) × (waiting_items w (env.others t h) ≡ waiting_items w h)

-- The context lasts, and a select takes a case that is ready: at a stopped hub there is one.
abbrev pub TakesReady : ℕ → Surroundings → Type 0
TakesReady w env =
    (t tick : ℕ) (h : Hub)
    → h.stopped ≡ true
    → (env.wake t ≢ context_done) × (woken w tick (env.wake t) h ≢ blocked)

update_same {ℓ} : {A : Type ℓ} (f : ℕ → A) (w : ℕ) (v : A) → update f w v w ≡ v
update_same f w v = let same : (w == w) ≡ true = ground arith in rw same refl

-- The oldest item is taken.
pub receive_some :
    (w tick : ℕ) (over : Option ResyncReason) (h : Hub) (item : Queued) (rest : List Queued)
    → waiting_items w h ≡ item ∷ rest
    → Still w tick over h
    → (h' : Hub) × (receive w h ≡ (h', some item))
      × Still w tick over h'
      × (waiting_items w h' ≡ rest)
unfolding receive ended
receive_some w tick over h item rest e (s, t, o) =
    let taken = update_same h.registry.memory w (record (h.registry.memory w) { queue = rest }) in
    (
      (receive_from (item ∷ rest) w h).0,
      rw e refl,
      (s, t, ap (λ v. v.overflow) taken ∙ o),
      ap (λ v. v.queue) taken,
    )

pub receive_none : (w : ℕ) (h : Hub) → waiting_items w h ≡ [] → receive w h ≡ (h, none)
unfolding receive
receive_none w h e = rw e refl

-- A case that is ready at a hub that is still: the stop, or the end of the watcher.
abbrev pub Resyncs : Option ResyncReason → ResyncReason → Type 0
Resyncs over reason = (reason ≡ ResyncReason.source_stopped) ⊎ (over ≡ some reason)

pub woken_resync :
    (c : WakeCase) (w tick : ℕ) (over : Option ResyncReason) (h : Hub)
    → Still w tick over h
    → c ≢ context_done
    → woken w tick c h ≢ blocked
    → (reason : ResyncReason) × (woken w tick c h ≡ resynced reason) × Resyncs over reason
unfolding woken
woken_resync context_done w tick over h still lasts ready = absurd (lasts refl)
woken_resync stopped w tick over h (s, t, o) lasts ready =
    (ResyncReason.source_stopped, rw s refl, inl refl)
woken_resync ticked w tick over h (s, t, o) lasts ready =
    let same : ltb tick h.tick ≡ false = ground (arith, t) in absurd (ready (rw same refl))
woken_resync overflowed w tick over h (s, t, o) lasts ready = elim (Option-cases (ended w h)) [
  | inl e ↦ absurd (ready (rw (e, woken) refl))
  | inr (reason, e) ↦ (reason, rw (e, woken) refl, inr (sym o ∙ e))
]
