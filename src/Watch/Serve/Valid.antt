-- ===== src/Watch/Serve/Valid.antt =====
-- internal/watch/hub.go: what holds of a hub between its operations, and that each keeps it.
use watchd.Base.{
  ℕ, ◌≡◌, ◌≢◌, refl, sym, ap, subst, ◌∙◌, true, false, List, [], ◌∷◌, ◌++◌, Option, none, some,
  if◌then◌else◌, Text, Result, ok, err, mem, arith, Bool-cases, Result-cases, ok-injective,
  is_empty, ◌||◌, ◌≤◌, inl, inr,
}
use watchd.Cdc.Error.{Error}
use watchd.Cdc.Cursor.{Cursor, later}
use watchd.Cdc.Cursor.Least.{later_iff}
use watchd.Cdc.Transaction.{Transaction}
use watchd.Watch.Window.Ascent.{end_lsn}
use watchd.Watch.Window.Replay.{Tracks, Newest, Fresh}
use watchd.Watch.Window.{replayable}
use watchd.Watch.Registry.{Watcher, Queued, Projection, register_locked}
use watchd.Watch.Registry.Index.{Indexed, register_locked-Indexed}
use watchd.Watch.Registry.Endings.{rewritten-Indexed}
use watchd.Watch.Hub.{Hub, has_text, accept}
use watchd.Watch.Hub.Accept.{accept_new-Indexed}
use watchd.Watch.Hub.History.{accept-Tracks}
use watchd.Watch.Serve.{
  Config, empty_hub, assemble, new_hub, new_watcher, receive_from, Resumed, resume_locked,
  backlog_from,
}

-- The history after `Accept` was given `t`.
abbrev pub noted : Option Cursor → Transaction → List Transaction → List Transaction
noted none t hist = hist ++ t ∷ []
noted (some r) t hist = if later t.cursor r then hist ++ t ∷ [] else hist

pub record Valid (sid : Text) (hist : List Transaction) (h : Hub) : Type 0 where
  pub gone : List Transaction
  pub tracks : Tracks sid hist gone h.window
  pub indexed : Indexed h.registry

empty_hub-Valid :
    (sid : Text) (memory : ℕ → Watcher) (source_id : Text) (max_replay queue_size : ℕ)
    (projections : List (Text × Projection))
    → Valid sid [] (empty_hub memory source_id max_replay queue_size projections)
unfolding empty_hub
empty_hub-Valid sid memory source_id max_replay queue_size projections = record {
  gone = [];
  tracks = record {
    split = refl;
    ascending = tt;
    sources = tt;
    newest = refl;
    floored = tt;
    evicted = refl;
  };
  indexed = record {
    columns = λ table. tt;
    listed = λ table column scope w. refl;
    once = λ table column scope. tt;
    running = λ w e. absurd (cc);
  };
}

assemble-Valid :
    (sid : Text) (memory : ℕ → Watcher) (source_id : Text) (max_replay queue_size : Option ℕ)
    (projections : Option (List (Text × Projection))) {h : Hub}
    → assemble memory source_id max_replay queue_size projections ≡ some h
    → Valid sid [] h
assemble-Valid sid memory s (some m) (some q) (some ps) e =
    subst (Valid sid []) (ground arith) (empty_hub-Valid sid memory s m q ps)
assemble-Valid sid memory s none q ps e = absurd (cc)
assemble-Valid sid memory s (some m) none ps e = absurd (cc)
assemble-Valid sid memory s (some m) (some q) none e = absurd (cc)

pub new_hub-Valid :
    (sid : Text) (memory : ℕ → Watcher) (cfg : Config) {h : Hub}
    → new_hub memory cfg ≡ some h
    → Valid sid [] h
unfolding new_hub
new_hub-Valid sid memory cfg e =
    elim (Bool-cases (is_empty cfg.source_id || is_empty cfg.projections)) [
      | inl k ↦ absurd (ground arith)
      | inr k ↦ assemble-Valid sid memory cfg.source_id _ _ _ (rw k at e)
    ]

noted-Fresh :
    (sid : Text) (hist : List Transaction) (r : Option Cursor) (t : Transaction)
    → Newest sid hist r
    → Fresh sid r t
    → noted r t hist ≡ hist ++ t ∷ []
noted-Fresh sid hist none t n f = refl
noted-Fresh sid hist (some r) t n f = rw ((later_iff t.cursor r).1 (f.0 ∙ sym n.0, f.1))

noted_repeated :
    (hist : List Transaction) (r : Cursor) (t : Transaction)
    → end_lsn t ≤ r.lsn
    → noted (some r) t hist ≡ hist
noted_repeated hist r t h = ground (arith, later_iff t.cursor r)

pub accept-Valid :
    {sid : Text} {hist : List Transaction} (t : Transaction) (h : Hub) {h' : Hub}
    → t.cursor.source_id ≡ sid
    → accept t h ≡ ok h'
    → Valid sid hist h
    → Valid sid (noted h.window.received t hist) h'
accept-Valid {sid} {hist} t h s e v = elim (accept-Tracks t h s v.tracks) [
  | inl (took, fresh, (gone', after_it)) ↦
      rw (noted-Fresh sid hist h.window.received t v.tracks.newest fresh) (
        subst (Valid sid (hist ++ t ∷ [])) (ok-injective (sym took ∙ e))
          (record { gone = gone'; tracks = after_it; indexed = accept_new-Indexed t h v.indexed }))
  | inr (left, (r, known, old)) ↦
      rw (known, noted_repeated hist r t old)
        (subst (Valid sid hist) (ok-injective (sym left ∙ e)) v)
]

pub registered-Valid :
    {sid : Text} {hist : List Transaction} (w : ℕ) (h : Hub)
    → mem w h.registry.watchers ≡ false
    → (h.registry.memory w).overflow ≡ none
    → Valid sid hist h
    → Valid sid hist (record h { registry = register_locked w h.registry })
registered-Valid w h new open_ v = record {
  gone = v.gone;
  tracks = v.tracks;
  indexed = register_locked-Indexed w h.registry new open_ v.indexed;
}

err-ok : {A : Type 0} {x : Error} {a : A} → ◌≢◌ {A = Result Error A} (err x) (ok a)
err-ok e = cc

pub resume_locked-Valid :
    {sid : Text} {hist : List Transaction} (w : ℕ) (c : Cursor) (h : Hub) {h' : Hub} (r : Resumed)
    → mem w h.registry.watchers ≡ false
    → (h.registry.memory w).overflow ≡ none
    → resume_locked w c h ≡ ok (h', r)
    → Valid sid hist h
    → Valid sid hist h'
unfolding resume_locked
resume_locked-Valid {sid} {hist} w c h r new open_ e v =
    elim (Bool-cases (has_text (h.registry.memory w).projection.table h.stale)) [
      | inl k ↦
          subst (Valid sid hist) (ap (λ (p : Hub × Resumed). p.0) (ok-injective (rw k at e))) v
      | inr k ↦ elim (Bool-cases (replayable h.window c)) [
        | inr k' ↦
            subst (Valid sid hist)
              (ap (λ (p : Hub × Resumed). p.0) (ok-injective (rw (k, k') at e))) v
        | inl k' ↦ elim (Result-cases (backlog_from (h.registry.memory w) c [] h.window.ring)) [
          | inr (x, f) ↦ absurd (err-ok (rw (k, k', f) at e))
          | inl (b, f) ↦
              subst (Valid sid hist)
                (ap (λ (p : Hub × Resumed). p.0) (ok-injective (rw (k, k', f) at e)))
                (registered-Valid w h new open_ v)
        ]
      ]
    ]

rewritten-Valid :
    {sid : Text} {hist : List Transaction} (h : Hub) (memory : ℕ → Watcher)
    → ((x : ℕ)
        → mem x h.registry.watchers ≡ true
        → ((memory x).projection ≡ (h.registry.memory x).projection)
          × ((memory x).scope ≡ (h.registry.memory x).scope))
    → ((x : ℕ) → mem x h.registry.watchers ≡ true → (memory x).overflow ≡ none)
    → Valid sid hist h
    → Valid sid hist (record h { registry = record (h.registry) { memory = memory } })
rewritten-Valid h memory same open_ v = record {
  gone = v.gone;
  tracks = v.tracks;
  indexed = rewritten-Indexed h.registry memory same open_ v.indexed;
}

pub new_watcher-Valid :
    {sid : Text} {hist : List Transaction} (w : ℕ) (p : Projection) (scope : Text) (h : Hub)
    → mem w h.registry.watchers ≡ false
    → Valid sid hist h
    → Valid sid hist (new_watcher w p scope h)
unfolding new_watcher
new_watcher-Valid w p scope h new v =
    rewritten-Valid h _ (λ x r. ground arith) (λ x r. ground (arith, v.indexed.running x)) v

pub receive_from-Valid :
    {sid : Text} {hist : List Transaction} (queue : List Queued) (w : ℕ) (h : Hub)
    → Valid sid hist h
    → Valid sid hist (receive_from queue w h).0
receive_from-Valid [] w h v = v
receive_from-Valid (item ∷ rest) w h v =
    rewritten-Valid h _ (λ x r. ground arith) (λ x r. ground (arith, v.indexed.running x)) v
