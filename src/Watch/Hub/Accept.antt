-- ===== src/Watch/Hub/Accept.antt =====
-- `Accept` of internal/watch/hub.go: what a new transaction does to each watcher.
use watchd.Base.{
  ℕ, ◌≡◌, refl, ap, ◌∙◌, Bool, true, false, not, ◌&&◌, ◌||◌, List, [], ◌∷◌, some, if◌then◌else◌,
  Text, text_eq, text_eq_iff, text_eq_refl, mem, is_empty, filter, All, All-map, arith, Bool-cases,
  inl, inr,
}
use watchd.Cdc.Cursor.{Cursor}
use watchd.Cdc.Transaction.{Transaction, Incompatible}
use watchd.Watch.Event.{schema_changed}
use watchd.Watch.Registry.{Registry, Watcher, end_locked, end_table}
use watchd.Watch.Registry.Index.{Indexed}
use watchd.Watch.Registry.Endings.{
  end_table-Indexed, end_table_watchers, end_table_memory, end_locked_queue_size,
}
use watchd.Watch.Deliveries.{DeliveryKey, key_eq, Delivery, empty, collect}
use watchd.Watch.Deliveries.Lookup.{has_key, DistinctKeys}
use watchd.Watch.Deliveries.Collect.{collect-gather, changes_at, changes_at-gather, concerns}
use watchd.Watch.Deliveries.Entries.{IsEntry, scope_watchers, gather-IsEntry, has_key-changes_at}
use watchd.Watch.Window.{push}
use watchd.Watch.Hub.{
  Hub, invalidate_locked, invalidate_all, dispatch, take_tick, accept_new, projection_changes,
}
use watchd.Watch.Hub.Dispatch.{
  offered, own_key, part, memo_at, IsNamed, dispatch-Indexed, dispatch_untouched, dispatch_memory,
}

-- One of the tables that a transaction reports as changed in shape.
abbrev pub names : Text → List Incompatible → Bool
names table [] = false
names table (i ∷ is) = text_eq table i.table || names table is

end_table_queue_size :
    (table : Text) (ws : List ℕ) (g : Registry) → (end_table table ws g).queue_size ≡ g.queue_size
unfolding end_table
end_table_queue_size table [] g = refl
end_table_queue_size table (w ∷ ws) g = ground (
  arith,
  end_table_queue_size table ws g,
  end_table_queue_size table ws (end_locked w schema_changed g),
  end_locked_queue_size w schema_changed g,
)

-- What the invalidation loop leaves of a registry.
pub record Invalidated (is : List Incompatible) (g g' : Registry) : Type 0 where
  pub queue_size : g'.queue_size ≡ g.queue_size
  pub indexed : Indexed g → Indexed g'
  pub watchers :
      (x : ℕ)
      → mem x g'.watchers ≡ (mem x g.watchers && not (names (g.memory x).projection.table is))
  pub memory :
      (x : ℕ)
      → g'.memory x ≡ (
          if mem x g.watchers && names (g.memory x).projection.table is
          then record (g.memory x) { overflow = some schema_changed }
          else g.memory x)

pub invalidate_all-Invalidated :
    (is : List Incompatible) (c : Cursor) (h : Hub)
    → Invalidated is h.registry (invalidate_all is c h).registry
unfolding invalidate_all invalidate_locked
invalidate_all-Invalidated [] c h = record {
  queue_size = refl;
  indexed = λ i. i;
  watchers = λ x. ground arith;
  memory = λ x. ground arith;
}
invalidate_all-Invalidated (i ∷ is) c h =
    let g = h.registry in
    let rest = invalidate_all-Invalidated is c (invalidate_locked i.table c h) in
    record {
      queue_size = rest.queue_size ∙ end_table_queue_size i.table g.watchers g;
      indexed = λ k. rest.indexed (end_table-Indexed i.table g.watchers g k);
      watchers = λ x. ground (
        arith,
        rest.watchers x,
        end_table_watchers i.table g.watchers g x,
        end_table_memory i.table g.watchers g x,
        text_eq_iff (g.memory x).projection.table i.table,
      );
      memory = λ x. ground (
        arith,
        rest.memory x,
        end_table_watchers i.table g.watchers g x,
        end_table_memory i.table g.watchers g x,
        text_eq_iff (g.memory x).projection.table i.table,
      );
    }

-- The transaction's deliveries name a watcher that is still registered by its own key, and no
-- other.
entries-IsNamed :
    (g : Registry) (x : ℕ) (v : Watcher) (ds : List Delivery)
    → Indexed g
    → ((key : DeliveryKey) → mem x (scope_watchers g.routes key) ≡ key_eq (own_key v) key)
    → All (IsEntry g.routes) ds
    → All (IsNamed x v) ds
entries-IsNamed g x v ds i named =
    All-map (IsEntry g.routes) (IsNamed x v)
      (λ d e. record {
        by_key = rw e.named (named d.key);
        once = rw e.named (i.once d.key.table d.key.column d.key.scope);
      })
      ds

not_empty : (x : ℕ) (ws : List ℕ) → mem x ws ≡ true → is_empty ws ≡ false
not_empty x [] h = cc
not_empty x (w ∷ ws) h = refl

own_key_refl : (v : Watcher) → key_eq (own_key v) (own_key v) ≡ true
own_key_refl v = ground (
  arith,
  text_eq_refl v.projection.table,
  text_eq_refl v.projection.spec.scope_column,
  text_eq_refl v.scope,
)

-- The deliveries of a transaction, with what is known of them.
record Collected (g : Registry) (t : Transaction) (ds : List Delivery) : Type 0 where
  distinct : DistinctKeys ds
  entries : All (IsEntry g.routes) ds
  changes :
      (key : DeliveryKey)
      → changes_at key ds
        ≡ (if is_empty (scope_watchers g.routes key) then [] else filter (concerns key) t.changes)

collect-Collected :
    (g : Registry) (t : Transaction)
    → Indexed g
    → Collected g t (collect g.routes t.changes empty).entries
collect-Collected g t i =
    let same = collect-gather g.routes t.changes in
    record {
      distinct = same.1;
      entries = rw same.0 (gather-IsEntry g.routes t.changes [] i.columns tt);
      changes = λ key. rw same.0 (changes_at-gather g.routes t.changes [] key i.columns);
    }

-- A registered watcher is offered its part of the transaction, if there is one.
dispatch_registered :
    (g : Registry) (t : Transaction) (x : ℕ) (v : Watcher)
    → Indexed g
    → mem x g.watchers ≡ true
    → g.memory x ≡ v
    → (memo : Bool) × ((dispatch t (collect g.routes t.changes empty).entries g).memory x ≡ (
        if is_empty (projection_changes v.projection v.scope t)
        then v
        else offered g.queue_size (part t (projection_changes v.projection v.scope t) memo) v))
dispatch_registered g t x v i r e =
    let ds = (collect g.routes t.changes empty).entries in
    let c = collect-Collected g t i in
    let named : (key : DeliveryKey) → mem x (scope_watchers g.routes key) ≡ key_eq (own_key v) key =
      λ key. i.listed key.table key.column key.scope x ∙ rw (r, e) refl in
    let some_watch : is_empty (scope_watchers g.routes (own_key v)) ≡ false =
      not_empty x (scope_watchers g.routes (own_key v)) (named (own_key v) ∙ own_key_refl v) in
    let mine : changes_at (own_key v) ds ≡ projection_changes v.projection v.scope t =
      c.changes (own_key v) ∙ rw some_watch refl in
    let here : has_key ds (own_key v) ≡ not (is_empty (projection_changes v.projection v.scope t)) =
      has_key-changes_at g.routes ds (own_key v) c.entries ∙ ap (λ cs. not (is_empty cs)) mine in
    (
      memo_at (own_key v) ds,
      ground (
        arith,
        here,
        mine,
        dispatch_memory t ds g x v g.queue_size refl e r
            (entries-IsNamed g x v ds i named c.entries) c.distinct,
      ),
    )

-- A watcher that is no longer registered is offered nothing.
dispatch_unregistered :
    (g : Registry) (t : Transaction) (x : ℕ)
    → Indexed g
    → mem x g.watchers ≡ false
    → (dispatch t (collect g.routes t.changes empty).entries g).memory x ≡ g.memory x
dispatch_unregistered g t x i r =
    dispatch_untouched t (collect g.routes t.changes empty).entries g x
      (unnamed _ (collect-Collected g t i).entries)
  where
    unnamed :
        (ds : List Delivery) → All (IsEntry g.routes) ds → All (λ d. mem x d.watchers ≡ false) ds
    unnamed ds =
        All-map (IsEntry g.routes) (λ d. mem x d.watchers ≡ false)
          (λ d e. rw e.named (i.listed d.key.table d.key.column d.key.scope x ∙ rw r refl)) ds

-- What a new transaction makes of a watcher.
abbrev pub outcome : Transaction → ℕ → Bool → Watcher → Watcher
outcome t size memo v =
    if names v.projection.table t.incompatible
    then record v { overflow = some schema_changed }
    else if is_empty (projection_changes v.projection v.scope t)
    then v
    else offered size (part t (projection_changes v.projection v.scope t) memo) v

-- Of every registered watcher: it is ended where the transaction changes its table's shape, it is
-- left alone where the transaction has no change for its projection and scope, and otherwise the
-- transaction with exactly those changes is queued for it once, or it is ended for a full queue.
pub accept_new-outcome :
    (t : Transaction) (h : Hub) (x : ℕ)
    → Indexed h.registry
    → mem x h.registry.watchers ≡ true
    → (memo : Bool) × ((accept_new t h).registry.memory x
        ≡ outcome t h.registry.queue_size memo (h.registry.memory x))
unfolding accept_new
accept_new-outcome t h x i r =
    let v = h.registry.memory x in
    let pushed = record (take_tick h) { window = push t h.window } in
    let k = invalidate_all-Invalidated t.incompatible t.cursor pushed in
    let g = (invalidate_all t.incompatible t.cursor pushed).registry in
    elim (Bool-cases (names v.projection.table t.incompatible)) [
      | inl e ↦
          let gone : mem x g.watchers ≡ false = ground (arith, k.watchers x) in
          (
            false,
            rw e (dispatch_unregistered g t x (k.indexed i) gone ∙ ground (arith, k.memory x)),
          )
      | inr e ↦
          let still : mem x g.watchers ≡ true = ground (arith, k.watchers x) in
          let same : g.memory x ≡ v = ground (arith, k.memory x) in
          let (memo, got) = dispatch_registered g t x v (k.indexed i) still same in
          (memo, rw e (got ∙ rw k.queue_size refl))
    ]

-- The routes stay an index of the registered watchers.
pub accept_new-Indexed :
    (t : Transaction) (h : Hub) → Indexed h.registry → Indexed (accept_new t h).registry
unfolding accept_new
accept_new-Indexed t h i =
    let pushed = record (take_tick h) { window = push t h.window } in
    dispatch-Indexed t _ _ ((invalidate_all-Invalidated t.incompatible t.cursor pushed).indexed i)
