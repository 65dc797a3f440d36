-- ===== src/Watch/Hub/Dispatch.antt =====
-- The last loops of `Accept` in internal/watch/hub.go: what they do to one watcher.
use watchd.Base.{
  ℕ, ◌≡◌, refl, sym, ◌∙◌, Bool, true, false, List, [], ◌∷◌, ◌++◌, some, if◌then◌else◌, ltb, length,
  ◌==◌, mem, All, arith, Bool-cases, inl, inr,
}
use watchd.Cdc.Transaction.{Transaction, Change}
use watchd.Watch.Event.{slow_watcher}
use watchd.Watch.Registry.{Registry, Watcher, Queued, offer}
use watchd.Watch.Registry.Index.{Indexed, Once}
use watchd.Watch.Registry.Endings.{
  offer-Indexed, offer_memory, end_locked_memory, end_locked_queue_size, end_locked_watchers,
}
use watchd.Watch.Deliveries.{DeliveryKey, key_eq, Delivery}
use watchd.Watch.Deliveries.Lookup.{key_eq_iff, has_key, DistinctKeys}
use watchd.Watch.Deliveries.Collect.{changes_at}
use watchd.Watch.Hub.{offer_all, dispatch}

-- A watcher that is offered an item takes it, or is dropped where its queue is full.
abbrev pub offered : ℕ → Queued → Watcher → Watcher
offered size item v =
    if ltb (length v.queue) size
    then record v { queue = v.queue ++ item ∷ [] }
    else record v { overflow = some slow_watcher }

offer_queue_size :
    (item : Queued) (w : ℕ) (g : Registry) → (offer item w g).queue_size ≡ g.queue_size
unfolding offer
offer_queue_size item w g = ground (arith, end_locked_queue_size w slow_watcher g)

offer_other :
    (item : Queued) (w : ℕ) (g : Registry) (x : ℕ)
    → (w == x) ≡ false
    → ((offer item w g).memory x ≡ g.memory x)
      × (mem x (offer item w g).watchers ≡ mem x g.watchers)
unfolding offer
offer_other item w g x h =
    ground (arith, end_locked_memory w slow_watcher g x, end_locked_watchers w slow_watcher g x)

offer_all_queue_size :
    (item : Queued) (ws : List ℕ) (g : Registry) → (offer_all item ws g).queue_size ≡ g.queue_size
unfolding offer_all
offer_all_queue_size item [] g = refl
offer_all_queue_size item (w ∷ ws) g =
    offer_all_queue_size item ws (offer item w g) ∙ offer_queue_size item w g

offer_all-Indexed :
    (item : Queued) (ws : List ℕ) (g : Registry) → Indexed g → Indexed (offer_all item ws g)
unfolding offer_all
offer_all-Indexed item [] g i = i
offer_all-Indexed item (w ∷ ws) g i =
    offer_all-Indexed item ws (offer item w g) (offer-Indexed item w g i)

offer_all_other :
    (item : Queued) (ws : List ℕ) (g : Registry) (x : ℕ)
    → mem x ws ≡ false
    → ((offer_all item ws g).memory x ≡ g.memory x)
      × (mem x (offer_all item ws g).watchers ≡ mem x g.watchers)
unfolding offer_all
offer_all_other item [] g x h = (refl, refl)
offer_all_other item (w ∷ ws) g x h =
    ground (arith, offer_all_other item ws (offer item w g) x, offer_other item w g x)

offer_all_self :
    (item : Queued) (ws : List ℕ) (g : Registry) (x : ℕ)
    → Once ws
    → mem x ws ≡ true
    → mem x g.watchers ≡ true
    → (offer_all item ws g).memory x ≡ offered g.queue_size item (g.memory x)
unfolding offer_all
offer_all_self item [] g x o h r = cc
offer_all_self item (w ∷ ws) g x o h r = ground (
  arith,
  offer_all_self item ws (offer item w g) x o.1,
  offer_all_other item ws (offer item w g) x,
  offer_other item w g x,
  offer_memory item w g x,
  offer_queue_size item w g,
)

pub dispatch-Indexed :
    (t : Transaction) (ds : List Delivery) (g : Registry) → Indexed g → Indexed (dispatch t ds g)
unfolding dispatch
dispatch-Indexed t [] g i = i
dispatch-Indexed t (d ∷ ds) g i = dispatch-Indexed t ds _ (offer_all-Indexed _ d.watchers g i)

-- The scope that a watcher watches.
abbrev pub own_key : Watcher → DeliveryKey
own_key v = record {
  table = v.projection.table;
  column = v.projection.spec.scope_column;
  scope = v.scope;
}

-- Among the deliveries, the watcher is named by that of its own scope, once.
pub record IsNamed (x : ℕ) (v : Watcher) (d : Delivery) : Type 0 where
  pub by_key : mem x d.watchers ≡ key_eq (own_key v) d.key
  pub once : Once d.watchers

-- The part of a transaction that goes to a scope's watchers.
abbrev pub part : Transaction → List Change → Bool → Queued
part t changes memo = record { transaction = t; changes = changes; memo = memo }

abbrev pub memo_at : DeliveryKey → List Delivery → Bool
memo_at key [] = false
memo_at key (d ∷ ds) = if key_eq d.key key then ltb 1 (length d.watchers) else memo_at key ds

pub dispatch_untouched :
    (t : Transaction) (ds : List Delivery) (g : Registry) (x : ℕ)
    → All (λ d. mem x d.watchers ≡ false) ds
    → (dispatch t ds g).memory x ≡ g.memory x
unfolding dispatch
dispatch_untouched t [] g x n = refl
dispatch_untouched t (d ∷ ds) g x n =
    let item = part t d.changes (ltb 1 (length d.watchers)) in
    dispatch_untouched t ds (offer_all item d.watchers g) x n.1
    ∙ (offer_all_other item d.watchers g x n.0).0

dispatch_other :
    (t : Transaction) (ds : List Delivery) (g : Registry) (x : ℕ) (v : Watcher)
    → All (IsNamed x v) ds
    → has_key ds (own_key v) ≡ false
    → (dispatch t ds g).memory x ≡ g.memory x
unfolding dispatch
dispatch_other t [] g x v n h = refl
dispatch_other t (d ∷ ds) g x v n h =
    let item = part t d.changes (ltb 1 (length d.watchers)) in
    ground (
      arith,
      dispatch_other t ds (offer_all item d.watchers g) x v n.1,
      offer_all_other item d.watchers g x,
      n.0.by_key,
      key_eq_iff (own_key v) d.key,
      key_eq_iff d.key (own_key v),
    )

pub dispatch_memory :
    (t : Transaction) (ds : List Delivery) (g : Registry) (x : ℕ) (v : Watcher) (size : ℕ)
    → g.queue_size ≡ size
    → g.memory x ≡ v
    → mem x g.watchers ≡ true
    → All (IsNamed x v) ds
    → DistinctKeys ds
    → (dispatch t ds g).memory x ≡ (
        if has_key ds (own_key v)
        then offered size (part t (changes_at (own_key v) ds) (memo_at (own_key v) ds)) v
        else v)
unfolding dispatch
dispatch_memory t [] g x v size z e r n d = e
dispatch_memory t (d ∷ ds) g x v size z e r n k =
    let item = part t d.changes (ltb 1 (length d.watchers)) in
    let named : mem x d.watchers ≡ key_eq (own_key v) d.key = n.0.by_key in
    elim (Bool-cases (key_eq d.key (own_key v))) [
      | inl same ↦
          let equal : d.key ≡ own_key v = (key_eq_iff d.key (own_key v)).0 same in
          rw same (
            dispatch_other t ds (offer_all item d.watchers g) x v n.1 (rw (← equal) k.0)
            ∙ offer_all_self item d.watchers g x n.0.once
                (named ∙ (key_eq_iff (own_key v) d.key).1 (sym equal)) r
            ∙ (rw (z, e) refl))
      | inr other ↦
          let unnamed : mem x d.watchers ≡ false =
            ground (arith, key_eq_iff d.key (own_key v), key_eq_iff (own_key v) d.key) in
          let kept = offer_all_other item d.watchers g x unnamed in
          rw other (
            dispatch_memory t ds (offer_all item d.watchers g) x v size
              (offer_all_queue_size item d.watchers g ∙ z) (kept.0 ∙ e) (kept.1 ∙ r) n.1 k.1)
    ]
