-- ===== src/Watch/Deliveries/Entries.antt =====
-- The entries that `Accept` of internal/watch/hub.go collects, and the watchers of each.
use watchd.Base.{
  ℕ, ◌≡◌, refl, true, false, not, List, [], ◌∷◌, ◌++◌, Text, text_eq_iff, text_eq_refl, is_empty,
  All, arith, Bool-cases, inl, inr,
}
use watchd.Cdc.Transaction.{Change, key_value}
use watchd.Watch.Registry.{Route, scopes_of}
use watchd.Watch.Registry.Index.{has_column, DistinctColumns}
use watchd.Watch.Deliveries.{DeliveryKey, key_eq, Delivery}
use watchd.Watch.Deliveries.Lookup.{has_key, grow}
use watchd.Watch.Deliveries.Collect.{gather_route, gather_routes, gather, changes_at}

abbrev pub scope_watchers : (Text → List Route) → DeliveryKey → List ℕ
scope_watchers routes key = scopes_of key.column (routes key.table) key.scope

pub record IsEntry (routes : Text → List Route) (d : Delivery) : Type 0 where
  pub named : d.watchers ≡ scope_watchers routes d.key
  pub filled : is_empty d.changes ≡ false

snoc_filled {ℓ} : {A : Type ℓ} (xs : List A) (x : A) → is_empty (xs ++ x ∷ []) ≡ false
snoc_filled [] x = refl
snoc_filled (y ∷ xs) x = refl

module _ (routes : Text → List Route) where
  grow-IsEntry :
      (ds : List Delivery) (key : DeliveryKey) (watchers : List ℕ) (c : Change)
      → watchers ≡ scope_watchers routes key
      → All (IsEntry routes) ds
      → All (IsEntry routes) (grow ds key watchers c)
  grow-IsEntry [] key watchers c e h = (record { named = e; filled = refl }, tt)
  grow-IsEntry (d ∷ ds) key watchers c e h = elim (Bool-cases (key_eq d.key key)) [
    | inl k ↦ rw k (record { named = h.0.named; filled = snoc_filled d.changes c }, h.1)
    | inr k ↦ rw k (h.0, grow-IsEntry ds key watchers c e h.1)
  ]

  gather_route-IsEntry :
      (c : Change) (r : Route) (ds : List Delivery)
      → ((scope : Text) → r.scopes scope ≡ scopes_of r.scope_column (routes c.table) scope)
      → All (IsEntry routes) ds
      → All (IsEntry routes) (gather_route c r ds)
  unfolding gather_route
  gather_route-IsEntry c r ds e h =
      elim (Bool-cases (is_empty (r.scopes (key_value c.key r.scope_column)))) [
        | inl k ↦ rw k h
        | inr k ↦ rw k (
            grow-IsEntry ds _ (r.scopes (key_value c.key r.scope_column)) c
              (e (key_value c.key r.scope_column)) h)
      ]

  -- `rs` is a tail of the routes of the change's table.
  gather_routes-IsEntry :
      (c : Change) (rs : List Route) (ds : List Delivery)
      → DistinctColumns rs
      → ((column scope : Text)
          → has_column column rs ≡ true
          → scopes_of column (routes c.table) scope ≡ scopes_of column rs scope)
      → All (IsEntry routes) ds
      → All (IsEntry routes) (gather_routes c rs ds)
  unfolding gather_routes
  gather_routes-IsEntry c [] ds d tail h = h
  gather_routes-IsEntry c (r ∷ rs) ds d tail h =
      gather_routes-IsEntry c rs (gather_route c r ds) d.1
        (λ column scope k. ground (arith, tail column scope, text_eq_iff r.scope_column column))
        (gather_route-IsEntry c r ds
          (λ scope. ground (arith, tail r.scope_column scope, text_eq_refl r.scope_column)) h)

  pub gather-IsEntry :
      (cs : List Change) (ds : List Delivery)
      → ((table : Text) → DistinctColumns (routes table))
      → All (IsEntry routes) ds
      → All (IsEntry routes) (gather routes cs ds)
  unfolding gather
  gather-IsEntry [] ds d h = h
  gather-IsEntry (c ∷ cs) ds d h =
      gather-IsEntry cs (gather_routes c (routes c.table) ds) d
        (gather_routes-IsEntry c (routes c.table) ds (d c.table) (λ column scope k. refl) h)

  -- A scope has an entry exactly where it has changes.
  pub has_key-changes_at :
      (ds : List Delivery) (key : DeliveryKey)
      → All (IsEntry routes) ds
      → has_key ds key ≡ not (is_empty (changes_at key ds))
  has_key-changes_at [] key h = refl
  has_key-changes_at (d ∷ ds) key h = ground (arith, has_key-changes_at ds key h.1, h.0.filled)
