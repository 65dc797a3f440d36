-- ===== src/Watch/Deliveries/Collect.antt =====
-- The loops of `Accept` in internal/watch/hub.go that sort the changes of a transaction by scope.
use mathlib.Core.List.{append_assoc, append-nil}
use watchd.Base.{
  ℕ, ◌≡◌, refl, ap, ◌∙◌, Bool, false, not, ◌&&◌, List, [], ◌∷◌, ◌++◌, if◌then◌else◌, Text, text_eq,
  text_eq_iff, filter, is_empty, arith, Bool-cases, inl, inr,
}
use watchd.Cdc.Transaction.{Change, key_value}
use watchd.Watch.Registry.{Route, scopes_of}
use watchd.Watch.Registry.Index.{has_column, DistinctColumns}
use watchd.Watch.Deliveries.{
  DeliveryKey, key_eq, Delivery, Scratch, empty, collect_route, collect_routes, collect,
}
use watchd.Watch.Deliveries.Lookup.{
  key_eq_iff, DistinctKeys, grow, InStep, empty-InStep, deliver-grow,
}

-- The loops over a plain list of entries.
unfoldable pub gather_route : Change → Route → List Delivery → List Delivery
gather_route change r ds =
    let scope = key_value change.key r.scope_column in
    let key : DeliveryKey = record {
      table = change.table;
      column = r.scope_column;
      scope = scope;
    } in
    if is_empty (r.scopes scope) then ds else grow ds key (r.scopes scope) change

unfoldable pub gather_routes : Change → List Route → List Delivery → List Delivery
gather_routes change [] ds = ds
gather_routes change (r ∷ rs) ds = gather_routes change rs (gather_route change r ds)

unfoldable pub gather : (Text → List Route) → List Change → List Delivery → List Delivery
gather routes [] ds = ds
gather routes (change ∷ changes) ds =
    gather routes changes (gather_routes change (routes change.table) ds)

collect_route-gather :
    (change : Change) (r : Route) (s : Scratch)
    → InStep s
    → ((collect_route change r s).entries ≡ gather_route change r s.entries)
      × InStep (collect_route change r s)
unfolding collect_route gather_route
collect_route-gather change r s h =
    elim (Bool-cases (is_empty (r.scopes (key_value change.key r.scope_column)))) [
      | inl e ↦ rw e (refl, h)
      | inr e ↦ rw e (deliver-grow s _ (r.scopes (key_value change.key r.scope_column)) change h)
    ]

collect_routes-gather :
    (change : Change) (rs : List Route) (s : Scratch)
    → InStep s
    → ((collect_routes change rs s).entries ≡ gather_routes change rs s.entries)
      × InStep (collect_routes change rs s)
unfolding collect_routes gather_routes
collect_routes-gather change [] s h = (refl, h)
collect_routes-gather change (r ∷ rs) s h =
    let step = collect_route-gather change r s h in
    let rest = collect_routes-gather change rs (collect_route change r s) step.1 in
    (rest.0 ∙ ap (gather_routes change rs) step.0, rest.1)

collect-gather_from :
    (routes : Text → List Route) (changes : List Change) (s : Scratch)
    → InStep s
    → ((collect routes changes s).entries ≡ gather routes changes s.entries)
      × InStep (collect routes changes s)
unfolding collect gather
collect-gather_from routes [] s h = (refl, h)
collect-gather_from routes (c ∷ cs) s h =
    let first = collect_routes-gather c (routes c.table) s h in
    let rest = collect-gather_from routes cs (collect_routes c (routes c.table) s) first.1 in
    (rest.0 ∙ ap (gather routes cs) first.0, rest.1)

pub collect-gather :
    (routes : Text → List Route) (changes : List Change)
    → ((collect routes changes empty).entries ≡ gather routes changes [])
      × DistinctKeys (collect routes changes empty).entries
collect-gather routes changes =
    let all = collect-gather_from routes changes empty empty-InStep in (all.0, all.1.distinct)

abbrev pub changes_at : DeliveryKey → List Delivery → List Change
changes_at key [] = []
changes_at key (d ∷ ds) = if key_eq d.key key then d.changes else changes_at key ds

changes_at-grow :
    (ds : List Delivery) (k : DeliveryKey) (watchers : List ℕ) (c : Change) (key : DeliveryKey)
    → changes_at key (grow ds k watchers c)
      ≡ (if key_eq k key then changes_at key ds ++ c ∷ [] else changes_at key ds)
changes_at-grow [] k watchers c key = ground arith
changes_at-grow (d ∷ ds) k watchers c key = ground (
  arith,
  changes_at-grow ds k watchers c key,
  key_eq_iff d.key k,
  key_eq_iff d.key key,
  key_eq_iff k key,
)

-- The change is one of the scope's.
abbrev pub concerns : DeliveryKey → Change → Bool
concerns key c = text_eq c.table key.table && text_eq (key_value c.key key.column) key.scope

scopes_of_absent :
    (column : Text) (rs : List Route) (scope : Text)
    → has_column column rs ≡ false
    → scopes_of column rs scope ≡ []
scopes_of_absent column [] scope h = refl
scopes_of_absent column (r ∷ rs) scope h = ground (arith, scopes_of_absent column rs scope)

changes_at-gather_route :
    (c : Change) (r : Route) (ds : List Delivery) (key : DeliveryKey)
    → changes_at key (gather_route c r ds) ≡ (
        if text_eq r.scope_column key.column
          && (concerns key c && not (is_empty (r.scopes key.scope)))
        then changes_at key ds ++ c ∷ []
        else changes_at key ds)
unfolding gather_route
changes_at-gather_route c r ds key =
    let k : DeliveryKey = record {
      table = c.table;
      column = r.scope_column;
      scope = key_value c.key r.scope_column;
    } in
    ground (
      arith,
      changes_at-grow ds k (r.scopes k.scope) c key,
      text_eq_iff c.table key.table,
      text_eq_iff r.scope_column key.column,
      text_eq_iff (key_value c.key r.scope_column) key.scope,
      text_eq_iff (key_value c.key key.column) key.scope,
    )

changes_at-gather_routes :
    (c : Change) (rs : List Route) (ds : List Delivery) (key : DeliveryKey)
    → DistinctColumns rs
    → changes_at key (gather_routes c rs ds) ≡ (
        if concerns key c && not (is_empty (scopes_of key.column rs key.scope))
        then changes_at key ds ++ c ∷ []
        else changes_at key ds)
unfolding gather_routes
changes_at-gather_routes c [] ds key d = ground arith
changes_at-gather_routes c (r ∷ rs) ds key d = ground (
  arith,
  changes_at-gather_routes c rs (gather_route c r ds) key d.1,
  changes_at-gather_route c r ds key,
  scopes_of_absent r.scope_column rs key.scope d.0,
  text_eq_iff r.scope_column key.column,
)

-- The changes that a scope gets: those that concern it, if it has watchers.
pub changes_at-gather :
    (routes : Text → List Route) (cs : List Change) (ds : List Delivery) (key : DeliveryKey)
    → ((table : Text) → DistinctColumns (routes table))
    → changes_at key (gather routes cs ds)
      ≡ changes_at key ds
        ++ (if is_empty (scopes_of key.column (routes key.table) key.scope)
            then []
            else filter (concerns key) cs)
unfolding gather
changes_at-gather routes [] ds key d = ground (arith, append-nil (changes_at key ds))
changes_at-gather routes (c ∷ cs) ds key d =
    changes_at-gather routes cs (gather_routes c (routes c.table) ds) key d
    ∙ ground (
      arith,
      changes_at-gather_routes c (routes c.table) ds key (d c.table),
      text_eq_iff c.table key.table,
      append_assoc (changes_at key ds) (c ∷ []) (filter (concerns key) cs),
    )

-- The deliveries of a transaction: every scope of a table and scope column that has watchers gets
-- exactly the changes of that table whose key has the scope's value in that column, in their
-- order, and no scope has two deliveries, where a table has one route for each scope column.
pub collect_changes :
    (routes : Text → List Route) (cs : List Change) (key : DeliveryKey)
    → ((table : Text) → DistinctColumns (routes table))
    → (changes_at key (collect routes cs empty).entries ≡ (
        if is_empty (scopes_of key.column (routes key.table) key.scope)
        then []
        else filter (concerns key) cs))
      × DistinctKeys (collect routes cs empty).entries
collect_changes routes cs key d =
    let same = collect-gather routes cs in
    (ap (changes_at key) same.0 ∙ changes_at-gather routes cs [] key d, same.1)
