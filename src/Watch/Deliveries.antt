-- ===== src/Watch/Deliveries.antt =====
-- How `Accept` of internal/watch/hub.go collects the changes of a transaction by scope: the
-- fields `deliveries`, `deliveryKeys` and `deliveryIndex` of `Hub`, empty between transactions.
pub mod Lookup
pub mod Collect
pub mod Entries
use watchd.Base.{
  ℕ, zero, suc, ◌+◌, ◌-◌, Bool, true, false, ◌&&◌, ◌||◌, List, [], ◌∷◌, ◌++◌, Option, none, some,
  if◌then◌else◌, ltb, leb, length, Text, text_eq, ◌==◌, is_empty,
}
use watchd.Cdc.Transaction.{Change, Transaction, key_value}
use watchd.Watch.Registry.{Projection, Route}

-- `deliveryKey`. A route is the one of its table and scope column.
pub record DeliveryKey : Type 0 where
  pub table : Text
  pub column : Text
  pub scope : Text

abbrev pub key_eq : DeliveryKey → DeliveryKey → Bool
key_eq a b = text_eq a.table b.table && (text_eq a.column b.column && text_eq a.scope b.scope)

-- `delivery` beside its key: `deliveries[i]` and `deliveryKeys[i]` are one entry.
pub record Delivery : Type 0 where
  pub key : DeliveryKey
  pub watchers : List ℕ
  pub changes : List Change

-- `index` is the map `deliveryIndex`.
pub record Scratch : Type 0 where
  pub entries : List Delivery
  pub index : DeliveryKey → Option ℕ

abbrev pub empty : Scratch
empty = record { entries = []; index = λ _. none }

-- `indexedDeliveries`.
abbrev pub indexed_deliveries : ℕ
indexed_deliveries = 8

abbrev pub put_index : (DeliveryKey → Option ℕ) → DeliveryKey → ℕ → DeliveryKey → Option ℕ
put_index index key i k = if key_eq key k then some i else index k

-- `for i, key := range h.deliveryKeys { h.deliveryIndex[key] = i }`
unfoldable pub index_all : ℕ → List Delivery → (DeliveryKey → Option ℕ) → DeliveryKey → Option ℕ
index_all i [] index = index
index_all i (d ∷ ds) index = index_all (i + 1) ds (put_index index d.key i)

-- `for i := len(h.deliveryKeys) - 1; i >= 0; i--`: the last entry with the key.
unfoldable pub scan : ℕ → List Delivery → DeliveryKey → Option ℕ
scan i [] key = none
scan i (d ∷ ds) key = elim (scan (i + 1) ds key) [
  | some j ↦ some j
  | none ↦ if key_eq d.key key then some i else none
]

unfoldable pub find : Scratch → DeliveryKey → Option ℕ
unfolding scan
find s key = if leb (length s.entries) indexed_deliveries then scan 0 s.entries key else s.index key

-- The end of `deliveryLocked`: a new entry, and its place.
unfoldable pub add_entry : Scratch → DeliveryKey → List ℕ → Scratch × ℕ
add_entry s key watchers =
    let entries = s.entries ++ record { key = key; watchers = watchers; changes = [] } ∷ [] in
    let n = length entries in
    let index =
      if n == indexed_deliveries + 1
      then index_all 0 entries s.index
      else if ltb (indexed_deliveries + 1) n
      then put_index s.index key (n - 1)
      else s.index in
    (record { entries = entries; index = index }, n - 1)

-- `deliveryLocked`: the scratch space and the place of the key's entry in it.
unfoldable pub delivery_locked : Scratch → DeliveryKey → List ℕ → Scratch × ℕ
delivery_locked s key watchers = elim (find s key) [
  | some i ↦ (s, i)
  | none ↦ add_entry s key watchers
]

-- `d.changes = append(d.changes, change)` through the pointer to the entry at a place.
unfoldable pub append_change : List Delivery → ℕ → Change → List Delivery
append_change [] i change = []
append_change (d ∷ ds) zero change = record d { changes = d.changes ++ change ∷ [] } ∷ ds
append_change (d ∷ ds) (suc i) change = d ∷ append_change ds i change

unfoldable pub deliver : Scratch → DeliveryKey → List ℕ → Change → Scratch
deliver s key watchers change =
    let (s', i) = delivery_locked s key watchers in
    record s' { entries = append_change s'.entries i change }

-- What one route of a change's table gets.
unfoldable pub collect_route : Change → Route → Scratch → Scratch
collect_route change r s =
    let scope = key_value change.key r.scope_column in
    let watchers = r.scopes scope in
    let key : DeliveryKey = record {
      table = change.table;
      column = r.scope_column;
      scope = scope;
    } in
    if is_empty watchers then s else deliver s key watchers change

-- The loop over the routes of a change's table.
unfoldable pub collect_routes : Change → List Route → Scratch → Scratch
collect_routes change [] s = s
collect_routes change (r ∷ rs) s = collect_routes change rs (collect_route change r s)

-- The loop over the changes of a transaction.
unfoldable pub collect : (Text → List Route) → List Change → Scratch → Scratch
collect routes [] s = s
collect routes (change ∷ changes) s =
    collect routes changes (collect_routes change (routes change.table) s)
