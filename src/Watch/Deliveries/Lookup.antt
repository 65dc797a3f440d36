-- ===== src/Watch/Deliveries/Lookup.antt =====
-- `deliveryLocked` of internal/watch/hub.go: the scan and the hash index.
use watchd.Base.{
  ℕ, zero, suc, ◌+◌, ◌≡◌, ◌↔◌, ◌≤◌, refl, sym, ap, ◌∙◌, Bool, true, false, List, [], ◌∷◌, ◌++◌,
  Option, none, some, if◌then◌else◌, leb, length, length-append, text_eq_iff, arith, Bool-cases,
  Option-cases, inl, inr,
}
use watchd.Cdc.Transaction.{Change}
use watchd.Watch.Deliveries.{
  DeliveryKey, key_eq, Delivery, Scratch, empty, put_index, index_all, scan, find, add_entry,
  delivery_locked, append_change, deliver,
}

pub key_eq_iff : (a b : DeliveryKey) → (key_eq a b ≡ true) ↔ (a ≡ b)
key_eq_iff a b =
    ground (
      arith,
      text_eq_iff a.table b.table,
      text_eq_iff a.column b.column,
      text_eq_iff a.scope b.scope,
    )

-- The first place of a key.
abbrev pub place : ℕ → List Delivery → DeliveryKey → Option ℕ
place i [] key = none
place i (d ∷ ds) key = if key_eq d.key key then some i else place (i + 1) ds key

abbrev pub has_key : List Delivery → DeliveryKey → Bool
has_key [] key = false
has_key (d ∷ ds) key = if key_eq d.key key then true else has_key ds key

abbrev pub DistinctKeys : List Delivery → Type 0
DistinctKeys [] = Unit
DistinctKeys (d ∷ ds) = (has_key ds d.key ≡ false) × DistinctKeys ds

-- What delivering does, with no index: the key's entry grows, or a new one is appended.
abbrev pub grow : List Delivery → DeliveryKey → List ℕ → Change → List Delivery
grow [] key watchers change = record { key = key; watchers = watchers; changes = change ∷ [] } ∷ []
grow (d ∷ ds) key watchers change =
    if key_eq d.key key
    then record d { changes = d.changes ++ change ∷ [] } ∷ ds
    else d ∷ grow ds key watchers change

place-none_iff :
    (i : ℕ) (ds : List Delivery) (key : DeliveryKey)
    → (place i ds key ≡ none) ↔ (has_key ds key ≡ false)
place-none_iff i [] key = ground arith
place-none_iff i (d ∷ ds) key = ground (arith, place-none_iff (i + 1) ds key)

scan-place :
    (i : ℕ) (ds : List Delivery) (key : DeliveryKey)
    → DistinctKeys ds
    → scan i ds key ≡ place i ds key
unfolding scan
scan-place i [] key d = refl
scan-place i (x ∷ ds) key d =
    ground
      (arith, scan-place (i + 1) ds key d.1, place-none_iff (i + 1) ds key, key_eq_iff x.key key)

index_all-place :
    (i : ℕ) (ds : List Delivery) (index : DeliveryKey → Option ℕ) (key : DeliveryKey)
    → DistinctKeys ds
    → index_all i ds index key ≡ (if has_key ds key then place i ds key else index key)
unfolding index_all
index_all-place i [] index key d = refl
index_all-place i (x ∷ ds) index key d =
    ground
      (arith, index_all-place (i + 1) ds (put_index index x.key i) key d.1, key_eq_iff x.key key)

-- The map is in step with the entries once they are many.
pub record InStep (s : Scratch) : Type 0 where
  pub distinct : DistinctKeys s.entries
  pub index :
      (key : DeliveryKey)
      → s.index key ≡ (if leb (length s.entries) 8 then none else place 0 s.entries key)

pub empty-InStep : InStep empty
empty-InStep = record { distinct = tt; index = λ key. refl }

pub find-place : (s : Scratch) (key : DeliveryKey) → InStep s → find s key ≡ place 0 s.entries key
unfolding find
find-place s key h = ground (arith, scan-place 0 s.entries key h.distinct, h.index key)

append_change_keys :
    (ds : List Delivery) (j i : ℕ) (change : Change) (key : DeliveryKey)
    → (place i (append_change ds j change) key ≡ place i ds key)
      × (has_key (append_change ds j change) key ≡ has_key ds key)
unfolding append_change
append_change_keys [] j i change key = (refl, refl)
append_change_keys (d ∷ ds) zero i change key = (refl, refl)
append_change_keys (d ∷ ds) (suc j) i change key =
    ground (arith, append_change_keys ds j (i + 1) change key)

length-append_change :
    (ds : List Delivery) (j : ℕ) (change : Change) → length (append_change ds j change) ≡ length ds
unfolding append_change
length-append_change [] j change = refl
length-append_change (d ∷ ds) zero change = refl
length-append_change (d ∷ ds) (suc j) change = ap suc (length-append_change ds j change)

append_change-DistinctKeys :
    (ds : List Delivery) (j : ℕ) (change : Change)
    → DistinctKeys ds
    → DistinctKeys (append_change ds j change)
unfolding append_change
append_change-DistinctKeys [] j change h = tt
append_change-DistinctKeys (d ∷ ds) zero change h = h
append_change-DistinctKeys (d ∷ ds) (suc j) change h =
    ((append_change_keys ds j 0 change d.key).1 ∙ h.0, append_change-DistinctKeys ds j change h.1)

place-ge : (ds : List Delivery) (i j : ℕ) (key : DeliveryKey) → place i ds key ≡ some j → i ≤ j
place-ge [] i j key h = cc
place-ge (d ∷ ds) i j key h = ground (arith, place-ge ds (i + 1) j key)

append_change-grow :
    (ds : List Delivery) (i j : ℕ) (key : DeliveryKey) (watchers : List ℕ) (change : Change)
    → place i ds key ≡ some (i + j)
    → append_change ds j change ≡ grow ds key watchers change
unfolding append_change
append_change-grow [] i j key watchers change h = cc
append_change-grow (d ∷ ds) i zero key watchers change h = elim (Bool-cases (key_eq d.key key)) [
  | inl e ↦ rw e
  | inr e ↦ absurd (ground (arith, place-ge ds (i + 1) (i + 0) key))
]
append_change-grow (d ∷ ds) i (suc j) key watchers change h = elim (Bool-cases (key_eq d.key key)) [
  | inl e ↦ absurd (ground arith)
  | inr e ↦ rw e (ap (◌∷◌ d) (append_change-grow ds (i + 1) j key watchers change (ground arith)))
]

append_change-snoc :
    (ds : List Delivery) (key : DeliveryKey) (watchers : List ℕ) (change : Change)
    → has_key ds key ≡ false
    → append_change
        (ds ++ record { key = key; watchers = watchers; changes = [] } ∷ [])
        (length ds)
        change
      ≡ grow ds key watchers change
unfolding append_change
append_change-snoc [] key watchers change h = refl
append_change-snoc (d ∷ ds) key watchers change h =
    ground (arith, append_change-snoc ds key watchers change)

place-snoc :
    (ds : List Delivery) (d : Delivery) (i : ℕ) (key : DeliveryKey)
    → place i (ds ++ d ∷ []) key ≡ (
        if has_key ds key
        then place i ds key
        else (if key_eq d.key key then some (i + length ds) else none))
place-snoc [] d i key = ground arith
place-snoc (x ∷ ds) d i key = ground (arith, place-snoc ds d (i + 1) key)

has_key-snoc :
    (ds : List Delivery) (d : Delivery) (key : DeliveryKey)
    → has_key (ds ++ d ∷ []) key ≡ (if has_key ds key then true else key_eq d.key key)
has_key-snoc [] d key = ground arith
has_key-snoc (x ∷ ds) d key = ground (arith, has_key-snoc ds d key)

DistinctKeys-snoc :
    (ds : List Delivery) (d : Delivery)
    → has_key ds d.key ≡ false
    → DistinctKeys ds
    → DistinctKeys (ds ++ d ∷ [])
DistinctKeys-snoc [] d h k = (refl, tt)
DistinctKeys-snoc (x ∷ ds) d h k = ground (
  arith,
  has_key-snoc ds d x.key,
  DistinctKeys-snoc ds d,
  key_eq_iff x.key d.key,
  key_eq_iff d.key x.key,
)

-- A new entry keeps the map in step: it is filled when the scan gives way to it, and extended
-- from then on.
add_entry-InStep :
    (s : Scratch) (key : DeliveryKey) (watchers : List ℕ)
    → InStep s
    → has_key s.entries key ≡ false
    → InStep (add_entry s key watchers).0
unfolding add_entry
add_entry-InStep s key watchers h new = record {
  distinct = distinct;
  index = λ k. ground (
    arith,
    h.index k,
    length-append s.entries (d ∷ []),
    place-snoc s.entries d 0 k,
    has_key-snoc s.entries d k,
    place-none_iff 0 s.entries k,
    index_all-place 0 (s.entries ++ d ∷ []) s.index k distinct,
    key_eq_iff key k,
  );
}
  where
    d : Delivery
    d = record { key = key; watchers = watchers; changes = [] }

    distinct : DistinctKeys (s.entries ++ d ∷ [])
    distinct = DistinctKeys-snoc s.entries d new h.distinct

touched-InStep :
    (s : Scratch) (j : ℕ) (change : Change)
    → InStep s
    → InStep (record s { entries = append_change s.entries j change })
touched-InStep s j change h = record {
  distinct = append_change-DistinctKeys s.entries j change h.distinct;
  index = λ k.
      rw (length-append_change s.entries j change, (append_change_keys s.entries j 0 change k).0)
        (h.index k);
}

-- Looking up a scope's delivery and appending a change to it does to the deliveries what growing
-- the plain list of them does: the entry of the key gets the change at its end, or a new entry is
-- appended. This holds however many scopes the transaction has touched, where the keys of the
-- deliveries differ and the hash index, once in use, has the place of each; both stay so.
pub deliver-grow :
    (s : Scratch) (key : DeliveryKey) (watchers : List ℕ) (change : Change)
    → InStep s
    → ((deliver s key watchers change).entries ≡ grow s.entries key watchers change)
      × InStep (deliver s key watchers change)
unfolding deliver delivery_locked add_entry
deliver-grow s key watchers change h = elim (Option-cases (find s key)) [
  | inr (j, e) ↦
      rw (e, delivery_locked)
        (
          append_change-grow s.entries 0 j key watchers change (ground (arith, find-place s key h)),
          touched-InStep s j change h,
        )
  | inl e ↦
      let new = (place-none_iff 0 s.entries key).0 (sym (find-place s key h) ∙ e) in
      rw (e, delivery_locked)
        (
          ground (
            arith,
            length-append s.entries (record { key = key; watchers = watchers; changes = [] } ∷ []),
            append_change-snoc s.entries key watchers change new,
          ),
          touched-InStep (add_entry s key watchers).0 _ change
              (add_entry-InStep s key watchers h new),
        )
]
