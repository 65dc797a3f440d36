-- ===== src/Watch/Live/Turn.antt =====
-- What one turn of `live` in internal/watch/hub.go sends.
use watchd.Base.{
  ◌≡◌, ◌≤◌, refl, sym, ◌∙◌, Bool, List, [], ◌∷◌, ◌++◌, Option, none, some, if◌then◌else◌, Text,
  Result, ok, filter, map, All, All-map, arith, Bool-cases, inl, inr,
}
use watchd.Cdc.Error.{Error}
use watchd.Cdc.Cursor.{Cursor}
use watchd.Cdc.Cursor.Least.{later_iff}
use watchd.Cdc.Transaction.{Transaction}
use watchd.Watch.Event.{progress}
use watchd.Watch.Registry.{Queued}
use watchd.Watch.Live.{start_from, advance, batch_of, drain, reports, turn}

-- The need of every item is known.
abbrev pub Decides : (Transaction → Result Error Bool) → (Queued → Bool) → List Queued → Type 0
Decides need wanted = All (λ item. need item.transaction ≡ ok (wanted item))

abbrev pub advance_all : Cursor → List Queued → Cursor
advance_all position [] = position
advance_all position (item ∷ items) = advance_all (advance position item) items

drain-filter :
    (need : Transaction → Result Error Bool) (wanted : Queued → Bool) (position : Cursor)
    (items : List Queued)
    → Decides need wanted items
    → drain need position items
      ≡ (map batch_of (filter wanted items), ok (advance_all position items))
unfolding drain
drain-filter need wanted position [] d = refl
drain-filter need wanted position (item ∷ items) d =
    rw (d.0, drain)
      (rw (drain-filter need wanted (advance position item) items d.1)
        (elim (Bool-cases (wanted item)) [ inl e ↦ rw e refl | inr e ↦ rw e refl ]))

-- Of the source, and no earlier.
abbrev pub From : Cursor → Cursor → Type 0
From c d = (d.source_id ≡ c.source_id) × (c.lsn ≤ d.lsn)

From-trans : (a b c : Cursor) → From a b → From b c → From a c
From-trans a b c h k = (k.0 ∙ h.0, omega arith)

advance-From :
    (position : Cursor) (item : Queued)
    → item.transaction.cursor.source_id ≡ position.source_id
    → From position (advance position item) × From item.transaction.cursor (advance position item)
advance-From position item s = ground (arith, later_iff item.transaction.cursor position)

advance_all-From :
    (position : Cursor) (items : List Queued)
    → All (λ item. item.transaction.cursor.source_id ≡ position.source_id) items
    → From position (advance_all position items)
      × All (λ item. From item.transaction.cursor (advance_all position items)) items
advance_all-From position [] s = ((refl, omega arith), tt)
advance_all-From position (item ∷ items) s =
    let near = advance-From position item s.0 in
    let next = advance position item in
    let later_on = advance_all-From next items (
      All-map (λ x. x.transaction.cursor.source_id ≡ position.source_id)
        (λ x. x.transaction.cursor.source_id ≡ next.source_id) (λ x e. e ∙ sym near.0.0) items
        s.1) in
    (
      From-trans position next _ near.0 later_on.0,
      (From-trans item.transaction.cursor next _ near.1 later_on.0, later_on.1),
    )

-- All positions that a turn starts from are of the hub's source.
abbrev pub OfSource : Text → Option Cursor → Type 0
OfSource sid none = Unit
OfSource sid (some c) = c.source_id ≡ sid

start_from_source :
    (sid : Text) (base : Cursor) (base_safe : Bool) (received : Option Cursor)
    → base.source_id ≡ sid
    → OfSource sid received
    → (start_from base base_safe received).source_id ≡ sid
start_from_source sid base base_safe none b r = b
start_from_source sid base base_safe (some c) b r = ground arith

-- Where `need` answers every item, all positions are of one source, and sending works: a turn
-- sends exactly the needed items that it took, as batches in their order, and then at most one
-- progress. The position of the progress is not before any item that was taken nor before where
-- the turn started; it is sent on the first turn, and later where it is past the last one.
pub turn_complete :
    (sid : Text) (base : Cursor) (base_safe : Bool) (received : Option Cursor)
    (need : Transaction → Result Error Bool) (wanted : Queued → Bool) (progressed : Option Cursor)
    (items : List Queued)
    → base.source_id ≡ sid
    → OfSource sid received
    → All (λ item. item.transaction.cursor.source_id ≡ sid) items
    → Decides need wanted items
    → (position : Cursor) × (turn base base_safe received need progressed items ≡ (
        if reports progressed position
        then (map batch_of (filter wanted items) ++ progress position ∷ [], ok (some position))
        else (map batch_of (filter wanted items), ok progressed)))
      × From (start_from base base_safe received) position
      × All (λ item. From item.transaction.cursor position) items
unfolding turn
turn_complete sid base base_safe received need wanted progressed items b r s d =
    let start = start_from base base_safe received in
    let of_sid : start.source_id ≡ sid = start_from_source sid base base_safe received b r in
    let far = advance_all-From start items (
      All-map (λ x. x.transaction.cursor.source_id ≡ sid)
        (λ x. x.transaction.cursor.source_id ≡ start.source_id) (λ x e. e ∙ sym of_sid) items s) in
    (advance_all start items, rw (drain-filter need wanted start items d) refl, far.0, far.1)
