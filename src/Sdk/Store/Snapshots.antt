-- ===== src/Sdk/Store/Snapshots.antt =====
-- The snapshot writer of sdk/go/watchd/store.go: what `Commit` leaves in the store.
use watchd.Base.{
  ◌≡◌, refl, ap, ◌∙◌, Bool, false, List, [], ◌∷◌, Option, none, some, if◌then◌else◌, Text, text_eq,
  Result, ok, err, ◌>>=◌, Result-cases, arith, inl, inr,
}
use watchd.Sdk.Store.{
  MemoryStore, MemorySnapshot, Row, Error, lookup, put_row, row_key, key_of, begin_snapshot, put,
  commit,
}
use watchd.Sdk.Store.Shapes.{lookup-put_row}

-- The map key of a snapshot's row.
abbrev pub row_id : List Text → Row → Result Error Text
row_id pk row = row_key pk row >>= key_of pk

abbrev is_id : Result Error Text → Text → Bool
is_id (ok k) id = text_eq k id
is_id (err e) id = false

-- The last of the rows with a map key.
abbrev pub last_row : List Text → List Row → Text → Option Row → Option Row
last_row pk [] id found = found
last_row pk (row ∷ rows) id found =
    last_row pk rows id (if is_id (row_id pk row) id then some row else found)

lookup-put :
    (rows : List Row) (w : MemorySnapshot) (id : Text)
    → (put rows w).1 ≡ none
    → lookup id (put rows w).0.rows ≡ last_row w.primary_key rows id (lookup id w.rows)
unfolding put
lookup-put [] w id h = refl
lookup-put (row ∷ rows) w id h = elim (Result-cases (row_id w.primary_key row)) [
  | inr (x, e) ↦ absurd (ground arith)
  | inl (k, e) ↦
      rw (e, put)
        (lookup-put rows (record w { rows = put_row k row w.rows }) id (rw (e, put) at h)
          ∙ ap (last_row w.primary_key rows id) (lookup-put_row k id row w.rows))
]

-- Where putting the rows worked, after the commit a row is found under a map key exactly if one
-- was put, and it is the last one put with that map key; nothing of the store before is left, and
-- the resume cursor is cleared.
pub commit-put :
    (rows : List Row) (s : MemoryStore) (id : Text)
    → (put rows (begin_snapshot s)).1 ≡ none
    → (lookup id (commit (put rows (begin_snapshot s)).0 s).rows
        ≡ last_row s.primary_key rows id none)
      × ((commit (put rows (begin_snapshot s)).0 s).cursor ≡ [])
unfolding commit begin_snapshot lookup
commit-put rows s id h =
    (lookup-put rows (record { primary_key = s.primary_key; rows = [] }) id h, refl)
