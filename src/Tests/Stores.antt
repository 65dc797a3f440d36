-- ===== src/Tests/Stores.antt =====
-- sdk/go/watchd/store.go on concrete inputs: a store with one row.
use watchd.Base.{◌≡◌, refl, List, [], ◌∷◌, none, some, Text, codes, text_eq, arith}
use watchd.Sdk.Store.{
  MemoryStore, Batch, Change, Row, Key, text, unchanged, Operation, lookup, put_row, delete_row,
  apply, apply_changes, apply_operation, key_of, key_parts, join, begin_snapshot, put, row_key,
  commit,
}
use watchd.Sdk.Store.Idempotent.{SameStore, apply_idem}
use watchd.Sdk.Store.Keys.{NoZero, Agrees, key_of-injective}
use watchd.Sdk.Store.Snapshots.{commit-put, last_row}

abbrev columns : List Text
columns = codes "k" ∷ []

-- Every column has the text "a", and every key value is "a".
abbrev row : Row
row _ = some (text (codes "a"))

abbrev key : Key
key _ = some (codes "a")

abbrev update_row : Change
update_row = record {
  operation = Operation.update;
  table = codes "t";
  key = key;
  values = λ _. some unchanged;
}

abbrev delete_it : Change
delete_it = record {
  operation = Operation.delete;
  table = codes "t";
  key = key;
  values = λ _. none;
}

abbrev batch : Batch
batch = record { cursor = codes "9"; changes = delete_it ∷ update_row ∷ [] }

abbrev pub store : MemoryStore
store = record { primary_key = columns; rows = (codes "a", row) ∷ []; cursor = codes "8" }

apply_idem_example :
    ((apply batch (apply batch store).0).1 ≡ none)
    × SameStore (apply batch (apply batch store).0).0 (apply batch store).0
unfolding apply apply_changes apply_operation key_of key_parts join lookup put_row delete_row
    text_eq
apply_idem_example = apply_idem batch store refl

-- The same, but for an empty column name.
abbrev other_key : Key
other_key [] = none
other_key (b ∷ column) = some (codes "a")

a-NoZero : (v : Text) → key (codes "k") ≡ some v → NoZero v
a-NoZero [] e = tt
a-NoZero (b ∷ []) e = (λ z. ground arith, tt)
a-NoZero (b ∷ c ∷ v) e = absurd (ground arith)

key_of-injective_example : Agrees columns key other_key
unfolding key_of key_parts join
key_of-injective_example =
    key_of-injective columns key other_key (codes "a") (a-NoZero, tt) (a-NoZero, tt) refl refl

commit-put_example :
    (lookup (codes "a") (commit (put (row ∷ row ∷ []) (begin_snapshot store)).0 store).rows
      ≡ last_row columns (row ∷ row ∷ []) (codes "a") none)
    × ((commit (put (row ∷ row ∷ []) (begin_snapshot store)).0 store).cursor ≡ [])
unfolding put begin_snapshot row_key key_of key_parts join text_eq put_row
commit-put_example = commit-put (row ∷ row ∷ []) store (codes "a") refl
