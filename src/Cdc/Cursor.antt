-- ===== src/Cdc/Cursor.antt =====
-- internal/cdc/types.go: `Cursor`, a position in the write-ahead log of one source.
pub mod Least
use watchd.Base.{
  ℕ, ◌-◌, ◌+◌, ◌%◌, ◌≡◌, Text, text_eq, ltb, leb, if◌then◌else◌, Bool, true, false, List, [], ◌∷◌,
  ◌&&◌, ◌==◌, ◌||◌, not, Result, ok, err, ◌>>=◌, Option, none, some, is_empty,
}
use watchd.Cdc.Error.{Error}

-- A source and a log sequence number, a `uint64`.
pub record Cursor : Type 0 where
  pub source_id : Text
  pub lsn : ℕ

-- What `Compare` returns as -1, 0 and 1.
pub data Order : Type 0 where
  precedes equals follows : Order

unfoldable pub compare : Cursor → Cursor → Result Error Order
compare c other =
    if not (text_eq c.source_id other.source_id)
    then err Error.different_sources
    else if ltb c.lsn other.lsn
    then ok precedes
    else if ltb other.lsn c.lsn
    then ok follows
    else ok equals

-- `int64(c.lsn - other.lsn)` as the bit pattern of the result, a `uint64`.
unfoldable pub bytes_after : Cursor → Cursor → ℕ
bytes_after c other =
    if not (text_eq c.source_id other.source_id) || leb c.lsn other.lsn
    then 0
    else c.lsn - other.lsn

unfoldable pub is_zero : Cursor → Bool
is_zero c = is_empty c.source_id && c.lsn == 0

-- `later` of internal/watch/hub.go: an error counts as no.
unfoldable pub later : Cursor → Cursor → Bool
unfolding compare
later a b = elim (compare a b) [
  | ok order ↦ elim order [ follows ↦ true | _ ↦ false ]
  | err e ↦ false
]

-- `if cmp > 0 { min = cursor }`
abbrev pub earlier : Order → Cursor → Cursor → Cursor
earlier follows min cursor = cursor
earlier precedes min cursor = min
earlier equals min cursor = min

-- The loop of `MinCursor`.
unfoldable pub min_from : Cursor → List Cursor → Result Error Cursor
min_from min [] = ok min
min_from min (cursor ∷ rest) = compare min cursor >>= λ cmp. min_from (earlier cmp min cursor) rest

unfoldable pub min_cursor : List Cursor → Result Error Cursor
unfolding min_from
min_cursor [] = err Error.no_cursors
min_cursor (first ∷ rest) = min_from first rest

-- The text of a log sequence number is the replication library's: `LSN.String` and `ParseLSN`.
pub record LsnText : Type 0 where
  pub lsn_text : ℕ → Text
  pub parse_lsn : Text → Option ℕ

module _ (text : LsnText) where
  unfoldable pub string : Cursor → Text
  string c = text.lsn_text c.lsn

  unfoldable pub parse_cursor : Text → Text → Result Error Cursor
  parse_cursor source_id s =
      if is_empty source_id then err Error.invalid_cursor else elim (text.parse_lsn s) [
        | none ↦ err Error.invalid_cursor
        | some lsn ↦ ok (record { source_id = source_id; lsn = lsn })
      ]
