-- ===== src/Cdc/Row/Decode.antt =====
-- `decodeRow` of internal/cdc/decoder.go against decoding each column by itself.
use mathlib.Core.List.{append_assoc}
use watchd.Base.{
  ℕ, ◌+◌, ◌≡◌, ◌≤◌, refl, ap, true, List, [], ◌∷◌, ◌++◌, some, Text, ok, length, length-append, leb,
  ◌==◌, take, drop, map, All, arith, ==_iff,
}
use watchd.Cdc.Transaction.{Value, null, text, unchanged_toast}
use watchd.Cdc.Row.{
  TupleColumn, null_column, toast_column, text_column, other_column, check_column, check_columns,
  check_row, row_text, values_from, decode_row,
}

-- A column's value by itself.
abbrev pub own_value : TupleColumn → Value
own_value null_column = null
own_value toast_column = unchanged_toast
own_value (text_column t) = text t
own_value (other_column t) = null

-- A column of the text format, within the size limit.
abbrev pub Accepted : ℕ → TupleColumn → Type 0
Accepted max null_column = Unit
Accepted max toast_column = Unit
Accepted max (text_column t) = length t ≤ max
Accepted max (other_column t) = ⊥

drop-length : (before rest : Text) → drop (length before) (before ++ rest) ≡ rest
drop-length [] rest = refl
drop-length (b ∷ before) rest = drop-length before rest

take-length : (t rest : Text) → take (length t) (t ++ rest) ≡ t
take-length [] rest = refl
take-length (b ∷ t) rest = ap (λ x. b ∷ x) (take-length t rest)

-- Behind the text of the columns before, each value is cut out where its own text stands.
values_from-map :
    (before : Text) (cs : List TupleColumn)
    → values_from (before ++ row_text cs) (length before) cs ≡ map own_value cs
unfolding values_from row_text
values_from-map before [] = refl
values_from-map before (null_column ∷ cs) = ap (λ vs. null ∷ vs) (values_from-map before cs)
values_from-map before (toast_column ∷ cs) =
    ap (λ vs. unchanged_toast ∷ vs) (values_from-map before cs)
values_from-map before (other_column t ∷ cs) = ap (λ vs. null ∷ vs) (values_from-map before cs)
values_from-map before (text_column t ∷ cs) =
    let rest = values_from-map (before ++ t) cs in
    let tail : values_from (before ++ (t ++ row_text cs)) (length before + length t) cs
        ≡ map own_value cs =
      rw (← append_assoc before t (row_text cs), ← length-append before t) rest in
    rw (drop-length before (t ++ row_text cs), take-length t (row_text cs), tail) refl

check_columns_accepts :
    (n : ℕ) (cs : List TupleColumn) (max : ℕ)
    → All (Accepted max) cs
    → (bytes : ℕ) × (check_columns n cs max ≡ ok bytes)
unfolding check_columns check_column
check_columns_accepts n [] max a = (n, refl)
check_columns_accepts n (null_column ∷ cs) max a = check_columns_accepts (n + 0) cs max a.1
check_columns_accepts n (toast_column ∷ cs) max a = check_columns_accepts (n + 0) cs max a.1
check_columns_accepts n (other_column t ∷ cs) max a = absurd a.0
check_columns_accepts n (text_column t ∷ cs) max a =
    let fits : leb (length t) max ≡ true = ground arith in
    rw fits (check_columns_accepts (n + length t) cs max a.1)

-- A tuple with the relation's number of columns, each null, unchanged or a text within the size
-- limit, is decoded without an error: every value is its own column's, though all texts are cut
-- out of one string.
pub decode_row_exact :
    (count : ℕ) (columns : List TupleColumn) (max_value_bytes : ℕ)
    → length columns ≡ count
    → All (Accepted max_value_bytes) columns
    → decode_row count (some columns) max_value_bytes ≡ ok (map own_value columns)
unfolding decode_row check_row
decode_row_exact count columns max_value_bytes e a =
    let (bytes, fine) = check_columns_accepts 0 columns max_value_bytes a in
    let counted : (length columns == count) ≡ true = (==_iff (length columns) count).1 e in
    rw (counted, fine) (ap ok (values_from-map [] columns))
