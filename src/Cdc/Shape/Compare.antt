-- ===== src/Cdc/Shape/Compare.antt =====
-- `diff` of internal/cdc/relation.go against equality of what it compares.
use watchd.Base.{◌≡◌, ◌↔◌, true, List, [], ◌∷◌, none, Text, text_eq_iff, arith}
use watchd.Cdc.Shape.{Column, Shape, texts_eq, diff_columns, diff}

texts_eq_iff : (xs ys : List Text) → (texts_eq xs ys ≡ true) ↔ (xs ≡ ys)
unfolding texts_eq
texts_eq_iff [] [] = ground arith
texts_eq_iff [] (y ∷ ys) = ground arith
texts_eq_iff (x ∷ xs) [] = ground arith
texts_eq_iff (x ∷ xs) (y ∷ ys) = ground (arith, text_eq_iff x y, texts_eq_iff xs ys)

diff_columns_iff : (all cs bs : List Column) → (diff_columns all cs bs ≡ none) ↔ (cs ≡ bs)
unfolding diff_columns
diff_columns_iff all [] [] = ground arith
diff_columns_iff all (c ∷ cs) [] = ground arith
diff_columns_iff all [] (a ∷ bs) = ground arith
diff_columns_iff all (c ∷ cs) (a ∷ bs) =
    ground (arith, text_eq_iff c.name a.name, diff_columns_iff all cs bs)

-- What decoding depends on is the same.
pub record SameShape (a b : Shape) : Type 0 where
  pub oid : a.oid ≡ b.oid
  pub replica_identity : a.replica_identity ≡ b.replica_identity
  pub key : a.key ≡ b.key
  pub columns : a.columns ≡ b.columns

-- `diff` reports nothing exactly where the relation, its replica identity, its key columns, and
-- all its columns, in order and with their types, are the same.
pub diff_iff : (a b : Shape) → (diff a b ≡ none) ↔ SameShape a b
unfolding diff
diff_iff a b = (
  λ h. record {
    oid = ground (arith, texts_eq_iff a.key b.key, diff_columns_iff b.columns a.columns b.columns);
    replica_identity =
        ground (arith, texts_eq_iff a.key b.key, diff_columns_iff b.columns a.columns b.columns);
    key = ground (arith, texts_eq_iff a.key b.key, diff_columns_iff b.columns a.columns b.columns);
    columns =
        ground (arith, texts_eq_iff a.key b.key, diff_columns_iff b.columns a.columns b.columns);
  },
  λ s. ground (
    arith,
    s.oid,
    s.replica_identity,
    s.key,
    s.columns,
    texts_eq_iff a.key b.key,
    diff_columns_iff b.columns a.columns b.columns,
  ),
)
