-- ===== src/Cdc/Shape.antt =====
-- internal/cdc/relation.go: the shape of a projected table, how two shapes differ, and the
-- baselines that the decoder checks relations against. A difference is data, where the source has
-- a text for logs; no difference, the empty text, is `none`.
pub mod Compare
pub mod Record
use watchd.Base.{
  ltb, map, is_empty, ◌++◌, ℕ, ◌+◌, ◌%◌, ◌^◌, Bool, true, false, not, ◌&&◌, ◌||◌, List, [], ◌∷◌,
  Option, none, some, if◌then◌else◌, Text, text_eq, ◌==◌, update,
}

-- `shapeColumn`.
pub record Column : Type 0 where
  pub name : Text
  pub type_oid : ℕ

-- `relationShape`. The replica identity is a byte.
pub record Shape : Type 0 where
  pub table : Text
  pub oid : ℕ
  pub replica_identity : ℕ
  pub columns : List Column
  pub key : List Text

pub data Difference : Type 0 where
  recreated : ℕ → ℕ → Difference
  identity_changed : ℕ → ℕ → Difference
  key_changed : List Text → List Text → Difference
  dropped : Text → Difference
  added : Text → Difference
  dropped_or_renamed : Text → Difference
  added_or_moved : Text → Difference
  type_changed : Text → ℕ → ℕ → Difference

-- `pglogrepl.RelationMessageColumn` and `pglogrepl.RelationMessage`.
pub record RelationColumn : Type 0 where
  pub column_name : Text
  pub data_type : ℕ
  pub flags : ℕ

pub record RelationMessage : Type 0 where
  pub relation_id : ℕ
  pub namespace : Text
  pub relation_name : Text
  pub replica_identity : ℕ
  pub relation_columns : List RelationColumn

-- `qualifiedTable` of internal/cdc/types.go.
unfoldable pub qualified_table : Text → Text → Text
qualified_table namespace relation =
    if is_empty namespace then relation else namespace ++ b'.' ∷ relation

-- The byte order of strings, and `slices.Sort` by it.
unfoldable pub text_leb : Text → Text → Bool
text_leb [] ys = true
text_leb (x ∷ xs) [] = false
text_leb (x ∷ xs) (y ∷ ys) = ltb x y || (x == y && text_leb xs ys)

unfoldable pub insert_sorted : Text → List Text → List Text
insert_sorted x [] = x ∷ []
insert_sorted x (y ∷ ys) = if text_leb x y then x ∷ y ∷ ys else y ∷ insert_sorted x ys

unfoldable pub sort : List Text → List Text
unfolding insert_sorted
sort [] = []
sort (x ∷ xs) = insert_sorted x (sort xs)

-- `if column.Flags == 1 { shape.key = append(shape.key, column.Name) }`
unfoldable pub key_names : List RelationColumn → List Text
key_names [] = []
key_names (c ∷ cs) = if c.flags == 1 then c.column_name ∷ key_names cs else key_names cs

-- `shapeOfRelation`.
unfoldable pub shape_of_relation : RelationMessage → Shape
unfolding qualified_table sort key_names
shape_of_relation m = record {
  table = qualified_table m.namespace m.relation_name;
  oid = m.relation_id;
  replica_identity = m.replica_identity;
  columns = map (λ c. record { name = c.column_name; type_oid = c.data_type }) m.relation_columns;
  key = sort (key_names m.relation_columns);
}

-- `slices.Equal` of strings.
unfoldable pub texts_eq : List Text → List Text → Bool
texts_eq [] [] = true
texts_eq [] (y ∷ ys) = false
texts_eq (x ∷ xs) [] = false
texts_eq (x ∷ xs) (y ∷ ys) = text_eq x y && texts_eq xs ys

-- `slices.ContainsFunc` by a column's name.
unfoldable pub has_name : Text → List Column → Bool
has_name name [] = false
has_name name (c ∷ cs) = text_eq c.name name || has_name name cs

-- The loop of `diff` over the columns, of which `all` are the actual ones.
unfoldable pub diff_columns : List Column → List Column → List Column → Option Difference
diff_columns all [] [] = none
diff_columns all (c ∷ cs) [] = some (dropped c.name)
diff_columns all [] (a ∷ bs) = some (added a.name)
diff_columns all (c ∷ cs) (a ∷ bs) =
    let rest = diff_columns all cs bs in
    if not (text_eq c.name a.name)
    then (if not (has_name c.name all)
        then some (dropped_or_renamed c.name)
        else some (added_or_moved a.name))
    else if not (c.type_oid == a.type_oid)
    then some (type_changed c.name c.type_oid a.type_oid)
    else rest

-- `diff`.
unfoldable pub diff : Shape → Shape → Option Difference
unfolding diff_columns texts_eq
diff s actual =
    if not (s.oid == actual.oid)
    then some (recreated s.oid actual.oid)
    else if not (s.replica_identity == actual.replica_identity)
    then some (identity_changed s.replica_identity actual.replica_identity)
    else if not (texts_eq s.key actual.key)
    then some (key_changed s.key actual.key)
    else diff_columns actual.columns s.columns actual.columns

-- `shapes`, without its lock. A missing entry of a map is `none`.
pub record Shapes : Type 0 where
  pub gen : ℕ
  pub by_table : Text → Option Shape
  pub by_oid : ℕ → Option Shape

-- The end of `record`: the new baseline, and a new generation.
abbrev pub install : Shape → Shapes → Shapes
install shape s = record {
  gen = (s.gen + 1) % 2 ^ 64;
  by_table = λ table. if text_eq shape.table table then some shape else s.by_table table;
  by_oid = update s.by_oid shape.oid (some shape);
}

-- `record`, from the table's previous baseline on.
unfoldable pub record_over : Option Shape → Shape → Shapes → Shapes
record_over none shape s = install shape s
record_over (some previous) shape s = elim (diff previous shape) [
  | none ↦ s
  | some d ↦ install shape (record s { by_oid = update s.by_oid previous.oid none })
]

-- `record`.
unfoldable pub record_shape : Shape → Shapes → Shapes
unfolding record_over
record_shape shape s = record_over (s.by_table shape.table) shape s
