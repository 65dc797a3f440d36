-- ===== src/Tests/Shapes.antt =====
-- internal/cdc/relation.go on concrete inputs: a table that gains a column.
use watchd.Base.{◌≡◌, ◌↔◌, refl, [], ◌∷◌, none, some, codes, text_eq, arith}
use watchd.Cdc.Shape.{Shape, Shapes, diff, record_shape, record_over}
use watchd.Cdc.Shape.Compare.{SameShape, diff_iff}
use watchd.Cdc.Shape.Record.{Coherent, record_shape-Coherent, record_shape_forgets}

abbrev narrow : Shape
narrow = record {
  table = codes "t";
  oid = 7;
  replica_identity = 100;
  columns = record { name = codes "k"; type_oid = 23 } ∷ [];
  key = codes "k" ∷ [];
}

abbrev wide : Shape
wide = record narrow {
  columns =
      record { name = codes "k"; type_oid = 23 } ∷ record { name = codes "v"; type_oid = 25 } ∷ [];
}

abbrev no_shapes : Shapes
no_shapes = record { gen = 0; by_table = λ _. none; by_oid = λ _. none }

no_shapes-Coherent : Coherent no_shapes
no_shapes-Coherent oid b h = absurd (cc)

diff_iff_example : (diff narrow wide ≡ none) ↔ SameShape narrow wide
diff_iff_example = diff_iff narrow wide

record_shape-Coherent_example : Coherent (record_shape wide (record_shape narrow no_shapes))
record_shape-Coherent_example =
    record_shape-Coherent wide (record_shape narrow no_shapes)
      (record_shape-Coherent narrow no_shapes no_shapes-Coherent)

-- The table after a rename, and a new table of the old name.
abbrev renamed : Shape
renamed = record narrow { table = codes "u" }

abbrev recreated : Shape
recreated = record narrow { oid = 8 }

abbrev taken_over : Shapes
taken_over = record_shape renamed (record_shape narrow no_shapes)

record_shape_forgets_example :
    ((record_shape recreated taken_over).by_oid 7 ≡ none)
    × ((record_shape recreated taken_over).by_table (codes "u") ≡ some renamed)
    × (renamed.oid ≡ narrow.oid)
unfolding record_shape record_over text_eq
record_shape_forgets_example =
    record_shape_forgets recreated narrow renamed taken_over
      (record_shape-Coherent renamed (record_shape narrow no_shapes)
        (record_shape-Coherent narrow no_shapes no_shapes-Coherent))
      refl refl (λ e. ground (arith, e)) (λ e. omega (arith, e))
