-- ===== src/Cdc/Shape/Record.antt =====
-- `record` of internal/cdc/relation.go: the two maps of baselines.
use watchd.Base.{
  ℕ, ◌≡◌, ◌≢◌, ==_iff, refl, sym, update, Option, none, some, Text, text_eq_iff, text_eq_refl,
  arith, Option-cases, inl, inr,
}
use watchd.Cdc.Shape.{Shape, Shapes, diff, install, record_over, record_shape}
use watchd.Cdc.Shape.Compare.{SameShape, diff_iff}

-- A baseline that the relation's number leads to is that relation's, and its table's baseline.
abbrev pub Coherent : Shapes → Type 0
Coherent s =
    (oid : ℕ) (b : Shape) → s.by_oid oid ≡ some b → (b.oid ≡ oid) × (s.by_table b.table ≡ some b)

install-Coherent :
    (shape : Shape) (s : Shapes)
    → Coherent s
    → ((oid : ℕ) (b : Shape) → s.by_oid oid ≡ some b → b.table ≢ shape.table)
    → Coherent (install shape s)
install-Coherent shape s c other oid b h =
    ground (arith, c oid b, other oid b, text_eq_iff shape.table b.table, text_eq_refl shape.table)

-- Without a previous baseline, no relation's number leads to the table.
untracked :
    (table : Text) (s : Shapes)
    → s.by_table table ≡ none
    → Coherent s
    → (oid : ℕ) (b : Shape) → s.by_oid oid ≡ some b
    → b.table ≢ table
untracked table s e c oid b h t = ground (arith, c oid b)

forgotten-Coherent :
    (n : ℕ) (s : Shapes) → Coherent s → Coherent (record s { by_oid = update s.by_oid n none })
forgotten-Coherent n s c oid b h = ground (arith, c oid b)

-- Once the previous baseline's number is forgotten, none leads to its table.
forgotten :
    (table : Text) (previous : Shape) (s : Shapes)
    → s.by_table table ≡ some previous
    → Coherent s
    → (oid : ℕ) (b : Shape) → update s.by_oid previous.oid none oid ≡ some b
    → b.table ≢ table
forgotten table previous s e c oid b h t = ground (arith, c oid b)

record_over-Coherent :
    (previous : Option Shape) (shape : Shape) (s : Shapes)
    → s.by_table shape.table ≡ previous
    → Coherent s
    → Coherent (record_over previous shape s)
unfolding record_over
record_over-Coherent none shape s e c = install-Coherent shape s c (untracked shape.table s e c)
record_over-Coherent (some previous) shape s e c = elim (Option-cases (diff previous shape)) [
  | inl d ↦ rw (d, record_over) c
  | inr (x, d) ↦
      rw (d, record_over)
        (install-Coherent shape (record s { by_oid = update s.by_oid previous.oid none })
          (forgotten-Coherent previous.oid s c) (forgotten shape.table previous s e c))
]

-- Recording a shape keeps the two maps of baselines coherent: a baseline that a relation's number
-- leads to has that number, and is the baseline of its own table.
pub record_shape-Coherent :
    (shape : Shape) (s : Shapes) → Coherent s → Coherent (record_shape shape s)
unfolding record_shape
record_shape-Coherent shape s c = record_over-Coherent (s.by_table shape.table) shape s refl c

record_over_baseline :
    (previous : Option Shape) (shape : Shape) (s : Shapes)
    → s.by_table shape.table ≡ previous
    → ((b : Shape) × ((record_over previous shape s).by_table shape.table ≡ some b)
        × SameShape b shape)
      × ((table : Text)
          → table ≢ shape.table
          → (record_over previous shape s).by_table table ≡ s.by_table table)
unfolding record_over
record_over_baseline none shape s e = (
  (
    shape,
    rw (text_eq_refl shape.table) refl,
    record { oid = refl; replica_identity = refl; key = refl; columns = refl },
  ),
  λ table ne. ground (arith, text_eq_iff shape.table table),
)
record_over_baseline (some previous) shape s e = elim (Option-cases (diff previous shape)) [
  | inl d ↦ rw (d, record_over) ((previous, e, (diff_iff previous shape).0 d), λ table ne. refl)
  | inr (x, d) ↦
      rw (d, record_over)
        (
          (shape, rw (text_eq_refl shape.table) refl, same),
          λ table ne. ground (arith, text_eq_iff shape.table table),
        )
]
  where
    same : SameShape shape shape
    same = record { oid = refl; replica_identity = refl; key = refl; columns = refl }

-- After a shape is recorded, its table has a baseline from which it does not differ, and the
-- baselines of all other tables are as before.
pub record_shape_baseline :
    (shape : Shape) (s : Shapes)
    → ((b : Shape) × ((record_shape shape s).by_table shape.table ≡ some b) × SameShape b shape)
      × ((table : Text)
          → table ≢ shape.table
          → (record_shape shape s).by_table table ≡ s.by_table table)
unfolding record_shape
record_shape_baseline shape s = record_over_baseline (s.by_table shape.table) shape s refl

-- A baseline can be forgotten by its number and kept by its table. Where a table's baseline has
-- the number of a relation that another table's baseline has taken over (a renamed table that was
-- validated again), and a shape of the table with a new number is recorded: the number then leads
-- to no baseline, though the other table's baseline, with that number, is still there.
pub record_shape_forgets :
    (shape previous b : Shape) (s : Shapes)
    → Coherent s
    → s.by_table shape.table ≡ some previous
    → s.by_oid previous.oid ≡ some b
    → b.table ≢ shape.table
    → shape.oid ≢ previous.oid
    → ((record_shape shape s).by_oid previous.oid ≡ none)
      × ((record_shape shape s).by_table b.table ≡ some b)
      × (b.oid ≡ previous.oid)
unfolding record_shape record_over
record_shape_forgets shape previous b s c e f other ne = elim (Option-cases (diff previous shape)) [
  | inl d ↦ absurd (ne (sym ((diff_iff previous shape).0 d).oid))
  | inr (x, d) ↦
      rw (e, record_over)
        (rw (d, record_over)
          (ground (
            arith,
            c previous.oid b,
            ==_iff shape.oid previous.oid,
            text_eq_iff shape.table b.table,
          )))
]
