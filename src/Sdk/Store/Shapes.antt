-- ===== src/Sdk/Store/Shapes.antt =====
-- `Apply` of sdk/go/watchd/store.go, one row at a time: what a list of changes does to it.
use mathlib.Core.Path.{fun_ext}
use watchd.Base.{
  ◌≡◌, refl, sym, ap, ◌∙◌, Bool, true, false, ◌&&◌, List, [], ◌∷◌, Option, none, some,
  if◌then◌else◌, Text, text_eq, text_eq_iff, arith, Bool-cases, inl, inr, Option-cases, ok, err,
  Result-cases,
}
use watchd.Sdk.Store.{
  Value, text, null, unchanged, Row, Operation, insert, update, delete, unknown, Change, Rows,
  lookup, put_row, delete_row, key_of, column_of, merged, merge, apply_operation, apply_changes,
}

pub lookup-put_row :
    (id j : Text) (row : Row) (rows : Rows)
    → lookup j (put_row id row rows) ≡ (if text_eq id j then some row else lookup j rows)
unfolding lookup put_row
lookup-put_row id j row [] = refl
lookup-put_row id j row ((k, old) ∷ rest) =
    ground
      (arith, text_eq_iff id j, text_eq_iff k id, text_eq_iff k j, lookup-put_row id j row rest)

pub lookup-delete_row :
    (id j : Text) (rows : Rows)
    → lookup j (delete_row id rows) ≡ (if text_eq id j then none else lookup j rows)
unfolding lookup delete_row
lookup-delete_row id j [] = ground arith
lookup-delete_row id j ((k, old) ∷ rest) =
    ground (arith, text_eq_iff id j, text_eq_iff k id, text_eq_iff k j, lookup-delete_row id j rest)

-- A row is left alone, removed, or written: some columns keep their value, the others are set.
pub data Shape : Type 0 where
  same : Shape
  gone : Shape
  written : (Text → Bool) → Row → Shape

abbrev pub shaped : Shape → Option Row → Option Row
shaped same row = row
shaped gone row = none
shaped (written keep set) row = some (λ c. if keep c then column_of row c else set c)

-- Doing the same again changes nothing.
pub shaped_idem : (s : Shape) (row : Option Row) → shaped s (shaped s row) ≡ shaped s row
shaped_idem same row = refl
shaped_idem gone row = refl
shaped_idem (written keep set) row = ap some (fun_ext λ c. ground arith)

abbrev is_unchanged : Option Value → Bool
is_unchanged none = false
is_unchanged (some unchanged) = true
is_unchanged (some null) = false
is_unchanged (some (text t)) = false

abbrev pub operation_shape : Operation → Row → Shape
operation_shape insert values = written (λ c. is_unchanged (values c)) values
operation_shape update values = written (λ c. is_unchanged (values c)) values
operation_shape delete values = gone
operation_shape unknown values = same

-- One shape after another.
abbrev pub then_shape : Shape → Shape → Shape
then_shape s same = s
then_shape s gone = gone
then_shape same (written keep set) = written keep set
then_shape gone (written keep set) = written (λ _. false) (λ c. if keep c then none else set c)
then_shape (written keep' set') (written keep set) =
    written (λ c. keep c && keep' c) (λ c. if keep c then set' c else set c)

shaped-then_shape :
    (s u : Shape) (row : Option Row) → shaped (then_shape s u) row ≡ shaped u (shaped s row)
shaped-then_shape s same row = refl
shaped-then_shape s gone row = refl
shaped-then_shape same (written keep set) row = refl
shaped-then_shape gone (written keep set) row = ap some (fun_ext λ c. ground arith)
shaped-then_shape (written keep' set') (written keep set) row = ap some (fun_ext λ c. ground arith)

merged_shape :
    (row : Option Row) (c : Text) (v : Option Value)
    → merged row c v ≡ (if is_unchanged v then column_of row c else v)
merged_shape row c v = ground arith

merge_shape :
    (row : Option Row) (values : Row)
    → some (merge row values) ≡ shaped (written (λ c. is_unchanged (values c)) values) row
unfolding merge
merge_shape row values = ap some (fun_ext λ c. merged_shape row c (values c))

-- What a list of changes does to the row of a key.
abbrev pub touch : Operation → Text → Row → Text → Shape
touch o id values j = if text_eq id j then operation_shape o values else same

write_lookup :
    (id : Text) (values : Row) (rows : Rows) (j : Text)
    → lookup j (put_row id (merge (lookup id rows) values) rows)
      ≡ shaped (touch insert id values j) (lookup j rows)
write_lookup id values rows j =
    lookup-put_row id j (merge (lookup id rows) values) rows ∙ elim (Bool-cases (text_eq id j)) [
      | inr e ↦ rw e
      | inl e ↦ rw (e, merge_shape (lookup id rows) values, (text_eq_iff id j).0 e)
    ]

-- What a successful change does to every row.
apply_operation-lookup :
    (o : Operation) (id : Text) (values : Row) (rows rows' : Rows) (j : Text)
    → apply_operation o id values rows ≡ some rows'
    → lookup j rows' ≡ shaped (touch o id values j) (lookup j rows)
unfolding apply_operation
apply_operation-lookup insert id values rows rows' j e =
    ground (arith, write_lookup id values rows j)
apply_operation-lookup update id values rows rows' j e =
    ground (arith, write_lookup id values rows j)
apply_operation-lookup delete id values rows rows' j e = ground (arith, lookup-delete_row id j rows)
apply_operation-lookup unknown id values rows rows' j e = cc

pub changes_shape : List Text → List Change → Text → Shape
changes_shape pk [] j = same
changes_shape pk (c ∷ cs) j = elim (key_of pk c.key) [
  | err e ↦ same
  | ok id ↦ then_shape (touch c.operation id c.values j) (changes_shape pk cs j)
]

pub apply_changes-changes_shape :
    (pk : List Text) (cs : List Change) (rows : Rows) (j : Text)
    → (apply_changes pk cs rows).1 ≡ none
    → lookup j (apply_changes pk cs rows).0 ≡ shaped (changes_shape pk cs j) (lookup j rows)
unfolding apply_changes changes_shape
apply_changes-changes_shape pk [] rows j h = refl
apply_changes-changes_shape pk (c ∷ cs) rows j h = elim (Result-cases (key_of pk c.key)) [
  | inr (x, e) ↦ absurd (ground arith)
  | inl (id, e) ↦ elim (Option-cases (apply_operation c.operation id c.values rows)) [
    | inl f ↦ absurd (ground arith)
    | inr (rows', f) ↦
        rw (e, apply_changes, changes_shape)
          (rw (f, apply_changes)
            (apply_changes-changes_shape pk cs rows' j (ground arith)
              ∙ ap (shaped (changes_shape pk cs j))
                  (apply_operation-lookup c.operation id c.values rows rows' j f)
              ∙ sym (
                  shaped-then_shape (touch c.operation id c.values j) (changes_shape pk cs j)
                    (lookup j rows))))
  ]
]

-- Whether a batch fails does not depend on the rows.
pub apply_changes_error :
    (pk : List Text) (cs : List Change) (rows rows' : Rows)
    → (apply_changes pk cs rows).1 ≡ (apply_changes pk cs rows').1
unfolding apply_changes apply_operation
apply_changes_error pk [] rows rows' = refl
apply_changes_error pk (c ∷ cs) rows rows' = elim (Result-cases (key_of pk c.key)) [
  | inr (x, e) ↦ ground arith
  | inl (id, e) ↦ ground (
    arith,
    apply_changes_error pk cs (put_row id (merge (lookup id rows) c.values) rows)
        (put_row id (merge (lookup id rows') c.values) rows'),
    apply_changes_error pk cs (delete_row id rows) (delete_row id rows'),
  )
]
