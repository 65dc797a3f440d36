-- ===== src/Cdc/Validation/Specs.antt =====
-- internal/cdc/validation.go: the projection specs that are accepted.
use watchd.Base.{
  ◌≡◌, refl, sym, ◌∙◌, Bool, true, false, not, ◌&&◌, ◌||◌, List, [], ◌∷◌, if◌then◌else◌, Text,
  text_eq, text_eq_iff, Result, ok, err, ◌>>=◌, ◌>>◌, require, is_empty, arith, Bool-cases, inl,
  inr,
}
use watchd.Cdc.Transaction.{ProjectionSpec}
use watchd.Cdc.Failure.{Failure}
use watchd.Cdc.Validation.{
  invalid, is_identifier, seen_has, check_primary_key, no_columns, validate_projection_spec_config,
  validate_source_projection_spec,
}

abbrev pub all_identifiers : List Text → Bool
all_identifiers [] = true
all_identifiers (c ∷ cs) = is_identifier c && all_identifiers cs

-- No name comes twice.
abbrev pub unique : List Text → Bool
unique [] = true
unique (c ∷ cs) = not (seen_has c cs) && unique cs

-- A spec of a source: its names are identifiers, its primary key has no column twice, and the scope
-- column is one of them.
abbrev pub described : ProjectionSpec → Bool
described spec =
    not (is_empty spec.source_id)
    && (is_identifier spec.schema
        && (is_identifier spec.table
            && (is_identifier spec.scope_column
                && (all_identifiers spec.primary_key
                    && (unique spec.primary_key && seen_has spec.scope_column spec.primary_key)))))

text_eq_sym : (a b : Text) → text_eq a b ≡ text_eq b a
text_eq_sym a b = ground (arith, text_eq_iff a b, text_eq_iff b a)

abbrev disjoint : List Text → List Text → Bool
disjoint [] cs = true
disjoint (s ∷ ss) cs = not (seen_has s cs) && disjoint ss cs

disjoint-cons :
    (ss : List Text) (c : Text) (cs : List Text)
    → disjoint ss (c ∷ cs) ≡ not (seen_has c ss) && disjoint ss cs
unfolding seen_has
disjoint-cons [] c cs = refl
disjoint-cons (s ∷ ss) c cs = ground (arith, disjoint-cons ss c cs, text_eq_sym c s)

disjoint_nil : (ss : List Text) → disjoint ss [] ≡ true
unfolding seen_has
disjoint_nil [] = refl
disjoint_nil (s ∷ ss) = disjoint_nil ss

abbrev fresh : List Text → List Text → Bool
fresh ss [] = true
fresh ss (c ∷ cs) = not (seen_has c ss) && fresh (c ∷ ss) cs

fresh_split : (ss cs : List Text) → fresh ss cs ≡ unique cs && disjoint ss cs
fresh_split ss [] = sym (disjoint_nil ss)
fresh_split ss (c ∷ cs) = ground (arith, fresh_split (c ∷ ss) cs, disjoint-cons ss c cs)

abbrev onto : List Text → List Text → List Text
onto ss [] = ss
onto ss (c ∷ cs) = onto (c ∷ ss) cs

seen_has-onto :
    (t : Text) (ss cs : List Text) → seen_has t (onto ss cs) ≡ seen_has t cs || seen_has t ss
unfolding seen_has
seen_has-onto t ss [] = refl
seen_has-onto t ss (c ∷ cs) = ground (arith, seen_has-onto t (c ∷ ss) cs)

identifier_nonempty : (c : Text) → is_identifier c && not (is_empty c) ≡ is_identifier c
unfolding is_identifier
identifier_nonempty [] = refl
identifier_nonempty (b ∷ bs) = ground arith

nonempty_identifier : (c : Text) → is_empty c ≡ true → is_identifier c ≡ false
unfolding is_identifier
nonempty_identifier [] e = refl
nonempty_identifier (b ∷ bs) e = absurd (cc)

check_primary_key_lem :
    (ss cs : List Text)
    → check_primary_key ss cs
      ≡ (if all_identifiers cs && fresh ss cs then ok (onto ss cs) else err invalid)
unfolding check_primary_key
check_primary_key_lem ss [] = refl
check_primary_key_lem ss (c ∷ cs) =
    rw (identifier_nonempty c) (elim (Bool-cases (is_identifier c)) [
      | inr e ↦ rw e refl
      | inl e ↦ elim (Bool-cases (seen_has c ss)) [
        | inl f ↦ rw (e, f) (ground arith)
        | inr f ↦ rw (e, f) (check_primary_key_lem (c ∷ ss) cs)
      ]
    ])

-- What follows the first conditions.
abbrev rest_of : ProjectionSpec → Result Failure (Unit {0})
rest_of spec = check_primary_key [] spec.primary_key >>= λ seen.
    require (seen_has spec.scope_column seen) invalid

picked :
    (a u : Bool) (columns : List Text) (t : Text)
    → ((if a && (u && true) then ok columns else err invalid) >>= λ seen.
        require (seen_has t seen) invalid)
      ≡ require (a && (u && seen_has t columns)) invalid
picked false u columns t = refl
picked true false columns t = refl
picked true true columns t = refl

or_false : (b : Bool) → b || false ≡ b
or_false true = refl
or_false false = refl

none_described :
    (t : Text) (columns : List Text)
    → no_columns columns ≡ true
    → (all_identifiers columns && (unique columns && seen_has t columns)) ≡ false
unfolding seen_has
none_described t [] e = refl
none_described t (c ∷ cs) e = absurd (cc)

rest_of_lem :
    (spec : ProjectionSpec)
    → rest_of spec
      ≡ require
          (all_identifiers spec.primary_key
            && (unique spec.primary_key && seen_has spec.scope_column spec.primary_key))
          invalid
unfolding seen_has
rest_of_lem spec =
    rw (check_primary_key_lem [] spec.primary_key, fresh_split [] spec.primary_key)
      (picked (all_identifiers spec.primary_key) (unique spec.primary_key)
          (onto [] spec.primary_key) spec.scope_column
        ∙ rw (seen_has-onto spec.scope_column [] spec.primary_key)
            (rw (or_false (seen_has spec.scope_column spec.primary_key)) refl))

-- The conditions in the order of the code, for texts that are empty or not identifiers.
conditions :
    (a b c d e s t p r : Bool)
    → (b ≡ true → s ≡ false)
    → (c ≡ true → t ≡ false)
    → (d ≡ true → p ≡ false)
    → (e ≡ true → r ≡ false)
    → (require (not (a || (b || (c || (d || e))))) invalid
        >> (require (s && (t && p)) invalid >> require r invalid))
      ≡ require (not a && (s && (t && (p && r)))) invalid
conditions true b c d e s t p r hb hc hd he = refl
conditions false b c d e false t p r hb hc hd he = ground arith
conditions false b c d e true false p r hb hc hd he = ground arith
conditions false b c d e true true false r hb hc hd he = ground arith
conditions false b c d e true true true false hb hc hd he = ground arith
conditions false true c d e true true true true hb hc hd he = absurd (ground (arith, hb))
conditions false false true d e true true true true hb hc hd he = absurd (ground (arith, hc))
conditions false false false true e true true true true hb hc hd he = absurd (ground (arith, hd))
conditions false false false false true true true true true hb hc hd he =
    absurd (ground (arith, he))
conditions false false false false false true true true true hb hc hd he = refl

validate_projection_spec_config_lem :
    (spec : ProjectionSpec)
    → validate_projection_spec_config spec ≡ require (described spec) invalid
unfolding validate_projection_spec_config
validate_projection_spec_config_lem spec = rw (rest_of_lem spec) (
    conditions (is_empty spec.source_id) (is_empty spec.schema) (is_empty spec.table)
      (is_empty spec.scope_column) (no_columns spec.primary_key) (is_identifier spec.schema)
      (is_identifier spec.table) (is_identifier spec.scope_column) _
      (nonempty_identifier spec.schema) (nonempty_identifier spec.table)
      (nonempty_identifier spec.scope_column) (none_described spec.scope_column spec.primary_key))

then_require : (a b : Bool) → (require a invalid >> require b invalid) ≡ require (a && b) invalid
then_require true b = refl
then_require false b = refl

-- A reader accepts a spec exactly if it names a source, its schema, table and scope column are
-- identifiers, its primary key has only identifiers, none of them twice, the scope column is one of
-- them, and the source is the reader's; otherwise the error is that of an invalid configuration.
pub validate_source_projection_spec_lem :
    (source_id : Text) (spec : ProjectionSpec)
    → validate_source_projection_spec source_id spec
      ≡ require (described spec && text_eq spec.source_id source_id) invalid
unfolding validate_source_projection_spec
validate_source_projection_spec_lem source_id spec =
    rw (validate_projection_spec_config_lem spec) (then_require (described spec) _)
