-- ===== src/Cdc/Validation.antt =====
-- internal/cdc/config.go and validation.go: which reader configurations and projection specs are
-- accepted. A duration or a size is a ℤ, of which the sign is read; float64 comparisons come as a
-- parameter, like what the catalog of the source answers. The text of an error is left out.
pub mod Specs
use watchd.Base.{
  ℤ, pos, negsuc, ℕ, ◌+◌, ◌≡◌, Bool, true, false, not, ◌&&◌, ◌||◌, List, [], ◌∷◌, Option, none,
  some, if◌then◌else◌, leb, ltb, ◌==◌, Text, text_eq, Result, ok, err, ◌>>=◌, ◌>>◌, require, length,
  is_empty,
}
use watchd.Cdc.Transaction.{ProjectionSpec}
use watchd.Cdc.Failure.{Failure, plain, Kind}
use watchd.Cdc.Shape.{Shape, Shapes, record_shape}

-- The classes of `postgresIdentifier`: `[a-z_]` and `[a-z0-9_$]`.
abbrev pub is_first : ℕ → Bool
is_first c = (leb b'a' c && leb c b'z') || c == b'_'

abbrev pub is_later : ℕ → Bool
is_later c = is_first c || ((leb b'0' c && leb c b'9') || c == b'$')

unfoldable pub all_later : Text → Bool
all_later [] = true
all_later (c ∷ cs) = is_later c && all_later cs

-- `postgresIdentifier.MatchString`: at most 62 letters follow the first.
unfoldable pub is_identifier : Text → Bool
unfolding all_later
is_identifier [] = false
is_identifier (c ∷ cs) = is_first c && (leb (length cs) 62 && all_later cs)

-- `seen`, a set of texts.
unfoldable pub seen_has : Text → List Text → Bool
seen_has t [] = false
seen_has t (x ∷ xs) = text_eq x t || seen_has t xs

abbrev pub invalid : Failure
invalid = plain Kind.invalid_reader_config

-- The loop over the primary key, which returns what it has seen.
unfoldable pub check_primary_key : List Text → List Text → Result Failure (List Text)
unfolding is_identifier seen_has
check_primary_key seen [] = ok seen
check_primary_key seen (column ∷ columns) = do
  require (is_identifier column && not (is_empty column)) invalid
  require (not (seen_has column seen)) invalid
  check_primary_key (column ∷ seen) columns

abbrev pub no_columns : List Text → Bool
no_columns [] = true
no_columns (c ∷ cs) = false

-- `validateProjectionSpecConfig`, and `ValidateProjectionSpec`, which only calls it.
unfoldable pub validate_projection_spec_config : ProjectionSpec → Result Failure (Unit {0})
unfolding check_primary_key
validate_projection_spec_config spec = do
  require
      (not (
        is_empty spec.source_id
        || (is_empty spec.schema
            || (is_empty spec.table
                || (is_empty spec.scope_column || no_columns spec.primary_key)))))
      invalid
  require
      (is_identifier spec.schema && (is_identifier spec.table && is_identifier spec.scope_column))
      invalid
  seen ← check_primary_key [] spec.primary_key
  require (seen_has spec.scope_column seen) invalid

-- `validateSourceProjectionSpec`, for a reader of this source.
unfoldable pub validate_source_projection_spec : Text → ProjectionSpec → Result Failure (Unit {0})
unfolding validate_projection_spec_config
validate_source_projection_spec source_id spec =
    validate_projection_spec_config spec >> require (text_eq spec.source_id source_id) invalid

-- `sameStrings`.
unfoldable pub same_strings : List Text → List Text → Bool
same_strings [] [] = true
same_strings [] (y ∷ ys) = false
same_strings (x ∷ xs) [] = false
same_strings (x ∷ xs) (y ∷ ys) = text_eq x y && same_strings xs ys

-- What the catalog of the source answers about a publication: the four kinds it publishes, or that
-- there is none.
pub record Publication : Type 0 where
  pub inserts : Bool
  pub updates : Bool
  pub deletes : Bool
  pub truncates : Bool

-- `validatePublication`.
unfoldable pub validate_publication :
    Result Failure (Option Publication) → Result Failure (Unit {0})
validate_publication (err e) = err e
validate_publication (ok none) = err invalid
validate_publication (ok (some p)) =
    require (not p.truncates) invalid >> require (p.inserts && (p.updates && p.deletes)) invalid

-- What the catalog answers about a spec: has the table the scope column, which primary key, is it
-- published, and its shape; each query may fail.
pub record Catalog : Type 0 where
  pub table : Result Failure (Bool × Bool)
  pub primary_key : Result Failure (List Text)
  pub published : Result Failure Bool
  pub shape : Result Failure Shape

-- `validateProjectionSpec`: the shapes with that of the table, which is recorded at the end.
unfoldable pub validate_projection_spec : Catalog → ProjectionSpec → Shapes → Result Failure Shapes
unfolding same_strings record_shape
validate_projection_spec catalog spec shapes = do
  exists ← catalog.table
  require exists.0 invalid
  require exists.1 invalid
  primary_key ← catalog.primary_key
  require (same_strings primary_key spec.primary_key) invalid
  published ← catalog.published
  require published invalid
  shape ← catalog.shape
  ok (record_shape shape shapes)
