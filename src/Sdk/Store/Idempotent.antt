-- ===== src/Sdk/Store/Idempotent.antt =====
-- `Apply` of sdk/go/watchd/store.go on a batch that is delivered again.
use watchd.Base.{◌≡◌, refl, sym, ap, ◌∙◌, none, Text, arith}
use watchd.Sdk.Store.{MemoryStore, Batch, Rows, lookup, apply, apply_changes}
use watchd.Sdk.Store.Shapes.{
  shaped, shaped_idem, changes_shape, apply_changes-changes_shape, apply_changes_error,
}

-- Two stores that no reader can tell apart.
pub record SameStore (s u : MemoryStore) : Type 0 where
  pub primary_key : s.primary_key ≡ u.primary_key
  pub rows : (id : Text) → lookup id s.rows ≡ lookup id u.rows
  pub cursor : s.cursor ≡ u.cursor

apply_ok :
    (b : Batch) (s : MemoryStore)
    → (apply b s).1 ≡ none
    → ((apply_changes s.primary_key b.changes s.rows).1 ≡ none)
      × ((apply b s).0
          ≡ record s { rows = (apply_changes s.primary_key b.changes s.rows).0; cursor = b.cursor })
unfolding apply
apply_ok b s h = ground arith

ok_apply :
    (b : Batch) (s : MemoryStore)
    → (apply_changes s.primary_key b.changes s.rows).1 ≡ none
    → (apply b s).1 ≡ none
unfolding apply
ok_apply b s h = ground arith

-- Applying a batch once more after it was applied without an error succeeds again, and leaves a
-- store with the same row under every map key and the same cursor.
pub apply_idem :
    (b : Batch) (s : MemoryStore)
    → (apply b s).1 ≡ none
    → ((apply b (apply b s).0).1 ≡ none) × SameStore (apply b (apply b s).0).0 (apply b s).0
apply_idem b s h =
    let (worked, once) = apply_ok b s h in
    let rows : Rows = (apply_changes s.primary_key b.changes s.rows).0 in
    let u : MemoryStore = record s { rows = rows; cursor = b.cursor } in
    let again : (apply b u).1 ≡ none =
      ok_apply b u (apply_changes_error s.primary_key b.changes rows s.rows ∙ worked) in
    let twice = apply_ok b u again in
    let first =
      λ (id : Text). apply_changes-changes_shape s.primary_key b.changes s.rows id worked in
    rw once (
      again,
      rw twice.1 (record {
        primary_key = refl;
        rows = λ id.
            apply_changes-changes_shape s.primary_key b.changes rows id twice.0
            ∙ ap (shaped (changes_shape s.primary_key b.changes id)) (first id)
            ∙ shaped_idem (changes_shape s.primary_key b.changes id) (lookup id s.rows)
            ∙ sym (first id);
        cursor = refl;
      }),
    )
