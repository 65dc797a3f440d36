-- ===== src/Sdk/Store/Keeps.antt =====
-- `MemoryStore` of sdk/go/watchd/store.go keeps the promises of a store.
use watchd.Base.{
  ◌≡◌, refl, sym, ap, ◌∙◌, List, [], ◌∷◌, ◌++◌, Option, none, ok, ◌>>=◌, ok-injective, Result-cases,
  inl, inr, arith,
}
use watchd.Sdk.Store.{
  Row, Error, MemoryStore, MemorySnapshot, begin_snapshot, put, put_row, row_key, key_of, commit,
  apply, save_cursor,
}
use watchd.Sdk.Interface.{Store, Promises}

-- Rows put one list after the other are put as one.
put-append :
    (rows rows' : List Row) (w : MemorySnapshot)
    → (put rows w).1 ≡ none
    → put (rows ++ rows') w ≡ put rows' (put rows w).0
unfolding put
put-append [] rows' w h = refl
put-append (row ∷ rows) rows' w h =
    elim (Result-cases (row_key w.primary_key row >>= key_of w.primary_key)) [
      | inr (x, e) ↦ absurd (ground arith)
      | inl (k, e) ↦
          rw (e, put)
            (put-append rows rows' (record w { rows = put_row k row w.rows }) (rw (e, put) at h))
    ]

-- The methods of `MemoryStore` as those of a store.
abbrev pub memory_store : Store MemoryStore MemorySnapshot Error
memory_store = record {
  cursor = λ s. ok s.cursor;
  begin_snapshot = λ s. (s, ok (begin_snapshot s));
  apply = apply;
  save_cursor = λ c s. (save_cursor c s, none);
  put = λ rows w s. (((put rows w).0, s), (put rows w).1);
  commit = λ w s. (commit w s, none);
  abort = λ w s. s;
}

pair_of : (q : MemorySnapshot × Option Error) → q.1 ≡ none → q ≡ (q.0, none)
pair_of (w, o) e = ap (λ x. (w, x)) e

pub put_Holds :
    (s : MemoryStore) (held rows : List Row) (w : MemorySnapshot) (x : MemoryStore)
    → put held (begin_snapshot s) ≡ (w, none)
    → (put rows w).1 ≡ none
    → put (held ++ rows) (begin_snapshot s) ≡ ((put rows w).0, none)
put_Holds s held rows w x h e =
    put-append held rows (begin_snapshot s) (ap (λ q. q.1) h)
    ∙ ap (λ (q : MemorySnapshot × Option Error). put rows q.0) h
    ∙ pair_of (put rows w) e

-- A reader sees the rows and the cursor; the primary key never changes. The writer has put the rows
-- without an error into an empty snapshot.
abbrev pub memory_store-Promises : Promises memory_store MemoryStore
unfolding put
memory_store-Promises = record {
  view = λ s. s;
  applied = λ b s. (apply b s).0;
  marked = save_cursor;
  installed = λ rows s. commit (put rows (begin_snapshot s)).0 s;
  Holds = λ s w rows. put rows (begin_snapshot s) ≡ (w, none);
  begin_view = λ x. refl;
  begin_Holds = λ x w e. ap (λ q. (q, none)) (ok-injective e);
  put_view = λ rows w x. refl;
  put_Holds = put_Holds;
  commit_view = λ rows w x h e. sym (ap (λ q. commit q.0 x) h);
  abort_view = λ w x. refl;
  apply_view = λ b x e. refl;
  save_cursor_view = λ c x e. refl;
}
