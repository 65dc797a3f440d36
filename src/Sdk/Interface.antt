-- ===== src/Sdk/Interface.antt =====
-- The `Store` and `SnapshotWriter` of sdk/go/watchd/store.go: what the client's `Sync` is given, and
-- what their comments ask of it. A store's methods are called one at a time, so each is a function
-- on the store's state; an error is an option.
use watchd.Base.{◌≡◌, List, [], ◌++◌, Option, none, Text, Result, ok}
use watchd.Sdk.Store.{Row, Batch}

pub record Store {ℓ κ μ} (S : Type ℓ) (W : Type κ) (E : Type μ) : Type (ℓ ⊔ κ ⊔ μ) where
  pub cursor : S → Result E Text
  pub begin_snapshot : S → S × Result E W
  pub apply : Batch → S → S × Option E
  pub save_cursor : Text → S → S × Option E
  pub put : List Row → W → S → (W × S) × Option E
  pub commit : W → S → S × Option E
  pub abort : W → S → S

-- What the comments promise, on what a reader sees of the store: a batch, a cursor or a whole
-- snapshot is there at once; an unfinished snapshot is not seen. `Holds v w rows` is the writer's
-- promise that it has those rows.
pub record Promises {ℓ κ μ ν} {S : Type ℓ} {W : Type κ} {E : Type μ} (s : Store S W E) (V : Type ν)
    : Type (ℓ ⊔ κ ⊔ μ ⊔ ν ⊔ 1) where
  pub view : S → V
  pub applied : Batch → V → V
  pub marked : Text → V → V
  pub installed : List Row → V → V
  pub Holds : V → W → List Row → Type 0
  pub begin_view : (x : S) → view (s.begin_snapshot x).0 ≡ view x
  pub begin_Holds : (x : S) (w : W) → (s.begin_snapshot x).1 ≡ ok w → Holds (view x) w []
  pub put_view : (rows : List Row) (w : W) (x : S) → view (s.put rows w x).0.1 ≡ view x
  pub put_Holds :
      (v : V) (held rows : List Row) (w : W) (x : S)
      → Holds v w held
      → (s.put rows w x).1 ≡ none
      → Holds v (s.put rows w x).0.0 (held ++ rows)
  pub commit_view :
      (rows : List Row) (w : W) (x : S)
      → Holds (view x) w rows
      → (s.commit w x).1 ≡ none
      → view (s.commit w x).0 ≡ installed rows (view x)
  pub abort_view : (w : W) (x : S) → view (s.abort w x) ≡ view x
  pub apply_view :
      (b : Batch) (x : S) → (s.apply b x).1 ≡ none → view (s.apply b x).0 ≡ applied b (view x)
  pub save_cursor_view :
      (c : Text) (x : S)
      → (s.save_cursor c x).1 ≡ none
      → view (s.save_cursor c x).0 ≡ marked c (view x)
