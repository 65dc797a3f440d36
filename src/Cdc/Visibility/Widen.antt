-- ===== src/Cdc/Visibility/Widen.antt =====
-- `widen` and `includes` of internal/cdc/visibility.go: the 32-bit transaction IDs of the stream,
-- read against a snapshot of 64-bit ones.
use watchd.Base.{
  ℕ, ◌+◌, ◌-◌, ◌%◌, ◌^◌, ◌≤◌, ◌<◌, ◌≡◌, ◌↔◌, ◌⊎◌, true, false, some, text_eq_iff, ok, arith, List,
  [], ◌∷◌, Occurs,
}
use watchd.Cdc.Transaction.{Transaction}
use watchd.Cdc.Visibility.{Visibility, widen, includes, contains, Snapshot, covers}

pub widen_exact :
    (v : Visibility) (full : ℕ)
    → v.xmax < 2 ^ 63 - 2 ^ 31
    → v.xmax ≤ full + 2 ^ 31
    → full < v.xmax + 2 ^ 31
    → widen v (full % 2 ^ 32) ≡ full
unfolding widen
widen_exact v full bound near far = ground arith

contains_iff : (x : ℕ) (xs : List ℕ) → (contains x xs ≡ true) ↔ Occurs x xs
unfolding contains
contains_iff x [] = (λ h. cc, λ h. elim h [ ])
contains_iff x (y ∷ ys) = ground (arith, contains_iff x ys)

-- The snapshot sees exactly the transactions that had finished: those below `xmax` that were not
-- still running.
pub includes_exact :
    (v : Visibility) (full : ℕ)
    → v.xmax < 2 ^ 63 - 2 ^ 31
    → v.xmax ≤ full + 2 ^ 31
    → full < v.xmax + 2 ^ 31
    → (includes v (full % 2 ^ 32) ≡ true)
      ↔ ((full < v.xmax) × ((full < v.xmin) ⊎ (¬ Occurs full v.in_progress)))
unfolding includes
includes_exact v full bound near far =
    rw (widen_exact v full bound near far) (ground (arith, contains_iff full v.in_progress))

-- `Covers` answers a transaction of the snapshot's own source without an error, and says yes
-- exactly where the snapshot sees it: its full 64-bit ID is below `xmax`, and it is below `xmin` or
-- not among the running ones. The stream carries the ID's low 32 bits; the full ID is within 2 ^ 31
-- of `xmax`, and `xmax` is below 2 ^ 63 - 2 ^ 31.
pub covers_exact :
    (s : Snapshot) (t : Transaction) (v : Visibility) (full : ℕ)
    → s.visibility ≡ some v
    → t.cursor.source_id ≡ s.cursor.source_id
    → t.xid ≡ full % 2 ^ 32
    → v.xmax < 2 ^ 63 - 2 ^ 31
    → v.xmax ≤ full + 2 ^ 31
    → full < v.xmax + 2 ^ 31
    → ((covers s t ≡ ok true) ⊎ (covers s t ≡ ok false))
      × ((covers s t ≡ ok true)
          ↔ ((full < v.xmax) × ((full < v.xmin) ⊎ (¬ Occurs full v.in_progress))))
unfolding covers
covers_exact s t v full e same id bound near far =
    rw (e, id)
      (ground (
        arith,
        text_eq_iff t.cursor.source_id s.cursor.source_id,
        includes_exact v full bound near far,
      ))
