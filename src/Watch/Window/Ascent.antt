-- ===== src/Watch/Window/Ascent.antt =====
-- Lists of transactions in commit order, as the stream of internal/cdc delivers them.
use watchd.Base.{ℕ, ◌<◌, ◌≤◌, List, [], ◌∷◌, ◌++◌, All, arith, ◌≡◌, Text}
use watchd.Cdc.Transaction.{Transaction}

abbrev pub end_lsn : Transaction → ℕ
end_lsn t = t.cursor.lsn

-- Each transaction ends before those behind it.
abbrev pub Ascending : List Transaction → Type 0
Ascending [] = Unit
Ascending (t ∷ ts) = All (λ u. end_lsn t < end_lsn u) ts × Ascending ts

abbrev pub UpTo : ℕ → List Transaction → Type 0
UpTo n = All (λ t. end_lsn t ≤ n)

abbrev pub OfSource : Text → List Transaction → Type 0
OfSource s = All (λ t. t.cursor.source_id ≡ s)

pub UpTo-mono : (m n : ℕ) (ts : List Transaction) → m ≤ n → UpTo m ts → UpTo n ts
UpTo-mono m n [] h u = tt
UpTo-mono m n (t ∷ ts) h u = (omega arith, UpTo-mono m n ts h u.1)

pub UpTo-snoc :
    (t : Transaction) (ts : List Transaction) (m : ℕ)
    → m ≤ end_lsn t
    → UpTo m ts
    → UpTo (end_lsn t) (ts ++ t ∷ [])
UpTo-snoc t [] m h u = (omega arith, tt)
UpTo-snoc t (x ∷ ts) m h u = (omega arith, UpTo-snoc t ts m h u.1)

pub Ascending-snoc :
    (ts : List Transaction) (t : Transaction) (m : ℕ)
    → UpTo m ts
    → m < end_lsn t
    → Ascending ts
    → Ascending (ts ++ t ∷ [])
Ascending-snoc [] t m u h a = (tt, tt)
Ascending-snoc (x ∷ ts) t m u h a = (after ts a.0, Ascending-snoc ts t m u.1 h a.1)
  where
    after :
        (xs : List Transaction)
        → All (λ y. end_lsn x < end_lsn y) xs
        → All (λ y. end_lsn x < end_lsn y) (xs ++ t ∷ [])
    after [] b = (omega arith, tt)
    after (y ∷ xs) b = (b.0, after xs b.1)

-- What stands before a transaction ends no later than it.
pub UpTo-middle :
    (gone : List Transaction) (t : Transaction) (rest : List Transaction)
    → Ascending (gone ++ t ∷ rest)
    → UpTo (end_lsn t) (gone ++ t ∷ [])
UpTo-middle [] t rest a = (omega arith, tt)
UpTo-middle (x ∷ gone) t rest a = (middle gone a.0, UpTo-middle gone t rest a.1)
  where
    middle :
        (xs : List Transaction)
        → All (λ y. end_lsn x < end_lsn y) (xs ++ t ∷ rest)
        → end_lsn x ≤ end_lsn t
    middle [] b = omega arith
    middle (y ∷ xs) b = middle xs b.1
