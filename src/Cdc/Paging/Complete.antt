-- ===== src/Cdc/Paging/Complete.antt =====
-- internal/cdc/snapshot.go: the pages of a scope are all its rows.
use mathlib.Core.List.{append_assoc}
use watchd.Base.{
  ℕ, zero, suc, ◌+◌, ◌≤◌, ◌<◌, ◌≡◌, refl, sym, ap, ◌∙◌, true, List, [], ◌∷◌, ◌++◌, Option, none,
  some, length, length-append, ltb, take, drop, Text, Result, ok, All, All-left, All-right, arith,
  Bool-cases, inl, inr,
}
use watchd.Cdc.Failure.{Failure}
use watchd.Watch.Event.{SnapshotRow}
use watchd.Cdc.Paging.{next_key, last_row, Scanned, scan_rows}

take-drop : (n : ℕ) (rows : List SnapshotRow) → take n rows ++ drop n rows ≡ rows
take-drop zero rows = refl
take-drop (suc n) [] = refl
take-drop (suc n) (r ∷ rows) = ap (λ l. r ∷ l) (take-drop n rows)

length-take : (n : ℕ) (rows : List SnapshotRow) → length (take n rows) ≤ n
length-take zero rows = omega arith
length-take (suc n) [] = omega arith
length-take (suc n) (r ∷ rows) = omega (arith, length-take n rows)

-- A page that is not full has all that is left.
drop_short : (n : ℕ) (rows : List SnapshotRow) → length (take n rows) < n → drop n rows ≡ []
drop_short zero rows h = absurd (omega arith)
drop_short (suc n) [] h = refl
drop_short (suc n) (r ∷ rows) h = drop_short n rows (omega arith)

abbrev all_but_last : SnapshotRow → List SnapshotRow → List SnapshotRow
all_but_last row [] = []
all_but_last row (next ∷ rows) = row ∷ all_but_last next rows

last_row_lem :
    (row : SnapshotRow) (rows : List SnapshotRow)
    → row ∷ rows ≡ all_but_last row rows ++ last_row row rows ∷ []
last_row_lem row [] = refl
last_row_lem row (next ∷ rows) = ap (λ l. row ∷ l) (last_row_lem next rows)

abbrev pub pages_rows : List (List SnapshotRow) → List SnapshotRow
pages_rows [] = []
pages_rows (page ∷ pages) = page ++ pages_rows pages

module _ (fetch_batch : Option (List Text) → Result Failure (List SnapshotRow))
    (sink : List SnapshotRow → Option Failure) (primary_key : List Text) (batch_rows : ℕ)
    (scope : List SnapshotRow) where
  -- The loop ends, and its pages are these rows in order, no page empty or larger than asked for.
  abbrev pub Delivers : List SnapshotRow → Option Scanned → Type 0
  Delivers rows r =
      (pages : List (List SnapshotRow)) × (r ≡ some (pages, none))
      × (pages_rows pages ≡ rows)
      × All (λ page. (1 ≤ length page) × (length page ≤ batch_rows)) pages

  -- The rows of the scope in the order of their keys: a page without a key is the first rows, and
  -- one after a row's key is the first of those that follow the row.
  abbrev pub Fetches : Type 0
  Fetches =
      (fetch_batch none ≡ ok (take batch_rows scope))
      × ((before after : List SnapshotRow) (row : SnapshotRow) (key : List Text)
          → scope ≡ before ++ row ∷ after
          → next_key primary_key row ≡ ok key
          → fetch_batch (some key) ≡ ok (take batch_rows after))

  -- A row has a key: no column of the primary key is missing or NULL.
  abbrev pub Keyed : SnapshotRow → Type 0
  Keyed row = (key : List Text) × (next_key primary_key row ≡ ok key)

  last_row-Keyed :
      (row : SnapshotRow) (rows : List SnapshotRow)
      → All Keyed (row ∷ rows)
      → Keyed (last_row row rows)
  last_row-Keyed row [] h = h.0
  last_row-Keyed row (next ∷ rows) h = last_row-Keyed next rows h.1

  take_nil : (rows : List SnapshotRow) → 0 < batch_rows → [] ≡ take batch_rows rows → [] ≡ rows
  take_nil rows some_rows h = nil_of batch_rows rows some_rows h
    where
      nil_of : (n : ℕ) (rows' : List SnapshotRow) → 0 < n → [] ≡ take n rows' → [] ≡ rows'
      nil_of zero rows' l e = absurd (omega arith)
      nil_of (suc n) [] l e = refl
      nil_of (suc n) (r ∷ rows') l e = absurd (cc)

  -- What is left of the scope after a page, from the row that its key is of.
  after_page :
      (before rows rest : List SnapshotRow) (row : SnapshotRow) (others : List SnapshotRow)
      → scope ≡ before ++ rows
      → (row ∷ others) ++ rest ≡ rows
      → scope ≡ (before ++ all_but_last row others) ++ last_row row others ∷ rest
  after_page before rows rest row others whole split =
      whole
      ∙ ap (λ l. before ++ l) (sym split)
      ∙ ap (λ l. before ++ (l ++ rest)) (last_row_lem row others)
      ∙ ap (λ l. before ++ l)
          (append_assoc (all_but_last row others) (last_row row others ∷ []) rest)
      ∙ sym (append_assoc before (all_but_last row others) (last_row row others ∷ rest))

  less : (page : List SnapshotRow) → ltb (length page) batch_rows ≡ true → length page < batch_rows
  less page e = ground arith

  -- A turn of the loop, with what the next ones do.
  page-Delivers :
      (fuel : ℕ) (last_key : Option (List Text)) (before rows page : List SnapshotRow)
      → Fetches
      → ((p : List SnapshotRow) → sink p ≡ none)
      → 0 < batch_rows
      → All Keyed rows
      → scope ≡ before ++ rows
      → page ≡ take batch_rows rows
      → fetch_batch last_key ≡ ok page
      → ((key : List Text)
          → fetch_batch (some key) ≡ ok (take batch_rows (drop batch_rows rows))
          → 1 ≤ length page
          → scope ≡ (before ++ page) ++ drop batch_rows rows
          → Delivers
              (drop batch_rows rows)
              (scan_rows fetch_batch sink primary_key batch_rows fuel (some key)))
      → Delivers rows (scan_rows fetch_batch sink primary_key batch_rows (suc fuel) last_key)
  unfolding scan_rows
  page-Delivers fuel last_key before rows [] f k some_rows keyed whole same fetched next =
      rw (fetched, scan_rows) ([], refl, take_nil rows some_rows same, tt)
  page-Delivers fuel last_key before rows (row ∷ others) f k some_rows keyed whole same fetched
        next =
      let rest = drop batch_rows rows in
      let split : (row ∷ others) ++ rest ≡ rows =
        ap (λ l. l ++ rest) same ∙ take-drop batch_rows rows in
      let small : length (row ∷ others) ≤ batch_rows =
        rw (sym same) at (length-take batch_rows rows) in
      let key =
        last_row-Keyed row others (All-left Keyed (row ∷ others) rest (rw (sym split) at keyed)) in
      elim (Bool-cases (ltb (length (row ∷ others)) batch_rows)) [
        | inl e ↦
            rw (fetched, scan_rows)
              (rw (k (row ∷ others)) (
                rw key.1 (
                  rw e (
                    (row ∷ others) ∷ [],
                    refl,
                    ap (λ l. (row ∷ others) ++ l)
                          (sym (
                            drop_short batch_rows rows
                              (omega (arith, ap length same, less (row ∷ others) e))))
                        ∙ split,
                    ((omega arith, small), tt),
                  ))))
        | inr e ↦
            let more =
              next key.0
                (f.1 (before ++ all_but_last row others) rest (last_row row others) key.0
                  (after_page before rows rest row others whole split) key.1)
                (omega arith)
                (whole
                  ∙ ap (λ l. before ++ l) (sym split)
                  ∙ sym (append_assoc before (row ∷ others) rest)) in
            rw (fetched, scan_rows)
              (rw (k (row ∷ others)) (
                rw key.1 (
                  rw e (
                    (row ∷ others) ∷ more.0,
                    rw more.1 refl,
                    ap (λ l. (row ∷ others) ++ l) more.2 ∙ split,
                    ((omega arith, small), more.3),
                  ))))
      ]

  pub scan_rows-Delivers :
      (fuel : ℕ) (last_key : Option (List Text)) (before rows : List SnapshotRow)
      → Fetches
      → ((page : List SnapshotRow) → sink page ≡ none)
      → 0 < batch_rows
      → All Keyed rows
      → scope ≡ before ++ rows
      → fetch_batch last_key ≡ ok (take batch_rows rows)
      → length rows < fuel
      → Delivers rows (scan_rows fetch_batch sink primary_key batch_rows fuel last_key)
  scan_rows-Delivers zero last_key before rows f k some_rows keyed whole fetched enough =
      absurd (omega arith)
  scan_rows-Delivers (suc fuel) last_key before rows f k some_rows keyed whole fetched enough =
      let page = take batch_rows rows in
      let split = take-drop batch_rows rows in
      page-Delivers fuel last_key before rows page f k some_rows keyed whole refl fetched
        λ key again nonempty whole'.
          scan_rows-Delivers fuel (some key) (before ++ page) (drop batch_rows rows) f k some_rows
            (All-right Keyed page (drop batch_rows rows) (rw (sym split) at keyed)) whole' again
            (omega (arith, length-append page (drop batch_rows rows), ap length split))

  -- Where the database returns the pages of the scope in the order of the primary key, its columns
  -- are not NULL, pages are not empty by configuration, and the sink takes every page, the loop
  -- ends after at most one page per row and one more, and its pages are all rows of the scope in
  -- order, each once, none of them empty or larger than configured.
  pub scan_rows_complete :
      Fetches
      → ((page : List SnapshotRow) → sink page ≡ none)
      → 0 < batch_rows
      → All Keyed scope
      → Delivers scope (scan_rows fetch_batch sink primary_key batch_rows (length scope + 1) none)
  scan_rows_complete f k some_rows keyed =
      scan_rows-Delivers (length scope + 1) none [] scope f k some_rows keyed refl f.0 (omega arith)
