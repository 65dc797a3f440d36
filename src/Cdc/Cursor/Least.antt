-- ===== src/Cdc/Cursor/Least.antt =====
-- `Compare`, `MinCursor` and `ParseCursor` of internal/cdc/types.go.
use watchd.Base.{
  ℕ, ◌≤◌, ◌<◌, ◌≡◌, refl, ◌≢◌, ◌⊎◌, ◌↔◌, inl, inr, Text, text_eq_iff, true, false, List, [], ◌∷◌,
  ok, err, Result-cases, some, Occurs, All, arith, is_empty, ◌∙◌, sym, ◌++◌, ◌^◌,
}
use watchd.Cdc.Error.{Error}
use watchd.Cdc.Cursor.{
  Cursor, Order, precedes, equals, follows, compare, later, min_from, min_cursor, LsnText, string,
  earlier, parse_cursor,
}

-- What `compare` says of two positions, as an order of numbers.
abbrev pub Reads : Cursor → Cursor → Order → Type 0
Reads c d precedes = c.lsn < d.lsn
Reads c d equals = c.lsn ≡ d.lsn
Reads c d follows = d.lsn < c.lsn

-- Of two cursors of one source exactly one order is reported, and it is that of their positions.
pub compare_cases :
    (c d : Cursor)
    → c.source_id ≡ d.source_id
    → ((compare c d ≡ ok precedes) × (c.lsn < d.lsn))
      ⊎ ((compare c d ≡ ok equals) × (c ≡ d))
      ⊎ ((compare c d ≡ ok follows) × (d.lsn < c.lsn))
unfolding compare
compare_cases c d e = ground (arith, text_eq_iff c.source_id d.source_id)

pub compare-Reads :
    (c d : Cursor) (o : Order) → compare c d ≡ ok o → (c.source_id ≡ d.source_id) × Reads c d o
unfolding compare
compare-Reads c d precedes h = ground (arith, text_eq_iff c.source_id d.source_id)
compare-Reads c d equals h = ground (arith, text_eq_iff c.source_id d.source_id)
compare-Reads c d follows h = ground (arith, text_eq_iff c.source_id d.source_id)

-- `Compare` fails exactly on two sources.
pub compare_other :
    (c d : Cursor) → (compare c d ≡ err Error.different_sources) ↔ (c.source_id ≢ d.source_id)
unfolding compare
compare_other c d = ground (arith, text_eq_iff c.source_id d.source_id)

pub later_iff :
    (c d : Cursor) → (later c d ≡ true) ↔ ((c.source_id ≡ d.source_id) × (d.lsn < c.lsn))
unfolding later
later_iff c d = ground (arith, text_eq_iff c.source_id d.source_id)

-- `m` is of the source of `c`, and not after it.
abbrev pub AtMost : Cursor → Cursor → Type 0
AtMost m c = (c.source_id ≡ m.source_id) × (m.lsn ≤ c.lsn)

AtMost-trans : (a b : Cursor) → AtMost a b → (c : Cursor) → AtMost b c → AtMost a c
AtMost-trans a b h c k = (k.0 ∙ h.0, omega arith)

earlier-AtMost :
    (min c : Cursor) (o : Order)
    → (min.source_id ≡ c.source_id) × Reads min c o
    → ((earlier o min c ≡ min) ⊎ (earlier o min c ≡ c))
      × AtMost (earlier o min c) min
      × AtMost (earlier o min c) c
earlier-AtMost min c precedes h = (inl refl, (refl, omega arith), (sym h.0, omega arith))
earlier-AtMost min c equals h = (inl refl, (refl, omega arith), (sym h.0, omega arith))
earlier-AtMost min c follows h = (inr refl, (h.0, omega arith), (refl, omega arith))

-- What the loop returns is one of the cursors it was given, and at most each of them.
min_from-AtMost :
    (min : Cursor) (cs : List Cursor) (m : Cursor)
    → min_from min cs ≡ ok m
    → Occurs m (min ∷ cs) × All (AtMost m) (min ∷ cs)
unfolding min_from
min_from-AtMost min [] m h = ground arith
min_from-AtMost min (c ∷ rest) m h = elim (Result-cases (compare min c)) [
  | inr (x, e) ↦ ground arith
  | inl (o, e) ↦
      let b = earlier o min c in
      let found = min_from-AtMost b rest m (ground arith) in
      let near = earlier-AtMost min c o (compare-Reads min c o e) in
      (
        ground arith,
        (AtMost-trans m b found.1.0 min near.1, (AtMost-trans m b found.1.0 c near.2, found.1.1)),
      )
]

-- `MinCursor` returns an element, of the same source as all and not after any; it fails on no
-- cursors at all, and where two sources are mixed.
pub min_cursor-least :
    (cs : List Cursor) (m : Cursor) → min_cursor cs ≡ ok m → Occurs m cs × All (AtMost m) cs
unfolding min_cursor
min_cursor-least [] m h = ground arith
min_cursor-least (c ∷ cs) m h = min_from-AtMost c cs m h

earlier-source :
    (min c : Cursor) (o : Order)
    → c.source_id ≡ min.source_id
    → (earlier o min c).source_id ≡ min.source_id
earlier-source min c o h = ground arith

min_from-total :
    (min : Cursor) (cs : List Cursor) (s : Text)
    → min.source_id ≡ s
    → All (λ c. c.source_id ≡ s) cs
    → (m : Cursor) × (min_from min cs ≡ ok m)
unfolding min_from
min_from-total min [] s h all = (min, refl)
min_from-total min (c ∷ cs) s h all = elim (compare_cases min c (h ∙ sym all.0)) [
  | inl p ↦ rw (p.0, min_from) (min_from-total min cs s h all.1)
  | inr (inl p) ↦ rw (p.0, min_from) (min_from-total min cs s h all.1)
  | inr (inr p) ↦ rw (p.0, min_from) (min_from-total c cs s all.0 all.1)
]

-- `MinCursor` of one or more cursors of one source returns a cursor, without an error: one of
-- those given, and not after any of them.
pub min_cursor-total :
    (c : Cursor) (cs : List Cursor)
    → All (λ d. d.source_id ≡ c.source_id) cs
    → (m : Cursor) × (min_cursor (c ∷ cs) ≡ ok m) × Occurs m (c ∷ cs) × All (AtMost m) (c ∷ cs)
unfolding min_cursor
min_cursor-total c cs all =
    let (m, e) = min_from-total c cs c.source_id refl all in
    let found = min_from-AtMost c cs m e in (m, e, found.0, found.1)

-- `MinCursor` returns no cursor where one of those given, here `d` after some of the first one's
-- source, is of another source than the first.
pub min_cursor-mixed :
    (c d : Cursor) (cs : List Cursor)
    → All (λ e. e.source_id ≡ c.source_id) cs
    → d.source_id ≢ c.source_id
    → (ds : List Cursor) → (m : Cursor) → min_cursor (c ∷ (cs ++ d ∷ ds)) ≢ ok m
min_cursor-mixed c d cs all ne ds m h = ne (mixed (min_cursor-least (c ∷ (cs ++ d ∷ ds)) m h).1)
  where
    pick : (xs : List Cursor) → All (AtMost m) (xs ++ d ∷ ds) → d.source_id ≡ m.source_id
    pick [] h = h.0.0
    pick (x ∷ xs) h = pick xs h.1

    mixed : All (AtMost m) (c ∷ (cs ++ d ∷ ds)) → d.source_id ≡ c.source_id
    mixed h = pick cs h.1 ∙ sym h.0.0

-- A cursor of a named source whose position has 64 bits is parsed back from its text, where the
-- replication library parses its text of every 64-bit number back to the number.
pub parse_cursor-string :
    (text : LsnText) (c : Cursor)
    → ((n : ℕ) → n < 2 ^ 64 → text.parse_lsn (text.lsn_text n) ≡ some n)
    → c.lsn < 2 ^ 64
    → is_empty c.source_id ≡ false
    → parse_cursor text c.source_id (string text c) ≡ ok c
unfolding parse_cursor string
parse_cursor-string text c round small named = ground (arith, round c.lsn)
