-- ===== src/Sdk/Store/Keys.antt =====
-- `keyOf` of sdk/go/watchd/store.go: the map key of a row.
use watchd.Base.{
  ◌≡◌, ◌≢◌, refl, sym, ap, ◌∙◌, List, [], ◌∷◌, ◌++◌, some, length, Text, All, arith, ok, inl, inr,
  Result-cases, suc,
}
use watchd.Sdk.Store.{Key, key_parts, join, key_of}

-- PostgreSQL text has no byte 0.
abbrev pub NoZero : Text → Type 0
NoZero = All (λ b. b ≢ 0)

append_zero_eq :
    (p q x y : Text) → NoZero p → NoZero q → p ++ 0 ∷ x ≡ q ++ 0 ∷ y → (p ≡ q) × (x ≡ y)
append_zero_eq [] [] x y hp hq e = (refl, ground arith)
append_zero_eq [] (b ∷ q) x y hp hq e = absurd (hq.0 (ground arith))
append_zero_eq (a ∷ p) [] x y hp hq e = absurd (hp.0 (ground arith))
append_zero_eq (a ∷ p) (b ∷ q) x y hp hq e =
    let tails : p ++ 0 ∷ x ≡ q ++ 0 ∷ y = ground arith in
    let (ps, xs) = append_zero_eq p q x y hp.1 hq.1 tails in (ground arith, xs)

-- Joined with a byte that no part has, lists of one length come apart again.
pub join-injective :
    (ps qs : List Text)
    → length ps ≡ length qs
    → All NoZero ps
    → All NoZero qs
    → join 0 ps ≡ join 0 qs
    → ps ≡ qs
unfolding join
join-injective [] [] l hp hq e = refl
join-injective [] (q ∷ qs) l hp hq e = absurd (omega arith)
join-injective (p ∷ ps) [] l hp hq e = absurd (omega arith)
join-injective (p ∷ []) (q ∷ []) l hp hq e = ap (λ t. t ∷ []) e
join-injective (p ∷ []) (q ∷ q' ∷ qs) l hp hq e = absurd (omega arith)
join-injective (p ∷ p' ∷ ps) (q ∷ []) l hp hq e = absurd (omega arith)
join-injective (p ∷ p' ∷ ps) (q ∷ q' ∷ qs) l hp hq e =
    let (same, rest) = append_zero_eq p q (join 0 (p' ∷ ps)) (join 0 (q' ∷ qs)) hp.0 hq.0 e in
    let tails = join-injective (p' ∷ ps) (q' ∷ qs) (omega arith) hp.1 hq.1 rest in ground arith

-- The values of a key at the primary-key columns.
abbrev pub Agrees : List Text → Key → Key → Type 0
Agrees columns k k' = All (λ c. k c ≡ k' c) columns

-- Key values hold no byte 0.
abbrev pub ZeroFree : List Text → Key → Type 0
ZeroFree columns k = All (λ c. (v : Text) → k c ≡ some v → NoZero v) columns

-- The parts are the values at the columns, in order.
abbrev Parts : Key → List Text → List Text → Type 0
Parts k [] [] = Unit
Parts k [] (p ∷ ps) = ⊥
Parts k (c ∷ cs) [] = ⊥
Parts k (c ∷ cs) (p ∷ ps) = (k c ≡ some p) × Parts k cs ps

key_parts-Parts :
    (cs : List Text) (k : Key) (ps : List Text) → key_parts cs k ≡ ok ps → Parts k cs ps
unfolding key_parts
key_parts-Parts [] k [] e = tt
key_parts-Parts [] k (p ∷ ps) e = cc
key_parts-Parts (c ∷ cs) k [] e = ground arith
key_parts-Parts (c ∷ cs) k (p ∷ ps) e = ground (arith, key_parts-Parts cs k ps)

Parts-NoZero :
    (cs : List Text) (k : Key) (ps : List Text) → Parts k cs ps → ZeroFree cs k → All NoZero ps
Parts-NoZero [] k [] h z = tt
Parts-NoZero [] k (p ∷ ps) h z = absurd h
Parts-NoZero (c ∷ cs) k [] h z = absurd h
Parts-NoZero (c ∷ cs) k (p ∷ ps) h z = (z.0 p h.0, Parts-NoZero cs k ps h.1 z.1)

Parts-length : (cs : List Text) (k : Key) (ps : List Text) → Parts k cs ps → length ps ≡ length cs
Parts-length [] k [] h = refl
Parts-length [] k (p ∷ ps) h = absurd h
Parts-length (c ∷ cs) k [] h = absurd h
Parts-length (c ∷ cs) k (p ∷ ps) h = ap suc (Parts-length cs k ps h.1)

Parts-Agrees :
    (cs : List Text) (k k' : Key) (ps : List Text) → Parts k cs ps → Parts k' cs ps → Agrees cs k k'
Parts-Agrees [] k k' ps h h' = tt
Parts-Agrees (c ∷ cs) k k' [] h h' = absurd h
Parts-Agrees (c ∷ cs) k k' (p ∷ ps) h h' = (h.0 ∙ sym h'.0, Parts-Agrees cs k k' ps h.1 h'.1)

key_of_parts :
    (cs : List Text) (k : Key) (id : Text)
    → key_of cs k ≡ ok id
    → (ps : List Text) × (key_parts cs k ≡ ok ps) × (id ≡ join 0 ps)
unfolding key_of
key_of_parts cs k id e = elim (Result-cases (key_parts cs k)) [
  | inl (ps, f) ↦ (ps, f, ground arith)
  | inr (x, f) ↦ absurd (ground arith)
]

-- Two keys with the same map key agree on every primary-key column, where their values at these
-- columns hold no byte 0.
pub key_of-injective :
    (cs : List Text) (k k' : Key) (id : Text)
    → ZeroFree cs k
    → ZeroFree cs k'
    → key_of cs k ≡ ok id
    → key_of cs k' ≡ ok id
    → Agrees cs k k'
key_of-injective cs k k' id z z' e e' =
    let (ps, f, j) = key_of_parts cs k id e in
    let (ps', f', j') = key_of_parts cs k' id e' in
    let h = key_parts-Parts cs k ps f in
    let h' = key_parts-Parts cs k' ps' f' in
    let same =
      join-injective ps ps' (Parts-length cs k ps h ∙ sym (Parts-length cs k' ps' h'))
        (Parts-NoZero cs k ps h z) (Parts-NoZero cs k' ps' h' z') (sym j ∙ j') in
    Parts-Agrees cs k k' ps' (rw same at h) h'
