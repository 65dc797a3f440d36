-- ===== src/Cdc/Visibility/Parse.antt =====
-- `parseVisibility` of internal/cdc/visibility.go.
use watchd.Base.{
  ℕ, ◌+◌, ◌-◌, ◌*◌, ◌≤◌, ◌<◌, ◌≡◌, ◌^◌, List, [], ◌∷◌, some, Text, All, ok, arith, is_empty,
  Ensures, not, Ensures-or_err, holds, fails, Ensures-bind, Ensures-require, Ensures-ok, leb, ltb,
  if◌then◌else◌, ◌&&◌,
}
use watchd.Cdc.Visibility.{
  Visibility, parse_digits, parse_uint, parse_running, parse_parts, parse_visibility, split,
}

parse_digits-lt : (n : ℕ) (s : Text) {m : ℕ} → n < 2 ^ 64 → parse_digits n s ≡ some m → m < 2 ^ 64
unfolding parse_digits
parse_digits-lt n [] h e = ground arith
parse_digits-lt n (c ∷ rest) {m} h e =
    ground (arith, parse_digits-lt (n * 10 + (c - b'0')) rest {m = m})

parse_uint-lt : (s : Text) → Ensures (λ m. m < 2 ^ 64) (parse_uint s)
unfolding parse_uint
parse_uint-lt s =
    Ensures-require (not (is_empty s)) _
      λ _. Ensures-or_err (parse_digits 0 s) _ λ m e. parse_digits-lt 0 s {m = m} (omega arith) e

-- The transactions that the snapshot names as running lie between its bounds.
pub record IsValid (v : Visibility) : Type 0 where
  pub ordered : v.xmin ≤ v.xmax
  pub bounded : v.xmax < 2 ^ 64
  pub running : All (λ x. (v.xmin ≤ x) × (x < v.xmax)) v.in_progress

abbrev Between : ℕ → ℕ → List ℕ → Type 0
Between lo hi = All (λ x. (lo ≤ x) × (x < hi))

parse_running-All :
    (lo hi : ℕ) (fields : List Text) → Ensures (Between lo hi) (parse_running lo hi fields)
unfolding parse_running
parse_running-All lo hi [] = holds tt
parse_running-All lo hi (f ∷ fs) = Ensures-bind (parse_uint-lt f) λ x _.
    Ensures-require (leb lo x && ltb x hi) _
      λ inside. Ensures-bind (parse_running-All lo hi fs) λ xs rest. holds (ground arith, rest)

running-All :
    (lo hi : ℕ) (s : Text)
    → Ensures (Between lo hi) (if is_empty s then ok [] else parse_running lo hi (split b',' s))
running-All lo hi [] = holds tt
running-All lo hi (c ∷ s) = parse_running-All lo hi (split b',' (c ∷ s))

parse_parts-IsValid : (parts : List Text) → Ensures IsValid (parse_parts parts)
unfolding parse_parts
parse_parts-IsValid (low ∷ high ∷ running ∷ []) = Ensures-bind (parse_uint-lt low) λ lo _.
    Ensures-bind (parse_uint-lt high) λ hi bounded. Ensures-require (leb lo hi) _ λ ordered.
      Ensures-bind (running-All lo hi running)
        λ xs inside. holds (record { ordered = ground arith; bounded = bounded; running = inside })
parse_parts-IsValid _ = fails

-- A visibility that `parseVisibility` makes of a text from the server is well formed: `xmin` is at
-- most `xmax`, `xmax` has 64 bits, and every running transaction is from `xmin` on and below `xmax`.
pub parse_visibility-IsValid : (s : Text) (v : Visibility) → parse_visibility s ≡ ok v → IsValid v
unfolding parse_visibility
parse_visibility-IsValid s v e = Ensures-ok (rw e at (parse_parts-IsValid (split b':' s)))
