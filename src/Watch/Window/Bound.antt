-- ===== src/Watch/Window/Bound.antt =====
-- `ring` and `maxReplay` of internal/watch/hub.go: the size of the replay window.
use watchd.Base.{
  ℕ, zero, suc, ◌+◌, ◌-◌, ◌≤◌, ◌≡◌, refl, ap, ◌∙◌, List, [], ◌∷◌, ◌++◌, ltb, length, length-append,
  drop, some, arith, Bool-cases, inl, inr,
}
use watchd.Cdc.Transaction.{Transaction}
use watchd.Watch.Window.{Window, evict_locked, evict_over, push}

evict_locked-drop :
    (ring : List Transaction) (w : Window)
    → w.ring ≡ ring
    → (evict_locked ring w).ring ≡ drop 1 ring
unfolding evict_locked
evict_locked-drop [] w e = e
evict_locked-drop (t ∷ rest) w e = refl

evict_locked_max :
    (ring : List Transaction) (w : Window) → (evict_locked ring w).max_replay ≡ w.max_replay
unfolding evict_locked
evict_locked_max [] w = refl
evict_locked_max (t ∷ rest) w = refl

drop-none : (n : ℕ) → drop {A = Transaction} n [] ≡ []
drop-none zero = refl
drop-none (suc n) = refl

drop-drop_one : (n : ℕ) (ring : List Transaction) → drop n (drop 1 ring) ≡ drop (suc n) ring
drop-drop_one n [] = drop-none n
drop-drop_one n (t ∷ rest) = refl

length-drop : (n : ℕ) (ts : List Transaction) → length (drop n ts) ≡ length ts - n
length-drop zero ts = ground arith
length-drop (suc n) [] = ground arith
length-drop (suc n) (t ∷ ts) = ground (arith, length-drop n ts)

-- With fuel for the ring's surplus, the loop drops the surplus from the front.
evict_over-drop :
    (fuel : ℕ) (w : Window)
    → length w.ring ≤ w.max_replay + fuel
    → (evict_over fuel w).ring ≡ drop (length w.ring - w.max_replay) w.ring
unfolding evict_over
evict_over-drop zero w h =
    ap (λ n. drop n w.ring) {x = 0} {y = length w.ring - w.max_replay} (omega arith)
evict_over-drop (suc fuel) w h = elim (Bool-cases (ltb w.max_replay (length w.ring))) [
  | inr e ↦ rw e (ap (λ n. drop n w.ring) {x = 0} {y = length w.ring - w.max_replay} (ground arith))
  | inl e ↦ rw e (
      let next = evict_locked w.ring w in
      let shorter : next.ring ≡ drop 1 w.ring = evict_locked-drop w.ring w refl in
      let max : next.max_replay ≡ w.max_replay = evict_locked_max w.ring w in
      let size : length next.ring ≡ length w.ring - 1 = ap length shorter ∙ length-drop 1 w.ring in
      let surplus : length next.ring - next.max_replay ≡ length w.ring - 1 - w.max_replay =
        ground arith in
      let one : suc (length w.ring - 1 - w.max_replay) ≡ length w.ring - w.max_replay =
        ground arith in
      evict_over-drop fuel next (ground arith)
      ∙ ap (λ n. drop n next.ring) surplus
      ∙ ap (drop (length w.ring - 1 - w.max_replay)) shorter
      ∙ drop-drop_one (length w.ring - 1 - w.max_replay) w.ring
      ∙ ap (λ n. drop n w.ring) one)
]

-- A new transaction joins the ring at the end, and the oldest leave it as far as there are more
-- than the configured number, which the ring therefore never exceeds.
pub push-drop :
    (t : Transaction) (w : Window)
    → ((push t w).ring ≡ drop (length w.ring + 1 - w.max_replay) (w.ring ++ t ∷ []))
      × (length (push t w).ring ≤ w.max_replay)
unfolding push
push-drop t w =
    let ring = w.ring ++ t ∷ [] in
    let grown : length ring ≡ length w.ring + 1 = length-append w.ring (t ∷ []) in
    let kept =
      evict_over-drop (length ring) (record w { received = some t.cursor; ring = ring })
        (ground arith) in
    let same = kept ∙ ap (λ n. drop (n - w.max_replay) ring) grown in
    (same, ground (arith, ap length same, length-drop (length w.ring + 1 - w.max_replay) ring))
