-- ===== src/Cdc/Retention/Stops.antt =====
-- internal/cdc/retention_policy.go: the policy stops the stream once, for the first sample that
-- reaches a budget above zero.
use watchd.Base.{
  ℤ, pos, negsuc, ℕ, ◌+◌, ◌<◌, ◌≡◌, ◌⊎◌, refl, Bool, true, false, not, ◌&&◌, ◌||◌, List, [], ◌∷◌,
  Option, none, some, if◌then◌else◌, ◌==◌, Result, ok, err, arith, Bool-cases, Option-cases,
  Result-cases, inl, inr,
}
use watchd.Cdc.Error.{Error}
use watchd.Cdc.Retention.{
  RetentionState, retention_ok, retention_warn, retention_degrade, retention_terminal, rank, Floats,
  next_in_budget, next_retention_state, effective_retention_budget, keep_size, Sample, Policy,
  apply_retention_policy, sample_retention, sample_all,
}

module _ {ℓ} {F : Type ℓ} (f : Floats F) (warn degrade : F) (configured : ℤ) where
  -- A budget of zero or less, which `max_slot_wal_keep_size = 0` sets, switches the policy off.
  abbrev pub has_budget : ℤ → Bool
  has_budget (pos budget) = not (budget == 0)
  has_budget (negsuc budget) = false

  -- Retained WAL of at least a budget that is not negative.
  abbrev pub at_budget : ℤ → ℤ → Bool
  at_budget (pos retained) (pos budget) = f.at_least (f.quotient retained budget) f.one
  at_budget (pos retained) (negsuc budget) = false
  at_budget (negsuc retained) budget = false

  abbrev pub is_over : ℤ → ℤ → Bool
  is_over retained budget = has_budget budget && at_budget retained budget

  abbrev pub reaches_from : Result Error (ℤ × Bool) → Option ℤ → Bool
  reaches_from (err e) retained = false
  reaches_from (ok k) none = false
  reaches_from (ok k) (some retained) =
      is_over retained (effective_retention_budget configured k.0 k.1)

  -- A sample that reaches the budget in effect, where that is above zero.
  abbrev pub reaches : Sample → Bool
  reaches s = reaches_from (keep_size s.setting s.unit) s.retained

  abbrev pub some_reaches : List Sample → Bool
  some_reaches [] = false
  some_reaches (s ∷ ss) = reaches s || some_reaches ss

  next_in_budget_low :
      (current : RetentionState) (ratio : F)
      → rank current < 3
      → f.at_least ratio f.one ≡ false
      → rank (next_in_budget f warn degrade current ratio) < 3
  next_in_budget_low retention_ok ratio low below = ground (arith, below)
  next_in_budget_low retention_warn ratio low below = ground (arith, below)
  next_in_budget_low retention_degrade ratio low below = ground (arith, below)
  next_in_budget_low retention_terminal ratio low below = absurd (omega arith)

  -- What follows a sample that reaches the budget, and one that does not.
  abbrev Follows : Bool → Policy → Policy → Type 0
  Follows true p p' = (p'.state ≡ retention_terminal) × (p'.stops ≡ p.stops + 1)
  Follows false p p' = (rank p'.state < 3) × (p'.stops ≡ p.stops)

  not_equal : (a b : ℕ) → (a < b) ⊎ (b < a) → (a == b) ≡ false
  not_equal a b h = ground arith

  moves :
      (next : RetentionState) (p : Policy) (over : Bool)
      → rank p.state < 3
      → (over ≡ true → next ≡ retention_terminal)
      → (over ≡ false → rank next < 3)
      → Follows over p (
          if rank next == rank p.state
          then p
          else record { state = next; stops = if rank next == 3 then p.stops + 1 else p.stops })
  moves next p true low up down =
      rw (up refl) (rw (not_equal 3 (rank p.state) (inr low)) (refl, refl))
  moves next p false low up down = elim (Bool-cases (rank next == rank p.state)) [
    | inl e ↦ rw e (low, refl)
    | inr e ↦ rw e (down refl, rw (not_equal (rank next) 3 (inl (down refl))) refl)
  ]

  apply_retention_policy-Follows :
      (retained budget : ℤ) (p : Policy)
      → rank p.state < 3
      → Follows
          (is_over retained budget)
          p
          (apply_retention_policy f warn degrade configured retained budget p)
  unfolding apply_retention_policy next_retention_state
  apply_retention_policy-Follows (negsuc r) (negsuc b) p low =
      moves p.state p false low (λ e. absurd (cc)) (λ e. low)
  apply_retention_policy-Follows (pos r) (negsuc b) p low =
      moves p.state p false low (λ e. absurd (cc)) (λ e. low)
  apply_retention_policy-Follows (negsuc r) (pos b) p low = elim (Bool-cases (b == 0)) [
    | inl z ↦ rw z (moves p.state p false low (λ e. absurd (cc)) (λ e. low))
    | inr z ↦ rw z (moves p.state p false low (λ e. absurd (cc)) (λ e. low))
  ]
  apply_retention_policy-Follows (pos r) (pos b) p low = elim (Bool-cases (b == 0)) [
    | inl z ↦
        rw (z, apply_retention_policy, next_retention_state)
          (moves p.state p false low (λ e. absurd (cc)) (λ e. low))
    | inr z ↦
        rw (z, not_equal (rank p.state) 3 (inl low), apply_retention_policy, next_retention_state)
          (moves (next_in_budget f warn degrade p.state (f.quotient r b)) p
            (f.at_least (f.quotient r b) f.one) low (λ e. rw e refl)
            (next_in_budget_low p.state (f.quotient r b) low))
  ]

  sample_retention-Follows :
      (s : Sample) (p : Policy)
      → rank p.state < 3
      → Follows (reaches s) p (sample_retention f warn degrade configured s p)
  unfolding sample_retention
  sample_retention-Follows s p low = elim (Result-cases (keep_size s.setting s.unit)) [
    | inr (x, e) ↦ rw (e, sample_retention) (low, refl)
    | inl (k, e) ↦ elim (Option-cases s.retained) [
      | inl n ↦ rw (e, n, sample_retention) (low, refl)
      | inr (retained, n) ↦
          rw (e, n, sample_retention)
            (apply_retention_policy-Follows retained (effective_retention_budget configured k.0 k.1)
              p low)
    ]
  ]

  next_retention_state_final :
      (retained budget : ℤ)
      → next_retention_state f warn degrade retention_terminal retained budget ≡ retention_terminal
  unfolding next_retention_state
  next_retention_state_final (pos r) (negsuc b) = refl
  next_retention_state_final (negsuc r) (negsuc b) = refl
  next_retention_state_final (negsuc r) (pos b) = refl
  next_retention_state_final (pos r) (pos b) = ground arith

  -- A policy that stopped the stream stays as it is.
  sample_retention_final :
      (s : Sample) (p : Policy)
      → p.state ≡ retention_terminal
      → sample_retention f warn degrade configured s p ≡ p
  unfolding sample_retention apply_retention_policy
  sample_retention_final s p final = elim (Result-cases (keep_size s.setting s.unit)) [
    | inr (x, e) ↦ rw (e, sample_retention) refl
    | inl (k, e) ↦ elim (Option-cases s.retained) [
      | inl n ↦ rw (e, n, sample_retention) refl
      | inr (retained, n) ↦
          let stays =
            next_retention_state_final retained (effective_retention_budget configured k.0 k.1) in
          rw (e, n, sample_retention, apply_retention_policy) (rw (final, stays) refl)
    ]
  ]

  sample_all_final :
      (ss : List Sample) (p : Policy)
      → p.state ≡ retention_terminal
      → sample_all f warn degrade configured ss p ≡ p
  unfolding sample_all
  sample_all_final [] p final = refl
  sample_all_final (s ∷ ss) p final =
      rw (sample_retention_final s p final) (sample_all_final ss p final)

  -- From a state that is not final, the samples make the policy final, and stop the stream exactly
  -- once, where one of them has a budget in effect above zero and retains at least as much; where
  -- none does, the policy is not final and does not stop the stream. A sample whose budget in effect
  -- is zero, as `max_slot_wal_keep_size = 0` sets it, never stops it, however much is retained.
  pub sample_all_stops :
      (ss : List Sample) (p : Policy)
      → rank p.state < 3
      → ((rank (sample_all f warn degrade configured ss p).state == 3) ≡ some_reaches ss)
        × ((sample_all f warn degrade configured ss p).stops
            ≡ (if some_reaches ss then p.stops + 1 else p.stops))
  unfolding sample_all
  sample_all_stops [] p low = (not_equal (rank p.state) 3 (inl low), refl)
  sample_all_stops (s ∷ ss) p low =
      let p' = sample_retention f warn degrade configured s p in
      let follows = sample_retention-Follows s p low in
      elim (Bool-cases (reaches s)) [
        | inl e ↦
            let done : Follows true p p' = rw e at follows in
            rw (sample_all_final ss p' done.0, e, sample_all) (rw done.0 refl, done.1)
        | inr e ↦
            let quiet : Follows false p p' = rw e at follows in
            rw (e, sample_all) (rw quiet.1 at (sample_all_stops ss p' quiet.0))
      ]
