-- ===== src/Cdc/Retention.antt =====
-- internal/cdc/retention_policy.go and retention.go: how much WAL the slot may retain, and what the
-- policy does with each sample of it. The arithmetic of float64 is a parameter (`Floats`); an `int64`
-- is a ℤ. Queries, tickers, logs and metrics are left out.
pub mod Stops
use watchd.Base.{
  ℤ, pos, negsuc, ℕ, zero, suc, ◌+◌, ◌-◌, ◌*◌, ◌%◌, ◌^◌, Bool, true, false, not, ◌&&◌, ◌||◌, List,
  [], ◌∷◌, Option, none, some, if◌then◌else◌, leb, ltb, ◌==◌, Text, codes, text_eq, Result, ok, err,
  ◌>>=◌,
}
use watchd.Cdc.Error.{Error}
use watchd.Cdc.Visibility.{parse_uint}

pub data RetentionState : Type 0 where
  retention_ok retention_warn retention_degrade retention_terminal : RetentionState

-- The states in their order, as numbers.
abbrev pub rank : RetentionState → ℕ
rank retention_ok = 0
rank retention_warn = 1
rank retention_degrade = 2
rank retention_terminal = 3

-- float64: the quotient of two non-negative integers, a threshold less the hysteresis of 0.05, and
-- the order.
pub record Floats {ℓ} (F : Type ℓ) : Type ℓ where
  pub quotient : ℕ → ℕ → F
  pub one : F
  pub less_hysteresis : F → F
  pub at_least : F → F → Bool

-- `max(current, target)`
abbrev pub max_state : RetentionState → RetentionState → RetentionState
max_state a b = if leb (rank b) (rank a) then a else b

module _ {ℓ} {F : Type ℓ} (f : Floats F) (warn degrade : F) where
  -- The switch, below the budget.
  abbrev pub target_of : F → RetentionState
  target_of ratio =
      if f.at_least ratio degrade
      then retention_degrade
      else if f.at_least ratio warn
      then retention_warn
      else retention_ok

  -- A turn of the loop in a state with its threshold: it leaves the loop with that state, or goes
  -- on below it.
  abbrev pub held_or : F → RetentionState → RetentionState → F → RetentionState → RetentionState
  held_or ratio target current threshold lower =
      if not (ltb (rank target) (rank current))
      then current
      else if f.at_least ratio (f.less_hysteresis threshold)
      then current
      else lower

  -- The loop from each state; `current--` is the state before it.
  abbrev pub fall : F → RetentionState → RetentionState → RetentionState
  fall ratio target retention_ok = retention_ok
  fall ratio target retention_warn = held_or ratio target retention_warn warn retention_ok
  fall ratio target retention_degrade =
      held_or ratio target retention_degrade degrade
        (held_or ratio target retention_warn warn retention_ok)
  fall ratio target retention_terminal = held_or ratio target retention_terminal warn (
      held_or ratio target retention_degrade degrade
        (held_or ratio target retention_warn warn retention_ok))

  -- A sample with a budget, from a state that is not final.
  abbrev pub next_in_budget : RetentionState → F → RetentionState
  next_in_budget current ratio =
      if f.at_least ratio f.one
      then retention_terminal
      else max_state (fall ratio (target_of ratio) current) (target_of ratio)

  -- `nextRetentionState`, by the signs of its integers.
  unfoldable pub next_retention_state : RetentionState → ℤ → ℤ → RetentionState
  next_retention_state current retained (negsuc budget) = current
  next_retention_state current (negsuc retained) (pos budget) = current
  next_retention_state current (pos retained) (pos budget) =
      if budget == 0 || rank current == 3
      then current
      else next_in_budget current (f.quotient retained budget)

-- `effectiveRetentionBudget`: `serverBytes >= configuredBytes` on int64.
abbrev pub at_least_int : ℤ → ℤ → Bool
at_least_int (pos a) (pos b) = leb b a
at_least_int (pos a) (negsuc b) = true
at_least_int (negsuc a) (pos b) = false
at_least_int (negsuc a) (negsuc b) = leb a b

unfoldable pub effective_retention_budget : ℤ → ℤ → Bool → ℤ
effective_retention_budget configured server unbounded =
    if unbounded || at_least_int server configured then configured else server

-- An `int64` from the 64 bits of a product.
abbrev pub wrapped : ℕ → ℤ
wrapped n = if ltb n (2 ^ 63) then pos n else negsuc (2 ^ 64 - 1 - n)

-- `walKeepSizeUnitMultipliers`.
unfoldable pub unit_multiplier : Text → Option ℕ
unit_multiplier unit =
    if text_eq unit (codes "B")
    then some 1
    else if text_eq unit (codes "kB")
    then some (2 ^ 10)
    else if text_eq unit (codes "MB")
    then some (2 ^ 20)
    else if text_eq unit (codes "GB")
    then some (2 ^ 30)
    else if text_eq unit (codes "TB")
    then some (2 ^ 40)
    else none

-- The number of a sign and a magnitude, within an `int64`.
abbrev pub negative : ℕ → ℤ
negative zero = pos 0
negative (suc n) = negsuc n

abbrev pub signed : Bool → ℕ → Result Error ℤ
signed true n = if leb n (2 ^ 63) then ok (negative n) else err Error.postgres_server
signed false n = if ltb n (2 ^ 63) then ok (pos n) else err Error.postgres_server

-- `strconv.ParseInt(s, 10, 64)`.
unfoldable pub parse_int : Text → Result Error ℤ
unfolding parse_uint
parse_int [] = err Error.postgres_server
parse_int (c ∷ cs) =
    if c == b'-'
    then parse_uint cs >>= signed true
    else if c == b'+'
    then parse_uint cs >>= signed false
    else parse_uint (c ∷ cs) >>= signed false

-- `readMaxSlotWALKeepSize` of a parsed setting: the bytes, and is it unbounded?
abbrev pub keep_bytes : ℤ → Text → Result Error (ℤ × Bool)
keep_bytes (negsuc n) unit = ok (pos 0, true)
keep_bytes (pos n) unit = elim (unit_multiplier unit) [
  | none ↦ err Error.postgres_server
  | some k ↦ ok (wrapped ((n * k) % 2 ^ 64), false)
]

-- `readMaxSlotWALKeepSize`, from the setting and its unit.
unfoldable pub keep_size : Text → Text → Result Error (ℤ × Bool)
unfolding parse_int unit_multiplier
keep_size setting unit = parse_int setting >>= λ n. keep_bytes n unit

-- What `sampleRetention` reads: the retained WAL, if the slot has a position, and the setting.
pub record Sample : Type 0 where
  pub retained : Option ℤ
  pub setting : Text
  pub unit : Text

-- The policy's state and how often it stopped the stream.
pub record Policy : Type 0 where
  pub state : RetentionState
  pub stops : ℕ

module _ {ℓ} {F : Type ℓ} (f : Floats F) (warn degrade : F) (configured : ℤ) where
  -- `applyRetentionPolicy`.
  unfoldable pub apply_retention_policy : ℤ → ℤ → Policy → Policy
  unfolding next_retention_state
  apply_retention_policy retained budget p =
      let next = next_retention_state f warn degrade p.state retained budget in
      if rank next == rank p.state
      then p
      else record { state = next; stops = if rank next == 3 then p.stops + 1 else p.stops }

  -- `sampleRetention` once its queries are answered; an error leaves the policy as it is.
  unfoldable pub sample_retention : Sample → Policy → Policy
  unfolding keep_size effective_retention_budget apply_retention_policy
  sample_retention s p = elim (keep_size s.setting s.unit) [
    | err e ↦ p
    | ok k ↦ elim s.retained [
      | none ↦ p
      | some retained ↦
          apply_retention_policy retained (effective_retention_budget configured k.0 k.1) p
    ]
  ]

  -- The samples of `monitorRetentionBudget`.
  unfoldable pub sample_all : List Sample → Policy → Policy
  unfolding sample_retention
  sample_all [] p = p
  sample_all (s ∷ ss) p = sample_all ss (sample_retention s p)
