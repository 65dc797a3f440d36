-- ===== src/Cdc/Decoder/Limits.antt =====
-- The limits of internal/cdc/decoder.go on a transaction in flight.
use watchd.Base.{
  ℕ, ◌+◌, ◌-◌, ◌≤◌, ◌≡◌, refl, Bool, true, false, List, [], ◌∷◌, ◌++◌, Option, none, some, ok,
  length, length-append, leb, ltb, ◌==◌, arith, Ensures, holds, fails, Ensures-bind,
  Ensures-require, Ensures-or_err, Ensures-ok, if◌then◌else◌, Result-cases, Option-cases,
  Bool-cases, inl, inr,
}
use watchd.Cdc.Transaction.{Change, Transaction}
use watchd.Cdc.Shape.{Shapes}
use watchd.Cdc.Relation.{new_relation_info, RelationInfo, RowMessage, decode_change}
use watchd.Cdc.Assembly.{Decoder, append, estimated_change_bytes}
use watchd.Cdc.Decoder.{
  Message, LogText, relation_message, begin_message, row_message, commit_message, metadata_message,
  other_message, as_row, check, recheck, skip, take_row, consume,
}

-- What the changes are estimated to retain.
abbrev pub total : List Change → ℕ
total [] = 0
total (c ∷ cs) = estimated_change_bytes c + total cs

total-append :
    (cs : List Change) (c : Change) → total (cs ++ c ∷ []) ≡ total cs + estimated_change_bytes c
total-append [] c = omega arith
total-append (x ∷ cs) c = omega (arith, total-append cs c)

-- The transaction in flight is within its limits, and its size is counted right.
abbrev pub Within : Option (List Change) → ℕ → ℕ → ℕ → Type 0
Within none bytes max_changes max_bytes = Unit
Within (some cs) bytes max_changes max_bytes =
    (length cs ≤ max_changes) × (bytes ≡ total cs) × (bytes ≤ max_bytes)

abbrev pub Bounded : Decoder → Type 0
Bounded d = Within d.pending d.pending_bytes d.max_transaction_changes d.max_transaction_bytes

append-Bounded : (c : Change) (d : Decoder) → Bounded d → Ensures Bounded (append c d)
unfolding append
append-Bounded c d b = Ensures-bind (Ensures-or_err d.pending _ (λ cs e. rw e at b)) λ cs w.
    Ensures-require (ltb (length cs) d.max_transaction_changes) _ λ few.
      Ensures-require (leb (estimated_change_bytes c) (d.max_transaction_bytes - d.pending_bytes)) _
        λ small. holds (
          ground (arith, length-append cs (c ∷ [])),
          ground (arith, total-append cs c),
          ground arith,
        )

module _ (log : LogText) where
  check-Bounded :
      (id : ℕ) (info : RelationInfo) (d : Decoder) → Bounded d → Bounded (check log id info d)
  unfolding check
  check-Bounded id info d b = elim (Option-cases d.shapes) [
    | inl e ↦ rw (e, check) b
    | inr (s, e) ↦ rw (e, check) b
  ]

  recheck-Bounded :
      (s : Option Shapes) (id : ℕ) (info : RelationInfo) (d : Decoder)
      → Bounded d
      → Bounded (recheck log s id info d)
  recheck-Bounded none id info d b = b
  recheck-Bounded (some s) id info d b = elim (Bool-cases (info.checked == s.gen)) [
    | inl e ↦ rw e b
    | inr e ↦ rw e (check-Bounded id info d b)
  ]

  take_row-Bounded :
      (id : ℕ) (m : RowMessage) (d : Decoder) → Bounded d → Ensures Bounded (take_row log id m d)
  unfolding take_row
  take_row-Bounded id m d b =
      Ensures-bind {Q = λ _. Unit {0}} (Ensures-or_err (d.relations id) _ (λ info e. tt)) λ info _.
        elim (Result-cases (as_row (decode_change info m d.max_value_bytes))) [
          | inl (c, e) ↦ rw e (append-Bounded c d b)
          | inr (x, e) ↦ rw e fails
        ]

  -- What a message may lead to: bounded again, and a transaction only with all that was pending.
  abbrev Outcome : Decoder → Decoder × Option Transaction → Type 0
  Outcome d r =
      Bounded r.0
      × ((t : Transaction)
          → r.1 ≡ some t
          → (d.pending ≡ some t.changes) × (t.incompatible ≡ d.events) × (r.0.pending ≡ none))

  quiet : (d d' : Decoder) → Bounded d' → Outcome d (d', none)
  quiet d d' b = (b, λ t e. absurd (cc))

  skip-Ensures :
      (id : ℕ) (d : Decoder)
      → Bounded d
      → Ensures (λ (r : Decoder × Bool). Bounded r.0) (skip log id d)
  unfolding skip
  skip-Ensures id d b =
      Ensures-bind {Q = λ _. Unit {0}} (Ensures-or_err (d.relations id) _ (λ info e. tt))
        λ info _. holds (recheck-Bounded d.shapes id info d b)

  row-Ensures :
      (skipped : Bool) (id : ℕ) (m : RowMessage) (d : Decoder)
      → Bounded d
      → Ensures Bounded (if skipped then ok d else take_row log id m d)
  row-Ensures true id m d b = holds b
  row-Ensures false id m d b = take_row-Bounded id m d b

  consume-Ensures : (m : Message) (d : Decoder) → Bounded d → Ensures (Outcome d) (consume log m d)
  unfolding consume
  consume-Ensures (relation_message m) d b = holds (
      quiet d (check log m.relation_id (new_relation_info m) d)
        (check-Bounded m.relation_id (new_relation_info m) d b))
  consume-Ensures (begin_message xid) d b = elim (Option-cases d.pending) [
    | inl e ↦ rw (e, consume) (holds ((omega arith, refl, omega arith), λ t same. absurd (cc)))
    | inr (cs, e) ↦ rw (e, consume) fails
  ]
  consume-Ensures (row_message id m) d b =
      Ensures-bind (skip-Ensures id d b)
        λ r b'. Ensures-bind (row-Ensures r.1 id m r.0 b') λ d' b''. holds (quiet d d' b'')
  consume-Ensures (commit_message commit_lsn end_lsn) d b =
      Ensures-bind (Ensures-or_err d.pending _ (λ cs e. e))
        λ cs e. holds (tt, λ t same. ground (arith, e))
  consume-Ensures metadata_message d b = holds (quiet d d b)
  consume-Ensures other_message d b = fails

  -- Whatever message is consumed without an error, the transaction in flight stays within the
  -- limits on its changes and their estimated size, and the size is counted right. A transaction
  -- comes out only with all changes that were pending and all incompatible relations found since
  -- the last one, and nothing is pending then.
  pub consume_limits :
      (m : Message) (d d' : Decoder) (t : Option Transaction)
      → Bounded d
      → consume log m d ≡ ok (d', t)
      → Bounded d'
        × ((u : Transaction)
            → t ≡ some u
            → (d.pending ≡ some u.changes) × (u.incompatible ≡ d.events) × (d'.pending ≡ none))
  consume_limits m d d' t b e = Ensures-ok (rw e at (consume-Ensures m d b))
