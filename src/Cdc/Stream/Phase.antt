-- ===== src/Cdc/Stream/Phase.antt =====
-- internal/cdc/decoder.go as the stream uses it: when `Consume` is in a transaction, and for which
-- messages it returns one.
use watchd.Base.{
  ℕ, ◌≡◌, refl, sym, ltb, leb, length, ◌-◌, ◌∙◌, Bool, true, false, List, Option, none, some,
  if◌then◌else◌, ok, ◌==◌, Void, Ensures, holds, fails, Ensures-bind, Ensures-require,
  Ensures-or_err, Ensures-ok, Result-cases, Option-cases, Bool-cases, inl, inr,
}
use watchd.Cdc.Transaction.{Change, Transaction}
use watchd.Cdc.Shape.{Shapes}
use watchd.Cdc.Relation.{new_relation_info, RelationInfo, RowMessage, decode_change}
use watchd.Cdc.Assembly.{Decoder, append, estimated_change_bytes, in_transaction}
use watchd.Cdc.Decoder.{
  Message, LogText, relation_message, begin_message, row_message, commit_message, metadata_message,
  other_message, as_row, check, recheck, skip, take_row, consume,
}

-- Is a transaction open after the message?
abbrev pub phase_after : Message → Bool → Bool
phase_after (begin_message xid) opened = true
phase_after (commit_message commit_lsn end_lsn) opened = false
phase_after m opened = opened

-- A transaction comes with a commit, always, and with nothing else; it ends where the commit says.
abbrev pub Emits : Message → Option Transaction → Type 0
Emits (commit_message commit_lsn end_lsn) none = Void
Emits (commit_message commit_lsn end_lsn) (some t) = t.cursor.lsn ≡ end_lsn
Emits m none = Unit
Emits m (some t) = Void

opened : (d : Decoder) (cs : List Change) → d.pending ≡ some cs → in_transaction d ≡ true
unfolding in_transaction
opened d cs e = rw e

append_open :
    (c : Change) (d : Decoder)
    → Ensures (λ (d' : Decoder). in_transaction d' ≡ in_transaction d) (append c d)
unfolding append in_transaction
append_open c d = Ensures-bind (Ensures-or_err d.pending _ (λ cs e. e)) λ cs e.
    Ensures-require (ltb (length cs) d.max_transaction_changes) _ λ few.
      Ensures-require (leb (estimated_change_bytes c) (d.max_transaction_bytes - d.pending_bytes)) _
        λ small. holds (sym (opened d cs e))

module _ (log : LogText) where
  check_open :
      (id : ℕ) (info : RelationInfo) (d : Decoder)
      → in_transaction (check log id info d) ≡ in_transaction d
  unfolding check in_transaction
  check_open id info d = elim (Option-cases d.shapes) [
    | inl e ↦ rw (e, check)
    | inr (s, e) ↦ rw (e, check)
  ]

  recheck_open :
      (s : Option Shapes) (id : ℕ) (info : RelationInfo) (d : Decoder)
      → in_transaction (recheck log s id info d) ≡ in_transaction d
  recheck_open none id info d = refl
  recheck_open (some s) id info d = elim (Bool-cases (info.checked == s.gen)) [
    | inl e ↦ rw e
    | inr e ↦ rw (e, check_open id info d)
  ]

  skip_open :
      (id : ℕ) (d : Decoder)
      → Ensures (λ (r : Decoder × Bool). in_transaction r.0 ≡ in_transaction d) (skip log id d)
  unfolding skip
  skip_open id d =
      Ensures-bind {Q = λ _. Unit {0}} (Ensures-or_err (d.relations id) _ (λ info e. tt))
        λ info _. holds (recheck_open d.shapes id info d)

  take_row_open :
      (id : ℕ) (m : RowMessage) (d : Decoder)
      → Ensures (λ (d' : Decoder). in_transaction d' ≡ in_transaction d) (take_row log id m d)
  unfolding take_row
  take_row_open id m d =
      Ensures-bind {Q = λ _. Unit {0}} (Ensures-or_err (d.relations id) _ (λ info e. tt)) λ info _.
        elim (Result-cases (as_row (decode_change info m d.max_value_bytes))) [
          | inl (c, e) ↦ rw e (append_open c d)
          | inr (x, e) ↦ rw e fails
        ]

  row_open :
      (skipped : Bool) (id : ℕ) (m : RowMessage) (d : Decoder)
      → Ensures
          (λ (d' : Decoder). in_transaction d' ≡ in_transaction d)
          (if skipped then ok d else take_row log id m d)
  row_open true id m d = holds refl
  row_open false id m d = take_row_open id m d

  abbrev Moves : Message → Decoder → Decoder × Option Transaction → Type 0
  Moves m d r = (in_transaction r.0 ≡ phase_after m (in_transaction d)) × Emits m r.1

  consume-Moves : (m : Message) (d : Decoder) → Ensures (Moves m d) (consume log m d)
  unfolding consume in_transaction
  consume-Moves (relation_message m) d =
      holds (check_open m.relation_id (new_relation_info m) d, tt)
  consume-Moves (begin_message xid) d = elim (Option-cases d.pending) [
    | inl e ↦ rw (e, consume) (holds (refl, tt))
    | inr (cs, e) ↦ rw (e, consume) fails
  ]
  consume-Moves (row_message id m) d =
      Ensures-bind (skip_open id d)
        λ r h. Ensures-bind (row_open r.1 id m r.0) λ d' h'. holds (h' ∙ h, tt)
  consume-Moves (commit_message commit_lsn end_lsn) d =
      Ensures-bind {Q = λ _. Unit {0}} (Ensures-or_err d.pending _ (λ cs e. tt))
        λ cs e. holds (refl, refl)
  consume-Moves metadata_message d = holds (refl, tt)
  consume-Moves other_message d = fails

  -- A message that is consumed opens a transaction if it begins one and closes it if it commits
  -- one, and a transaction comes out exactly of a commit.
  pub consume_moves :
      (m : Message) (d d' : Decoder) (t : Option Transaction)
      → consume log m d ≡ ok (d', t)
      → (in_transaction d' ≡ phase_after m (in_transaction d)) × Emits m t
  consume_moves m d d' t e = Ensures-ok (rw e at (consume-Moves m d))
