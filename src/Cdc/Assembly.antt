-- ===== src/Cdc/Assembly.antt =====
-- internal/cdc/decoder.go: the state of the `Decoder` with its limits, the estimated sizes, and
-- `append`.
use watchd.Base.{
  ℤ, pos, negsuc, ◌*◌, ◌^◌, ◌==◌, ℕ, ◌+◌, ◌-◌, Bool, true, false, List, [], ◌∷◌, ◌++◌, Option, none,
  some, if◌then◌else◌, Text, Result, ok, ◌>>=◌, ◌>>◌, require, or_err, length, leb, ltb, ◌==◌,
}
use watchd.Cdc.Transaction.{
  Operation, insert, delete, Value, null, text, unchanged_toast, Key, Change, Incompatible,
}
use watchd.Cdc.Row.{RowError}
use watchd.Cdc.Shape.{Shapes}
use watchd.Cdc.Relation.{RelationInfo}

pub data DecodeError : Type 0 where
  transaction_in_progress : DecodeError
  no_transaction : DecodeError
  too_many_changes : DecodeError
  too_large : DecodeError
  unknown_relation : DecodeError
  unsupported_message : DecodeError
  row : RowError → DecodeError

-- `Decoder`. `pending` is `none` outside a transaction.
pub record Decoder : Type 0 where
  pub relations : ℕ → Option RelationInfo
  pub pending : Option (List Change)
  pub pending_xid : ℕ
  pub pending_bytes : ℕ
  pub max_transaction_bytes : ℕ
  pub max_transaction_changes : ℕ
  pub max_value_bytes : ℕ
  pub shapes : Option Shapes
  pub events : List Incompatible

-- `if n <= 0 { n = fallback }`
abbrev pub limit_or : ℤ → ℕ → ℕ
limit_or (negsuc n) fallback = fallback
limit_or (pos n) fallback = if n == 0 then fallback else n

-- `NewDecoderWithLimits`.
unfoldable pub new_decoder_with_limits : ℤ → ℤ → ℤ → Decoder
new_decoder_with_limits max_transaction_bytes max_transaction_changes max_value_bytes = record {
  relations = λ _. none;
  pending = none;
  pending_xid = 0;
  pending_bytes = 0;
  max_transaction_bytes = limit_or max_transaction_bytes (16 * 2 ^ 20);
  max_transaction_changes = limit_or max_transaction_changes 100_000;
  max_value_bytes = limit_or max_value_bytes (2 ^ 20);
  shapes = none;
  events = [];
}

-- `NewDecoder`.
unfoldable pub new_decoder : Decoder
unfolding new_decoder_with_limits
new_decoder = new_decoder_with_limits (pos (16 * 2 ^ 20)) (pos 100_000) (pos (2 ^ 20))

-- `InTransaction`.
unfoldable pub in_transaction : Decoder → Bool
in_transaction d = elim d.pending [ none ↦ false | some changes ↦ true ]

-- `Pending`: the number of changes in flight, none outside a transaction, and their size.
unfoldable pub pending_footprint : Decoder → ℕ × ℕ
pending_footprint d = (elim d.pending [ none ↦ 0 | some changes ↦ length changes ], d.pending_bytes)

-- `estimatedValueBytes`.
abbrev pub estimated_value_bytes : Value → ℕ
estimated_value_bytes (text t) = length t
estimated_value_bytes null = 1
estimated_value_bytes unchanged_toast = 1

abbrev pub operation_bytes : Operation → ℕ
operation_bytes insert = 6
operation_bytes Operation.update = 6
operation_bytes delete = 6

unfoldable pub key_bytes : Key → ℕ
key_bytes [] = 0
key_bytes ((k, v) ∷ rest) = length k + length v + key_bytes rest

-- The loop over the values, each with the column of its index.
unfoldable pub values_bytes : List Text → List Value → ℕ
values_bytes columns [] = 0
values_bytes [] (v ∷ values) = estimated_value_bytes v + values_bytes [] values
values_bytes (c ∷ columns) (v ∷ values) =
    length c + estimated_value_bytes v + values_bytes columns values

-- `estimatedChangeBytes`.
unfoldable pub estimated_change_bytes : Change → ℕ
estimated_change_bytes c =
    256
    + operation_bytes c.operation
    + length c.table
    + key_bytes c.key
    + values_bytes c.columns c.values

-- `append`.
unfoldable pub append : Change → Decoder → Result DecodeError Decoder
append change d = do
  pending ← or_err d.pending no_transaction
  require (ltb (length pending) d.max_transaction_changes) too_many_changes
  require (leb (estimated_change_bytes change) (d.max_transaction_bytes - d.pending_bytes))
      too_large
  ok (record d {
    pending = some (pending ++ change ∷ []);
    pending_bytes = d.pending_bytes + estimated_change_bytes change;
  })
