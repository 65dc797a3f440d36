-- ===== src/Cdc/Visibility.antt =====
-- internal/cdc/visibility.go, and the part of `Snapshot` that rests on it.
pub mod Widen
pub mod Parse
use watchd.Base.{
  ℕ, suc, zero, ◌+◌, ◌-◌, ◌*◌, ◌%◌, ◌^◌, Text, text_eq, if◌then◌else◌, Bool, true, false, not, ◌||◌,
  ◌&&◌, ◌++◌, List, [], ◌∷◌, Option, none, some, ltb, leb, ◌==◌, is_empty, Result, ok, err, ◌>>=◌,
  ◌>>◌, require, or_err, arith,
}
use watchd.Cdc.Error.{Error}
use watchd.Cdc.Cursor.{Cursor}
use watchd.Cdc.Transaction.{Transaction}

-- `inProgress` is a set, here the list of its elements.
pub record Visibility : Type 0 where
  pub xmin : ℕ
  pub xmax : ℕ
  pub in_progress : List ℕ

unfoldable pub contains : ℕ → List ℕ → Bool
contains x [] = false
contains x (y ∷ ys) = x == y || contains x ys

-- `int64(int32(d))` of a `uint32`, as a bit pattern of 64 bits.
abbrev pub sign_extend : ℕ → ℕ
sign_extend d = if ltb d (2 ^ 31) then d else d + 2 ^ 64 - 2 ^ 32

-- `widen`. An `int64` is its bit pattern, negative from 2 ^ 63 on.
unfoldable pub widen : Visibility → ℕ → ℕ
widen v xid =
    let distance = sign_extend ((xid + 2 ^ 32 - v.xmax % 2 ^ 32) % 2 ^ 32) in
    let full = (v.xmax + distance) % 2 ^ 64 in if leb (2 ^ 63) full then 0 else full

unfoldable pub includes : Visibility → ℕ → Bool
includes v xid =
    let full = widen v xid in
    if leb v.xmax full
    then false
    else if ltb full v.xmin
    then true
    else not (contains full v.in_progress)

pub record Snapshot : Type 0 where
  pub source_id : Text
  pub cursor : Cursor
  pub visibility : Option Visibility

unfoldable pub new_snapshot : Text → ℕ → Option Visibility → Snapshot
new_snapshot source_id cursor visibility = record {
  source_id = source_id;
  cursor = record { source_id = source_id; lsn = cursor };
  visibility = visibility;
}

unfoldable pub covers : Snapshot → Transaction → Result Error Bool
covers s t =
    if not (text_eq t.cursor.source_id s.cursor.source_id)
    then err Error.different_sources
    else elim s.visibility [ none ↦ ok false | some v ↦ ok (includes v t.xid) ]

-- `strings.Split` at a separator of one byte: at least one part.
unfoldable pub split : ℕ → Text → List Text
split sep [] = [] ∷ []
split sep (c ∷ rest) = elim (split sep rest) [
  | [] ↦ []
  | part ∷ parts ↦ if c == sep then [] ∷ part ∷ parts else (c ∷ part) ∷ parts
]

-- The digits of `strconv.ParseUint(s, 10, 64)`, after those read into `n`.
unfoldable pub parse_digits : ℕ → Text → Option ℕ
parse_digits n [] = some n
parse_digits n (c ∷ rest) =
    let more = parse_digits (n * 10 + (c - b'0')) rest in
    if leb b'0' c && leb c b'9' && ltb (n * 10 + (c - b'0')) (2 ^ 64) then more else none

unfoldable pub parse_uint : Text → Result Error ℕ
unfolding parse_digits
parse_uint s = do
  require (not (is_empty s)) Error.postgres_server
  or_err (parse_digits 0 s) Error.postgres_server

-- The loop over the fields of the in-progress list.
unfoldable pub parse_running : ℕ → ℕ → List Text → Result Error (List ℕ)
parse_running xmin xmax [] = ok []
parse_running xmin xmax (field ∷ fields) = do
  xid ← parse_uint field
  require (leb xmin xid && ltb xid xmax) Error.postgres_server
  rest ← parse_running xmin xmax fields
  ok (xid ∷ rest)

unfoldable pub parse_parts : List Text → Result Error Visibility
parse_parts (low ∷ high ∷ running ∷ []) = do
  xmin ← parse_uint low
  xmax ← parse_uint high
  require (leb xmin xmax) Error.postgres_server
  in_progress ← if is_empty running then ok [] else parse_running xmin xmax (split b',' running)
  ok (record { xmin = xmin; xmax = xmax; in_progress = in_progress })
parse_parts _ = err Error.postgres_server

unfoldable pub parse_visibility : Text → Result Error Visibility
unfolding parse_parts parse_running parse_uint split
parse_visibility s = parse_parts (split b':' s)
