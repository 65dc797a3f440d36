-- ===== src/Server/Rows.antt =====
-- `sendRows` of internal/server/server.go: how the rows of a snapshot are packed into messages.
use mathlib.Core.List.{append-nil, append_assoc}
use watchd.Base.{
  ℕ, ◌+◌, ◌≤◌, ◌≡◌, refl, sym, ap, ◌∙◌, ◌⊎◌, List, [], ◌∷◌, ◌++◌, map, none, some, ltb, length, All,
  All-append, arith, Bool-cases, inl, inr,
}
use watchd.Wire.{Values, WatchResponse, snapshot_rows}
use watchd.Server.{
  Server, Proto, Answer, Sent, and_then, send_message, flush, pack_rows, send_rows, convert_row,
}
use watchd.Cdc.Cursor.{LsnText}
use watchd.Watch.Event.{SnapshotRow}

module _ (proto : Proto) (max : ℕ) where
  abbrev pub total : List Values → ℕ
  total [] = 0
  total (row ∷ rows) = proto.size row + total rows

  total-append :
      (rows : List Values) (row : Values) → total (rows ++ row ∷ []) ≡ total rows + proto.size row
  total-append [] row = omega arith
  total-append (r ∷ rows) row = omega (arith, total-append rows row)

  -- A message of rows: not empty, and within the limit unless it is a single row.
  abbrev pub Fits : List Values → Type 0
  Fits rows = (1 ≤ length rows) × ((total rows ≤ max) ⊎ (length rows ≡ 1))

  -- A message that is being collected may be empty.
  abbrev Collects : List Values → Type 0
  Collects rows = (total rows ≤ max) ⊎ (length rows ≡ 1)

abbrev pub concat : List (List Values) → List Values
concat [] = []
concat (rows ∷ more) = rows ++ concat more

-- What was sent for the rows: messages that hold all of them in order.
abbrev pub Packs : Proto → ℕ → List Values → List WatchResponse → List WatchResponse → Type 0
Packs proto max rows before after =
    (groups : List (List Values)) × (after ≡ before ++ map snapshot_rows groups)
    × (concat groups ≡ rows)
    × All (Fits proto max) groups

concat-append : (xs ys : List (List Values)) → concat (xs ++ ys) ≡ concat xs ++ concat ys
concat-append [] ys = refl
concat-append (x ∷ xs) ys =
    ap (λ l. x ++ l) (concat-append xs ys) ∙ sym (append_assoc x (concat xs) (concat ys))

map-append {ℓ κ} :
    {A : Type ℓ} {B : Type κ} (f : A → B) (xs ys : List A) → map f (xs ++ ys) ≡ map f xs ++ map f ys
map-append f [] ys = refl
map-append f (x ∷ xs) ys = ap (λ l. f x ∷ l) (map-append f xs ys)

module _ (proto : Proto) (lsn : LsnText) (s : Server) (answer : Answer) where
  flush-Packs :
      (message : List Values) (sent : List WatchResponse)
      → Collects proto s.max_rows_message_bytes message
      → Packs proto s.max_rows_message_bytes message sent (flush answer message sent).0
  unfolding flush send_message
  flush-Packs [] sent c = ([], sym (append-nil sent), refl, tt)
  flush-Packs (row ∷ rows) sent c =
      ((row ∷ rows) ∷ [], refl, append-nil (row ∷ rows), ((omega arith, c), tt))

  -- The rows that were flushed, and then the others.
  and_then-Packs :
      (first others : List Values) (sent : List WatchResponse) (q : Sent)
      (k : List WatchResponse → Sent)
      → Packs proto s.max_rows_message_bytes first sent q.0
      → ((sent' : List WatchResponse)
          → (k sent').1 ≡ none
          → Packs proto s.max_rows_message_bytes others sent' (k sent').0)
      → (and_then q k).1 ≡ none
      → Packs proto s.max_rows_message_bytes (first ++ others) sent (and_then q k).0
  and_then-Packs first others sent (sent', some e) k a b worked = absurd (cc)
  and_then-Packs first others sent (sent', none) k a b worked =
      let more = b sent' worked in
      (
        a.0 ++ more.0,
        more.1
            ∙ ap (λ l. l ++ map snapshot_rows more.0) a.1
            ∙ append_assoc sent (map snapshot_rows a.0) (map snapshot_rows more.0)
            ∙ ap (λ l. sent ++ l) (sym (map-append snapshot_rows a.0 more.0)),
        concat-append a.0 more.0 ∙ rw (a.2, more.2) refl,
        All-append (Fits proto s.max_rows_message_bytes) a.0 more.0 a.3 more.3,
      )

  pack_rows-Packs :
      (rows message : List Values) (bytes : ℕ) (sent : List WatchResponse)
      → bytes ≡ total proto s.max_rows_message_bytes message
      → Collects proto s.max_rows_message_bytes message
      → (pack_rows proto lsn s answer rows message bytes sent).1 ≡ none
      → Packs proto s.max_rows_message_bytes
          (message ++ rows)
          sent
          (pack_rows proto lsn s answer rows message bytes sent).0
  unfolding pack_rows
  pack_rows-Packs [] message bytes sent same c worked =
      rw (append-nil message) (flush-Packs message sent c)
  pack_rows-Packs (row ∷ rows) message bytes sent same c worked =
      let grown = total-append proto s.max_rows_message_bytes message row in
      elim (Bool-cases (ltb s.max_rows_message_bytes (bytes + proto.size row))) [
        | inr f ↦
            let next =
              pack_rows-Packs rows (message ++ row ∷ []) (bytes + proto.size row) sent
                (omega (arith, same, grown)) (inl (ground (arith, same, grown, f)))
                (rw (f, pack_rows) at worked) in
            rw (f, pack_rows) (rw (append_assoc message (row ∷ []) rows) at next)
        | inl f ↦
            rw (f, pack_rows)
              (and_then-Packs message (row ∷ rows) sent (flush answer message sent)
                (pack_rows proto lsn s answer rows (row ∷ []) (proto.size row))
                (flush-Packs message sent c)
                (λ sent' ok'.
                  pack_rows-Packs rows (row ∷ []) (proto.size row) sent' (omega arith) (inr refl)
                    ok')
                (rw (f, pack_rows) at worked))
      ]

  -- Where no message fails to be sent, the rows of a snapshot are sent in order, each once, in
  -- messages that are not empty and that are within the server's limit unless they hold a single
  -- row.
  pub send_rows-Packs :
      (rows : List SnapshotRow) (sent : List WatchResponse)
      → (send_rows proto lsn s answer rows sent).1 ≡ none
      → Packs proto s.max_rows_message_bytes
          (map convert_row rows)
          sent
          (send_rows proto lsn s answer rows sent).0
  unfolding send_rows
  send_rows-Packs rows sent worked =
      pack_rows-Packs (map convert_row rows) [] 0 sent (omega arith) (inl (omega arith)) worked
