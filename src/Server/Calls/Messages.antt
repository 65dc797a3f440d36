-- ===== src/Server/Calls/Messages.antt =====
-- The messages that internal/server/server.go sends for the events of a watch: each keeps the order that
-- api/watch/v1/watch.proto lays down, as its event does.
use watchd.Base.{
  ℕ, ◌+◌, ◌≡◌, refl, sym, ap, ◌∙◌, Bool, true, false, List, [], ◌∷◌, ◌++◌, map, Option, none, some,
  if◌then◌else◌, ltb, Text, Result, ok, err, Bool-cases, Option-cases, Result-cases, subst, inl,
  inr,
}
use watchd.Cdc.Cursor.{Cursor, LsnText}
use watchd.Watch.Event.{SnapshotRow, Batch, Event, ResyncReason}
use watchd.Wire.{
  Values, WatchResponse, snapshot_begin, snapshot_rows, snapshot_end, batch, progress, resync,
  BatchMessage, Code, ReasonMessage,
}
use watchd.Watch.Calls.Phases.{Phase, opening, in_snapshot, streaming, over, next_phase}
use watchd.Watch.Calls.Rules.{Sends}
use watchd.Server.{
  Server, Proto, Answer, Sent, SendError, send_message, answered, flush, and_then, pack_rows,
  send_rows, convert_batch, convert_changes, batch_message, encoded, send_result, send,
  encode_cursor, resync_reasons, convert_row,
}

-- The phase after a message, where it may come.
unfoldable pub next_message : Phase → WatchResponse → Option Phase
next_message over m = none
next_message p (resync reason) = some over
next_message opening snapshot_begin = some in_snapshot
next_message opening (batch b) = some streaming
next_message opening (progress c) = some streaming
next_message opening m = none
next_message in_snapshot (snapshot_rows rows) = some in_snapshot
next_message in_snapshot snapshot_end = some streaming
next_message in_snapshot m = none
next_message streaming (batch b) = some streaming
next_message streaming (progress c) = some streaming
next_message streaming m = none

-- The phase after messages that come in order.
unfoldable pub follow : Phase → List WatchResponse → Option Phase
unfolding next_message
follow p [] = some p
follow p (m ∷ ms) = elim (next_message p m) [ none ↦ none | some q ↦ follow q ms ]

-- An event may come where its message may, and leads to the same phase.
bounds_phase :
    (p : Phase)
    → (next_message p snapshot_begin ≡ next_phase p Event.snapshot_begin)
      × (next_message p snapshot_end ≡ next_phase p Event.snapshot_end)
unfolding next_message next_phase
bounds_phase opening = (refl, refl)
bounds_phase in_snapshot = (refl, refl)
bounds_phase streaming = (refl, refl)
bounds_phase over = (refl, refl)

batch_phase :
    (p : Phase) (b : Batch) (bm : BatchMessage)
    → next_message p (batch bm) ≡ next_phase p (Event.batch b)
unfolding next_message next_phase
batch_phase opening b bm = refl
batch_phase in_snapshot b bm = refl
batch_phase streaming b bm = refl
batch_phase over b bm = refl

progress_phase :
    (p : Phase) (c : Cursor) (t : Text)
    → next_message p (progress t) ≡ next_phase p (Event.progress c)
unfolding next_message next_phase
progress_phase opening c t = refl
progress_phase in_snapshot c t = refl
progress_phase streaming c t = refl
progress_phase over c t = refl

resync_phase :
    (p : Phase) (reason : ResyncReason) (rm : ReasonMessage)
    → next_message p (resync rm) ≡ next_phase p (Event.resync reason)
unfolding next_message next_phase
resync_phase opening reason rm = refl
resync_phase in_snapshot reason rm = refl
resync_phase streaming reason rm = refl
resync_phase over reason rm = refl

rows_phase :
    (p q : Phase) (rows : List SnapshotRow)
    → next_phase p (Event.snapshot_rows rows) ≡ some q
    → (p ≡ in_snapshot) × (in_snapshot ≡ q)
unfolding next_phase
rows_phase in_snapshot q rows may = (refl, cc)
rows_phase opening q rows may = absurd (cc)
rows_phase streaming q rows may = absurd (cc)
rows_phase over q rows may = absurd (cc)

-- The phase that was reached.
abbrev pub Reached : Phase → List WatchResponse → Type 0
Reached p ms = follow opening ms ≡ some p

follow-last :
    (p q r : Phase) (ms : List WatchResponse) (m : WatchResponse)
    → follow p ms ≡ some q
    → next_message q m ≡ some r
    → follow p (ms ++ m ∷ []) ≡ some r
unfolding follow
follow-last p q r [] m h k =
    let same : p ≡ q = cc in
    let e : next_message p m ≡ some r = ap (λ x. next_message x m) same ∙ k in rw (e, follow) refl
follow-last p q r (m' ∷ ms) m h k = elim (Option-cases (next_message p m')) [
  | inl e ↦ let no : none ≡ some q = rw (e, follow) at h in absurd (cc)
  | inr (q', e) ↦ rw (e, follow) (follow-last q' q r ms m (rw (e, follow) at h) k)
]

-- The bytes of a message are read as the message.
abbrev pub Reads : Proto → Type 0
Reads proto = (m n : WatchResponse) → proto.marshal m ≡ some n → n ≡ m

module _ (proto : Proto) (lsn : LsnText) (s : Server) (answer : Answer) where
  send_message_follows :
      (p q : Phase) (m : WatchResponse) (sent : List WatchResponse)
      → next_message p m ≡ some q
      → Reached p sent
      → Sends SendError Reached q (send_message answer m sent)
  unfolding send_message
  send_message_follows p q m sent may h =
      go (answer (sent ++ m ∷ [])) (follow-last opening p q sent m h may)
    where
      go :
          (a : Option Code)
          → Reached q (sent ++ m ∷ [])
          → Sends SendError Reached q (sent ++ m ∷ [], answered a)
      go none k = k
      go (some code) k = (q, tt, k)

  flush_follows :
      (message : List Values) (sent : List WatchResponse)
      → Reached in_snapshot sent
      → Sends SendError Reached in_snapshot (flush answer message sent)
  unfolding flush next_message
  flush_follows [] sent h = h
  flush_follows (row ∷ rows) sent h =
      send_message_follows in_snapshot in_snapshot (snapshot_rows (row ∷ rows)) sent refl h

  and_then_follows :
      (q : Sent) (k : List WatchResponse → Sent)
      → Sends SendError Reached in_snapshot q
      → ((sent : List WatchResponse)
          → Reached in_snapshot sent
          → Sends SendError Reached in_snapshot (k sent))
      → Sends SendError Reached in_snapshot (and_then q k)
  and_then_follows (sent, none) k h f = f sent h
  and_then_follows (sent, some e) k h f = h

  pack_rows_follows :
      (rows message : List Values) (bytes : ℕ) (sent : List WatchResponse)
      → Reached in_snapshot sent
      → Sends SendError Reached in_snapshot (pack_rows proto lsn s answer rows message bytes sent)
  unfolding pack_rows
  pack_rows_follows [] message bytes sent h = flush_follows message sent h
  pack_rows_follows (row ∷ rows) message bytes sent h =
      elim (Bool-cases (ltb s.max_rows_message_bytes (bytes + proto.size row))) [
        | inl e ↦
            rw (e, pack_rows)
              (and_then_follows (flush answer message sent) _ (flush_follows message sent h)
                (pack_rows_follows rows (row ∷ []) (proto.size row)))
        | inr e ↦
            rw (e, pack_rows)
              (pack_rows_follows rows (message ++ row ∷ []) (bytes + proto.size row) sent h)
      ]

  module _ (reads : Reads proto) where
    encoded_same :
        (m n : WatchResponse) (found : Option WatchResponse)
        → proto.marshal m ≡ found
        → encoded proto lsn s answer found ≡ ok n
        → n ≡ m
    encoded_same m n none f e = absurd (cc)
    encoded_same m n (some n') f e = let same : n' ≡ n = cc in sym same ∙ reads m n' f

    shared_same :
        (memo : Bool) (m n : WatchResponse)
        → (if memo then encoded proto lsn s answer (proto.marshal m) else ok m) ≡ ok n
        → n ≡ m
    shared_same true m n e = encoded_same m n (proto.marshal m) refl e
    shared_same false m n e = cc

    -- A batch is sent as a batch.
    batch_message-batch :
        (b : Batch) (m : WatchResponse)
        → batch_message proto lsn s answer b ≡ ok m
        → (bm : BatchMessage) × (m ≡ batch bm)
    unfolding batch_message convert_batch
    batch_message-batch b m e = elim (Result-cases (convert_changes b.changes)) [
      | inr (x, f) ↦
          let no : err x ≡ ok m = rw (f, batch_message, convert_batch) at e in absurd (cc)
      | inl (changes, f) ↦
          let full : BatchMessage = record {
            cursor = encode_cursor lsn s b.cursor;
            changes = changes;
          } in
          (full, shared_same b.memo (batch full) m (rw (f, batch_message, convert_batch) at e))
    ]

    send_result_follows :
        (p q : Phase) (b : Batch) (sent : List WatchResponse) (r : Result SendError WatchResponse)
        → batch_message proto lsn s answer b ≡ r
        → next_phase p (Event.batch b) ≡ some q
        → Reached p sent
        → Sends SendError Reached q (send_result proto lsn s answer r sent)
    send_result_follows p q b sent (err x) e may h = (p, tt, h)
    send_result_follows p q b sent (ok m) e may h =
        let (bm, f) = batch_message-batch b m e in
        send_message_follows p q m sent (ap (next_message p) f ∙ batch_phase p b bm ∙ may) h

    pub send_follows :
        (p q : Phase) (e : Event) (sent : List WatchResponse)
        → next_phase p e ≡ some q
        → Reached p sent
        → Sends SendError Reached q (send proto lsn s answer e sent)
    unfolding send send_rows
    send_follows p q Event.snapshot_begin sent may h =
        send_message_follows p q snapshot_begin sent ((bounds_phase p).0 ∙ may) h
    send_follows p q (Event.snapshot_rows rows) sent may h =
        let (from, to) = rows_phase p q rows may in
        subst (λ x. Sends SendError Reached x (send_rows proto lsn s answer rows sent)) to
          (pack_rows_follows (map convert_row rows) [] 0 sent (subst (λ x. Reached x sent) from h))
    send_follows p q Event.snapshot_end sent may h =
        send_message_follows p q snapshot_end sent ((bounds_phase p).1 ∙ may) h
    send_follows p q (Event.batch b) sent may h =
        send_result_follows p q b sent (batch_message proto lsn s answer b) refl may h
    send_follows p q (Event.progress c) sent may h =
        send_message_follows p q (progress (encode_cursor lsn s c)) sent
          (progress_phase p c _ ∙ may) h
    send_follows p q (Event.resync reason) sent may h =
        send_message_follows p q (resync (resync_reasons reason)) sent
          (resync_phase p reason _ ∙ may) h
