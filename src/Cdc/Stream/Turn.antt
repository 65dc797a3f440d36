-- ===== src/Cdc/Stream/Turn.antt =====
-- internal/cdc/stream.go: a single turn of `receive` is sound.
use watchd.Base.{
  ℕ, ◌<◌, ◌≡◌, refl, ◌∙◌, Bool, true, false, not, ◌&&◌, List, [], ◌∷◌, Option, none, some,
  if◌then◌else◌, ◌==◌, ltb, length, Text, All, arith, Result-cases, Option-cases, Bool-cases, inl,
  inr, is_empty,
}
use watchd.Cdc.Cursor.{Cursor}
use watchd.Cdc.Transaction.{Transaction}
use watchd.Cdc.Failure.{ConnectionError}
use watchd.Cdc.Assembly.{Decoder, in_transaction}
use watchd.Cdc.Decoder.{
  Message, relation_message, begin_message, row_message, commit_message, metadata_message,
  other_message, LogText, consume,
}
use watchd.Cdc.Stream.{
  Replication, XlogData, Keepalive, Reader, Stream, Answers, Input, copy_data, timeout,
  context_done, receive_error, error_response, copy_done, unexpected_message, Outcome, acknowledge,
  observe_server_wal_end, take_transaction, end_of, take_decoded, decoded_to, consume_message,
  consume_xlog, consume_keepalive, consume_copy_data, receive_turn,
}
use watchd.Cdc.Stream.Phase.{phase_after, Emits, consume_moves}
use watchd.Cdc.Stream.Feed.{
  View, commits, alive, nothing, view_message, view_parsed, view, ends_after, open_after, Admits,
  Ascends, Sound, unaccepted,
}

-- The safe position is below every end to come, and the decoder is in the stream's phase.
abbrev pub Ready : Text → List ℕ → Bool → Stream → Type 0
Ready source ends opened s =
    All (λ e. s.safe_lsn < e) ends
    × Ascends ends
    × (in_transaction s.decoder ≡ opened)
    × (s.reader.source_id ≡ source)

-- A turn that sees `v` is sound, and without a failure the next one can follow.
abbrev pub Fine : Text → View → List ℕ → Bool → Outcome → Type 0
Fine source v ends opened o =
    Sound source ends o.effects
    × (o.failure ≡ none
        → Ready source (ends_after v ends) (open_after v opened) o.stream
          × (unaccepted ends o.effects ≡ ends_after v ends))

observed_source : (lsn : ℕ) (r : Reader) → (observe_server_wal_end lsn r).source_id ≡ r.source_id
unfolding observe_server_wal_end
observed_source lsn r = ground arith

module _ (source : Text) where
  pub acknowledge-Fine :
      (answer : Option ConnectionError) (s : Stream) (ends : List ℕ) (opened : Bool)
      → Ready source ends opened s
      → Fine source nothing ends opened (acknowledge answer s)
  unfolding acknowledge
  acknowledge-Fine none s ends opened r = ((r.0, tt), λ _. (r, refl))
  acknowledge-Fine (some e) s ends opened r = ((r.0, tt), λ h. absurd (cc))

  cursor_of :
      (c : Cursor) (id : Text) (e : ℕ)
      → c.lsn ≡ e
      → id ≡ source
      → ◌≡◌ {A = Cursor}
          (record { source_id = id; lsn = c.lsn })
          (record { source_id = source; lsn = e })
  cursor_of c id e l i = rw (l, i)

  take_transaction-Fine :
      (accepts : Bool) (status_error : Option ConnectionError) (t : Transaction) (s : Stream)
      (e : ℕ) (es : List ℕ) (opened : Bool)
      → t.cursor.lsn ≡ e
      → Ready source (e ∷ es) false s
      → Fine source
          (commits e)
          (e ∷ es)
          opened
          (take_transaction (record { accepts = accepts; status_error = status_error }) e t s)
  unfolding take_transaction acknowledge
  take_transaction-Fine false x t s e es opened same r =
      ((cursor_of t.cursor s.reader.source_id e same r.3, tt), λ h. absurd (cc))
  take_transaction-Fine true none t s e es opened same r = (
    (cursor_of t.cursor s.reader.source_id e same r.3, (r.1.0, tt)),
    λ _. ((r.1.0, r.1.1, r.2, r.3), refl),
  )
  take_transaction-Fine true (some x) t s e es opened same r =
      ((cursor_of t.cursor s.reader.source_id e same r.3, (r.1.0, tt)), λ h. absurd (cc))

  -- What `Consume` returned, for the message it was given.
  take_decoded-Fine :
      (answers : Answers) (m : Message) (t : Option Transaction) (s : Stream) (ends : List ℕ)
      (opened : Bool)
      → Emits m t
      → Admits (view_message m) ends opened
      → All (λ e. s.safe_lsn < e) ends
      → Ascends ends
      → in_transaction s.decoder ≡ phase_after m opened
      → s.reader.source_id ≡ source
      → Fine source (view_message m) ends opened (take_decoded answers (end_of m) t s)
  take_decoded-Fine answers (begin_message xid) none s ends opened em ad lo up ph id =
      (tt, λ _. ((lo, up, ph, id), refl))
  take_decoded-Fine answers (relation_message m) none s ends opened em ad lo up ph id =
      (tt, λ _. ((lo, up, ph, id), refl))
  take_decoded-Fine answers (row_message i m) none s ends opened em ad lo up ph id =
      (tt, λ _. ((lo, up, ph, id), refl))
  take_decoded-Fine answers metadata_message none s ends opened em ad lo up ph id =
      (tt, λ _. ((lo, up, ph, id), refl))
  take_decoded-Fine answers other_message none s ends opened em ad lo up ph id =
      (tt, λ _. ((lo, up, ph, id), refl))
  take_decoded-Fine answers (relation_message m) (some t) s ends opened em ad lo up ph id =
      elim em [ ]
  take_decoded-Fine answers (begin_message xid) (some t) s ends opened em ad lo up ph id =
      elim em [ ]
  take_decoded-Fine answers (row_message i m) (some t) s ends opened em ad lo up ph id = elim em [ ]
  take_decoded-Fine answers (commit_message c n) none s ends opened em ad lo up ph id = elim em [ ]
  take_decoded-Fine answers (commit_message c n) (some t) s [] opened em ad lo up ph id =
      elim ad [ ]
  take_decoded-Fine answers metadata_message (some t) s ends opened em ad lo up ph id = elim em [ ]
  take_decoded-Fine answers other_message (some t) s ends opened em ad lo up ph id = elim em [ ]
  take_decoded-Fine answers (commit_message c n) (some t) s (e ∷ es) opened em ad lo up ph id =
      elim (Bool-cases (n == 0)) [
        | inl z ↦ rw z (tt, λ h. absurd (cc))
        | inr z ↦
            rw (z, ad)
              (take_transaction-Fine answers.accepts answers.status_error t s e es opened (em ∙ ad)
                (lo, up, ph, id))
      ]

  module _ (log : LogText) where
    pub consume_message-Fine :
        (answers : Answers) (m : Message) (s : Stream) (ends : List ℕ) (opened : Bool)
        → Admits (view_message m) ends opened
        → Ready source ends opened s
        → Fine source (view_message m) ends opened (consume_message log answers m s)
    unfolding consume_message
    consume_message-Fine answers m s ends opened ad r =
        elim (Result-cases (consume log m s.decoder)) [
          | inr (x, e) ↦ rw (e, consume_message) (tt, λ h. absurd (cc))
          | inl (d, e) ↦
              let moved = consume_moves log m s.decoder d.0 d.1 e in
              rw (e, consume_message)
                (take_decoded-Fine answers m d.1 (decoded_to d.0 s) ends opened moved.1 ad r.0 r.1
                  (rw r.2 at moved.0) r.3)
        ]

    module _ (p : Replication) where
      pub xlog-Fine :
          (answers : Answers) (x : XlogData) (s : Stream) (ends : List ℕ) (opened : Bool)
          → Admits (view_parsed (p.parse x.wal_data)) ends opened
          → Ready source ends opened s
          → Fine source
              (view_parsed (p.parse x.wal_data))
              ends
              opened
              (consume_xlog log p answers x s)
      unfolding consume_xlog observe_server_wal_end
      xlog-Fine answers x s ends opened ad r =
          let s' = record s {
            reader =
                observe_server_wal_end x.server_wal_end
                  (record s.reader { last_received = x.wal_start });
          } in
          elim (Bool-cases (is_empty x.wal_data)) [
            | inl e ↦ rw (e, consume_xlog) (tt, λ h. absurd (cc))
            | inr e ↦ elim (Bool-cases (ltb s.reader.max_transaction_bytes (length x.wal_data))) [
              | inl f ↦ rw (e, f, consume_xlog) (tt, λ h. absurd (cc))
              | inr f ↦ elim (Option-cases (p.parse x.wal_data)) [
                | inl g ↦ rw (e, f, g, consume_xlog) (tt, λ h. absurd (cc))
                | inr (m, g) ↦
                    rw (e, f, g, consume_xlog)
                      (consume_message-Fine answers m s' ends opened (rw g at ad)
                        (r.0, r.1, r.2, observed_source x.server_wal_end _ ∙ r.3))
              ]
            ]
          ]

      -- Between transactions the safe position may rise to a keepalive's, in one it stays.
      safe_rises :
          (d : Decoder) (safe lsn : ℕ) (ends : List ℕ) (opened : Bool)
          → Admits (alive lsn) ends opened
          → in_transaction d ≡ opened
          → All (λ e. safe < e) ends
          → All (λ e. (if not (in_transaction d) && ltb safe lsn then lsn else safe) < e) ends
      safe_rises d safe lsn ends true ad ph lo = rw ph lo
      safe_rises d safe lsn ends false ad ph lo = elim (Bool-cases (ltb safe lsn)) [
        | inl e ↦ rw (ph, e) ad
        | inr e ↦ rw (ph, e) lo
      ]

      pub keepalive-Fine :
          (answers : Answers) (k : Keepalive) (s : Stream) (ends : List ℕ) (opened : Bool)
          → Admits (alive k.server_wal_end) ends opened
          → Ready source ends opened s
          → Fine source (alive k.server_wal_end) ends opened (consume_keepalive log p answers k s)
      unfolding consume_keepalive
      keepalive-Fine answers k s ends opened ad r =
          let s' = record s {
            reader = observe_server_wal_end k.server_wal_end s.reader;
            safe_lsn =
                if not (in_transaction s.decoder) && ltb s.safe_lsn k.server_wal_end
                then k.server_wal_end
                else s.safe_lsn;
          } in
          let ready : Ready source ends opened s' = (
            safe_rises s.decoder s.safe_lsn k.server_wal_end ends opened ad r.2 r.0,
            r.1,
            r.2,
            observed_source k.server_wal_end s.reader ∙ r.3,
          ) in
          elim (Bool-cases k.reply_requested) [
            | inl e ↦
                rw (e, consume_keepalive)
                  (acknowledge-Fine answers.status_error s' ends opened ready)
            | inr e ↦ rw (e, consume_keepalive) (tt, λ _. (ready, refl))
          ]

      pub turn-Fine :
          (i : Input) (s : Stream) (ends : List ℕ) (opened : Bool)
          → Admits (view p i) ends opened
          → Ready source ends opened s
          → Fine source (view p i) ends opened (receive_turn log p i s)
      unfolding receive_turn consume_copy_data
      turn-Fine (timeout answer) s ends opened ad r = acknowledge-Fine answer s ends opened r
      turn-Fine context_done s ends opened ad r = (tt, λ h. absurd (cc))
      turn-Fine receive_error s ends opened ad r = (tt, λ h. absurd (cc))
      turn-Fine (error_response e) s ends opened ad r = (tt, λ h. absurd (cc))
      turn-Fine copy_done s ends opened ad r = (tt, λ h. absurd (cc))
      turn-Fine unexpected_message s ends opened ad r = (tt, λ h. absurd (cc))
      turn-Fine (copy_data [] answers) s ends opened ad r = (tt, λ h. absurd (cc))
      turn-Fine (copy_data (b ∷ bytes) answers) s ends opened ad r = elim (Bool-cases (b == 119)) [
        | inl w ↦ elim (Option-cases (p.parse_xlog_data bytes)) [
          | inl e ↦ rw (w, e, receive_turn, consume_copy_data) (tt, λ h. absurd (cc))
          | inr (x, e) ↦
              rw (w, e, receive_turn, consume_copy_data)
                (xlog-Fine answers x s ends opened (rw (w, e) at ad) r)
        ]
        | inr w ↦ elim (Bool-cases (b == 107)) [
          | inr k ↦ rw (w, k, receive_turn, consume_copy_data) (tt, λ h. absurd (cc))
          | inl k ↦ elim (Option-cases (p.parse_keepalive bytes)) [
            | inl e ↦ rw (w, k, e, receive_turn, consume_copy_data) (tt, λ h. absurd (cc))
            | inr (x, e) ↦
                rw (w, k, e, receive_turn, consume_copy_data)
                  (keepalive-Fine answers x s ends opened (rw (w, k, e) at ad) r)
          ]
        ]
      ]
