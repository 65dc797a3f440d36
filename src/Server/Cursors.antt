-- ===== src/Server/Cursors.antt =====
-- The cursors of the wire (internal/server/server.go): read back by the server that wrote them, and
-- refused by any other.
use watchd.Base.{
  sym, ◌∙◌, ℕ, ◌<◌, ◌^◌, ◌≡◌, ◌≢◌, refl, subst, false, [], ◌∷◌, ◌++◌, some, if◌then◌else◌, ltb,
  Text, text_eq, text_eq_iff, text_eq_refl, ok, err, is_empty, mem, arith, Bool-cases, inl, inr,
}
use watchd.Cdc.Error.{Error}
use watchd.Cdc.Cursor.{Cursor, precedes, equals, follows, compare, LsnText, string, parse_cursor}
use watchd.Cdc.Cursor.Least.{parse_cursor-string}
use watchd.Server.{Server, cut, encode_cursor, decode_cursor, compare_cursors}

cut_append : (sep : ℕ) (a b : Text) → mem sep a ≡ false → cut sep (a ++ sep ∷ b) ≡ some (a, b)
unfolding cut
cut_append sep [] b h = ground arith
cut_append sep (x ∷ a) b h = ground (arith, cut_append sep a b)

-- The replication library reads back its text of every 64-bit number.
abbrev pub ReadsBack : LsnText → Type 0
ReadsBack lsn = (n : ℕ) → n < 2 ^ 64 → lsn.parse_lsn (lsn.lsn_text n) ≡ some n

-- A cursor as the server hands it out: of its source, with a 64-bit position.
abbrev pub Own : Server → Cursor → Type 0
Own s c = (c.source_id ≡ s.source_id) × (c.lsn < 2 ^ 64)

-- A source's name as `New` accepts it.
abbrev pub Named : Server → Type 0
Named s = (is_empty s.source_id ≡ false) × (mem 64 s.source_id ≡ false)

-- A cursor that a server encodes is decoded to itself, where the source's name is one that `New`
-- accepts and the replication library reads back its texts of numbers.
decode_cursor_same :
    (lsn : LsnText) (s : Server) (c : Cursor)
    → ReadsBack lsn
    → Named s
    → Own s c
    → decode_cursor lsn s (encode_cursor lsn s c) ≡ ok c
unfolding decode_cursor encode_cursor
decode_cursor_same lsn s c reads named own =
    let parsed = parse_cursor-string lsn c reads own.1 (rw own.0 named.0) in
    rw (cut_append 64 s.source_id (string lsn c) named.1, text_eq_refl s.source_id, decode_cursor)
      (subst (λ id. parse_cursor lsn id (string lsn c) ≡ ok c) own.0 parsed)

-- A cursor that the server of another source encoded is refused, whatever its position, where the
-- other source's name is one that `New` accepts.
decode_cursor_foreign :
    (lsn : LsnText) (s other : Server) (c : Cursor)
    → Named other
    → other.source_id ≢ s.source_id
    → decode_cursor lsn s (encode_cursor lsn other c) ≡ err Error.different_sources
unfolding decode_cursor encode_cursor
decode_cursor_foreign lsn s other c named differs =
    elim (Bool-cases (text_eq other.source_id s.source_id)) [
      | inl e ↦ absurd (differs ((text_eq_iff other.source_id s.source_id).0 e))
      | inr e ↦ rw (cut_append 64 other.source_id (string lsn c) named.1, decode_cursor) (rw e refl)
    ]

-- A cursor that a server encodes is decoded to itself by every server of the same source, and
-- refused by a server of another, where the source's name is one that `New` accepts and the
-- replication library reads back its texts of numbers.
pub decode_cursor-encode_cursor :
    (lsn : LsnText) (s other : Server) (c : Cursor)
    → ReadsBack lsn
    → Named other
    → Own other c
    → decode_cursor lsn s (encode_cursor lsn other c)
      ≡ (if text_eq other.source_id s.source_id then ok c else err Error.different_sources)
unfolding encode_cursor
decode_cursor-encode_cursor lsn s other c reads named own =
    elim (Bool-cases (text_eq other.source_id s.source_id)) [
      | inl e ↦
          let same = (text_eq_iff other.source_id s.source_id).0 e in
          rw e (
            subst (λ id. decode_cursor lsn s (id ++ 64 ∷ string lsn c) ≡ ok c) (sym same)
              (decode_cursor_same lsn s c reads (rw⁻¹ same named) (own.0 ∙ same, own.1)))
      | inr e ↦ rw e (
          decode_cursor_foreign lsn s other c named
            (λ k. ground (arith, text_eq_iff other.source_id s.source_id)))
    ]

-- Two cursors that a server encoded are compared by their positions, where the source's name is one
-- that `New` accepts and the replication library reads back its texts of numbers.
pub compare_cursors-encode_cursor :
    (lsn : LsnText) (s : Server) (a b : Cursor)
    → ReadsBack lsn
    → Named s
    → Own s a
    → Own s b
    → compare_cursors lsn s (encode_cursor lsn s a) (encode_cursor lsn s b)
      ≡ ok (if ltb a.lsn b.lsn then precedes else if ltb b.lsn a.lsn then follows else equals)
unfolding compare_cursors compare
compare_cursors-encode_cursor lsn s a b reads named owna ownb =
    rw
      (
        decode_cursor_same lsn s a reads named owna,
        decode_cursor_same lsn s b reads named ownb,
        compare_cursors,
      )
      (rw (owna.0, ownb.0, text_eq_refl s.source_id) (ground arith))
