-- ===== src/Sdk/Stream/Settled.antt =====
-- sdk/go/watchd/client.go: what a stream leaves in a store that keeps its promises.
use watchd.Base.{
  ◌≡◌, refl, sym, ap, ◌∙◌, Bool, true, false, List, [], ◌∷◌, ◌++◌, Option, none, some, Text, Result,
  ok, err, map, Void, Option-cases, Result-cases, inl, inr,
}
use watchd.Sdk.Store.{Row, Batch}
use watchd.Sdk.Interface.{Store, Promises}
use watchd.Wire.{
  Code, WatchResponse, snapshot_begin, snapshot_rows, snapshot_end, batch, progress, resync, other,
}
use watchd.Sdk.Stream.{
  StreamError, resync_error, store_error, status_error, convert_values, convert_batch, Syncer,
  set_state, Reading, Handled, handle, handle_all, close_writer, resume_cursor, stream, began,
  after_store, took_rows,
}

-- What a sequence of events amounts to: whole snapshots, batches and cursors.
pub data Piece : Type 0 where
  installs : List Row → Piece
  applies : Batch → Piece
  marks : Text → Piece

-- The pieces that the events complete, given the rows of the snapshot they are in. A snapshot that
-- does not end is none, and what the protocol does not allow ends the stream.
abbrev pub pieces : Option (List Row) → List WatchResponse → List Piece
pieces staged [] = []
pieces staged (snapshot_begin ∷ es) = pieces (some []) es
pieces none (snapshot_rows rows ∷ es) = []
pieces (some held) (snapshot_rows rows ∷ es) = pieces (some (held ++ map convert_values rows)) es
pieces none (snapshot_end ∷ es) = []
pieces (some held) (snapshot_end ∷ es) = installs held ∷ pieces none es
pieces none (batch b ∷ es) = applies (convert_batch b) ∷ pieces none es
pieces (some held) (batch b ∷ es) = []
pieces none (progress cursor ∷ es) = marks cursor ∷ pieces none es
pieces (some held) (progress cursor ∷ es) = []
pieces staged (resync reason ∷ es) = []
pieces staged (other ∷ es) = []

-- The stream did not end for an error of the store.
abbrev pub StoreWorked {ℓ} : {E : Type ℓ} → StreamError E → Type ℓ
StoreWorked (store_error e) = Void
StoreWorked (status_error code) = Unit
StoreWorked resync_error = Unit

module _ {ℓ κ μ ν} {S : Type ℓ} {W : Type κ} {E : Type μ} {V : Type ν} (ops : Store S W E)
    (p : Promises ops V) where
  -- What a reader sees after the pieces.
  abbrev pub settle : Piece → V → V
  settle (installs rows) v = p.installed rows v
  settle (applies b) v = p.applied b v
  settle (marks cursor) v = p.marked cursor v

  abbrev pub settled : List Piece → V → V
  settled [] v = v
  settled (q ∷ qs) v = settled qs (settle q v)

  abbrev Matches : V → Option W → Option (List Row) → Type 0
  Matches v none none = Unit
  Matches v none (some held) = Void
  Matches v (some w) none = Void
  Matches v (some w) (some held) = p.Holds v w held

  abbrev reading : S → Syncer → Option W → Reading S W
  reading x s w = record { store = x; syncer = s; writer = w }

  abbrev Settles :
      List WatchResponse → Code → S → Syncer → Option W → Option (List Row) → Type (μ ⊔ ν)
  Settles es code x s w staged =
      StoreWorked (handle_all ops es code (reading x s w)).1
      → p.view (handle_all ops es code (reading x s w)).0.store
        ≡ settled (pieces staged es) (p.view x)

  -- A store's method that worked, or failed.
  after_store-some :
      (r : Reading S W) (q : S × Option E) (e : E)
      → q.1 ≡ some e
      → after_store ops r q ≡ (record r { store = q.0 }, some (store_error e))
  after_store-some r (x, o) e f = rw f

  after_store-none :
      (r : Reading S W) (q : S × Option E)
      → q.1 ≡ none
      → after_store ops r q ≡ (record r { store = q.0 }, none)
  after_store-none r (x, o) f = rw f

  began_err :
      (r : Reading S W) (q : S × Result E W) (e : E)
      → q.1 ≡ err e
      → began ops r q ≡ (record r { store = q.0; writer = none }, some (store_error e))
  began_err r (x, o) e f = rw f

  began_ok :
      (r : Reading S W) (q : S × Result E W) (w : W)
      → q.1 ≡ ok w
      → began ops r q ≡ (record r { store = q.0; writer = some w }, none)
  began_ok r (x, o) w f = rw f

  took_rows-some :
      (r : Reading S W) (q : (W × S) × Option E) (e : E)
      → q.1 ≡ some e
      → took_rows ops r q ≡ (record r { store = q.0.1; writer = some q.0.0 }, some (store_error e))
  took_rows-some r ((w, x), o) e f = rw f

  took_rows-none :
      (r : Reading S W) (q : (W × S) × Option E)
      → q.1 ≡ none
      → took_rows ops r q ≡ (record r { store = q.0.1; writer = some q.0.0 }, none)
  took_rows-none r ((w, x), o) f = rw f

  -- The loop goes on with what an event left, or ends with its error.
  follow : List WatchResponse → Code → Handled ops → Reading S W × StreamError E
  follow es code q = elim q.1 [ some y ↦ (q.0, y) | none ↦ handle_all ops es code q.0 ]

  handle_all-follow :
      (ev : WatchResponse) (es : List WatchResponse) (code : Code) (r : Reading S W)
      (q : Handled ops)
      → handle ops ev r ≡ q
      → handle_all ops (ev ∷ es) code r ≡ follow es code q
  unfolding handle_all follow
  handle_all-follow ev es code r q h = ap (follow es code) h

  stops :
      (ev : WatchResponse) (es : List WatchResponse) (code : Code) (x : S) (s : Syncer)
      (w : Option W) (staged : Option (List Row)) (r : Reading S W) (e : E)
      → handle ops ev (reading x s w) ≡ (r, some (store_error e))
      → Settles (ev ∷ es) code x s w staged
  unfolding follow
  stops ev es code x s w staged r e h worked =
      elim (rw (handle_all-follow ev es code (reading x s w) _ h) at worked) [ ]

  goes_on :
      (ev : WatchResponse) (es : List WatchResponse) (code : Code) (x : S) (s : Syncer)
      (w : Option W) (staged : Option (List Row)) (x' : S) (s' : Syncer) (w' : Option W)
      (staged' : Option (List Row))
      → handle ops ev (reading x s w) ≡ (reading x' s' w', none)
      → Settles es code x' s' w' staged'
      → settled (pieces staged' es) (p.view x') ≡ settled (pieces staged (ev ∷ es)) (p.view x)
      → Settles (ev ∷ es) code x s w staged
  unfolding follow
  goes_on ev es code x s w staged x' s' w' staged' h k same worked =
      let followed = handle_all-follow ev es code (reading x s w) _ h in
      rw followed (k (rw followed at worked) ∙ same)

  handle_all-Settles :
      (es : List WatchResponse) (code : Code) (x : S) (s : Syncer) (w : Option W)
      (staged : Option (List Row))
      → Matches (p.view x) w staged
      → Settles es code x s w staged
  unfolding handle_all handle
  handle_all-Settles [] code x s w staged m = λ worked. refl
  handle_all-Settles (resync reason ∷ es) code x s w staged m = λ worked. refl
  handle_all-Settles (other ∷ es) code x s w staged m = λ worked. refl
  handle_all-Settles (snapshot_rows rows ∷ es) code x s none none m = λ worked. refl
  handle_all-Settles (snapshot_end ∷ es) code x s none none m = λ worked. refl
  handle_all-Settles (batch b ∷ es) code x s (some w) (some held) m = λ worked. refl
  handle_all-Settles (progress cursor ∷ es) code x s (some w) (some held) m = λ worked. refl
  handle_all-Settles (snapshot_begin ∷ es) code x s w staged m =
      let s' = set_state false [] s in
      let q = ops.begin_snapshot x in
      elim (Result-cases q.1) [
        | inr (e, f) ↦
            stops snapshot_begin es code x s w staged _ e (began_err (reading x s' w) q e f)
        | inl (w', f) ↦
            goes_on snapshot_begin es code x s w staged q.0 s' (some w') (some [])
              (began_ok (reading x s' w) q w' f)
              (handle_all-Settles es code q.0 s' (some w') (some [])
                (rw (sym (p.begin_view x)) at (p.begin_Holds x w' f)))
              (ap (settled (pieces (some []) es)) (p.begin_view x))
      ]
  handle_all-Settles (snapshot_rows rows ∷ es) code x s (some w) (some held) m =
      let new = map convert_values rows in
      let q = ops.put new w x in
      elim (Option-cases q.1) [
        | inr (e, f) ↦
            stops (snapshot_rows rows) es code x s (some w) (some held) _ e
              (took_rows-some (reading x s (some w)) q e f)
        | inl f ↦
            goes_on (snapshot_rows rows) es code x s (some w) (some held) q.0.1 s (some q.0.0)
              (some (held ++ new)) (took_rows-none (reading x s (some w)) q f)
              (handle_all-Settles es code q.0.1 s (some q.0.0) (some (held ++ new))
                (rw (sym (p.put_view new w x)) at (p.put_Holds (p.view x) held new w x m f)))
              (ap (settled (pieces (some (held ++ new)) es)) (p.put_view new w x))
      ]
  handle_all-Settles (snapshot_end ∷ es) code x s (some w) (some held) m =
      let q = ops.commit w x in
      elim (Option-cases q.1) [
        | inr (e, f) ↦
            stops snapshot_end es code x s (some w) (some held) _ e
              (after_store-some (reading x s none) q e f)
        | inl f ↦
            goes_on snapshot_end es code x s (some w) (some held) q.0 s none none
              (after_store-none (reading x s none) q f)
              (handle_all-Settles es code q.0 s none none tt)
              (ap (settled (pieces none es)) (p.commit_view held w x m f))
      ]
  handle_all-Settles (batch b ∷ es) code x s none none m =
      let q = ops.apply (convert_batch b) x in
      elim (Option-cases q.1) [
        | inr (e, f) ↦
            stops (batch b) es code x s none none _ e (after_store-some (reading x s none) q e f)
        | inl f ↦
            goes_on (batch b) es code x s none none q.0 s none none
              (after_store-none (reading x s none) q f)
              (handle_all-Settles es code q.0 s none none tt)
              (ap (settled (pieces none es)) (p.apply_view (convert_batch b) x f))
      ]
  handle_all-Settles (progress cursor ∷ es) code x s none none m =
      let s' = set_state true cursor (record s { progressed = true }) in
      let q = ops.save_cursor cursor x in
      elim (Option-cases q.1) [
        | inr (e, f) ↦
            stops (progress cursor) es code x s none none (reading q.0 s none) e
              (rw (after_store-some (reading x s none) q e f))
        | inl f ↦
            goes_on (progress cursor) es code x s none none q.0 s' none none
              (rw (after_store-none (reading x s none) q f))
              (handle_all-Settles es code q.0 s' none none tt)
              (ap (settled (pieces none es)) (p.save_cursor_view cursor x f))
      ]
  handle_all-Settles (snapshot_rows rows ∷ es) code x s none (some held) m = elim m [ ]
  handle_all-Settles (snapshot_rows rows ∷ es) code x s (some w) none m = elim m [ ]
  handle_all-Settles (snapshot_end ∷ es) code x s none (some held) m = elim m [ ]
  handle_all-Settles (snapshot_end ∷ es) code x s (some w) none m = elim m [ ]
  handle_all-Settles (batch b ∷ es) code x s none (some held) m = elim m [ ]
  handle_all-Settles (batch b ∷ es) code x s (some w) none m = elim m [ ]
  handle_all-Settles (progress cursor ∷ es) code x s none (some held) m = elim m [ ]
  handle_all-Settles (progress cursor ∷ es) code x s (some w) none m = elim m [ ]

  closed_view :
      (r : Reading S W) (e : StreamError E) → p.view (close_writer ops (r, e)).0.0 ≡ p.view r.store
  closed_view r e = elim (Option-cases r.writer) [
    | inl f ↦ rw f
    | inr (w, f) ↦ rw (f, p.abort_view w r.store)
  ]

  -- Where the store keeps its promises and no method of it fails, a stream that the server answers
  -- with events leaves exactly the whole snapshots, the batches and the cursors that the events
  -- complete, in order: however the stream ends, a snapshot without its end is not seen.
  pub stream_settled :
      (snapshot : Bool) (watch : Text → Result Code (List WatchResponse × Code)) (x : S)
      (s : Syncer) (cursor : Text) (es : List WatchResponse) (code : Code)
      → resume_cursor ops snapshot x ≡ ok cursor
      → watch cursor ≡ ok (es, code)
      → StoreWorked (stream ops snapshot watch x s).1
      → p.view (stream ops snapshot watch x s).0.0 ≡ settled (pieces none es) (p.view x)
  unfolding stream
  stream_settled snapshot watch x s cursor es code resumed answered worked =
      let s' = record s { progressed = false } in
      let r = handle_all ops es code (reading x s' none) in
      rw (resumed, answered, stream)
        (closed_view r.0 r.1
          ∙ handle_all-Settles es code x s' none none tt (rw (resumed, answered, stream) at worked))
