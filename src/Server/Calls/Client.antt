-- ===== src/Server/Calls/Client.antt =====
-- sdk/go/watchd/client.go on the messages that come in the order of a watch.
use watchd.Base.{
  ◌≡◌, refl, subst, map, false, Text, List, [], ◌∷◌, Option, none, some, Result, ok, err,
  Option-cases, inl, inr,
}
use watchd.Wire.{
  WatchResponse, snapshot_begin, snapshot_rows, snapshot_end, batch, progress, resync, other, Code,
}
use watchd.Sdk.Interface.{Store}
use watchd.Sdk.Stream.{
  StreamError, resync_error, store_error, status_error, Syncer, Reading, Handled, after_store,
  began, took_rows, progressed_to, handle, handle_all, set_state, convert_values, convert_batch,
}
use watchd.Watch.Calls.Phases.{Phase, opening, in_snapshot, streaming, over}
use watchd.Server.Calls.Messages.{next_message, follow}

-- The status, if the stream ended with one, is the one that the server sent.
abbrev pub Blames {ℓ} : {E : Type ℓ} → Code → StreamError E → Type 0
Blames code (status_error c) = c ≡ code
Blames code e = Unit

module _ {ℓ κ μ} {S : Type ℓ} {W : Type κ} {E : Type μ} (ops : Store S W E) where
  abbrev pub reading : S → Syncer → Option W → Reading S W
  reading x s w = record { store = x; syncer = s; writer = w }

  -- The client has a writer in a snapshot, and none outside of it.
  abbrev pub Ready : Phase → Option W → Type 0
  Ready in_snapshot none = ⊥
  Ready in_snapshot (some w) = Unit
  Ready over w = Unit
  Ready p none = Unit
  Ready p (some w) = ⊥

  -- What a message leads to: the next phase, or an error that is not a status.
  abbrev pub Understands : Phase → Handled ops → Type 0
  Understands q (r, none) = Ready q r.writer
  Understands q (r, some (status_error c)) = ⊥
  Understands q (r, some e) = Unit

  began-Understands :
      (r : Reading S W) (q : S × Result E W) → Understands in_snapshot (began ops r q)
  began-Understands r (x, ok w) = tt
  began-Understands r (x, err e) = tt

  took_rows-Understands :
      (r : Reading S W) (q : (W × S) × Option E) → Understands in_snapshot (took_rows ops r q)
  took_rows-Understands r ((w, x), none) = tt
  took_rows-Understands r ((w, x), some e) = tt

  after_store-Understands :
      (x : S) (s : Syncer) (q : S × Option E)
      → Understands streaming (after_store ops (reading x s none) q)
  after_store-Understands x s (y, none) = tt
  after_store-Understands x s (y, some e) = tt

  saved-Understands :
      (x : S) (s : Syncer) (cursor : Text) (q : S × Option E)
      → Understands streaming (progressed_to ops cursor (after_store ops (reading x s none) q))
  saved-Understands x s cursor (y, none) = tt
  saved-Understands x s cursor (y, some e) = tt

  leads : (p q : Phase) (d : Handled ops) → some p ≡ some q → Understands p d → Understands q d
  leads p q d h k = let same : p ≡ q = cc in subst (λ x. Understands x d) same k

  handle-Understands :
      (p : Phase) (m : WatchResponse) (x : S) (s : Syncer) (w : Option W) (q : Phase)
      → next_message p m ≡ some q
      → Ready p w
      → Understands q (handle ops m (reading x s w))
  unfolding next_message handle
  handle-Understands over m x s w q h k = absurd (cc)
  handle-Understands opening (resync reason) x s w q h k = tt
  handle-Understands in_snapshot (resync reason) x s w q h k = tt
  handle-Understands streaming (resync reason) x s w q h k = tt
  handle-Understands opening snapshot_begin x s w q h k =
      leads in_snapshot q (handle ops snapshot_begin (reading x s w)) h
        (began-Understands (reading x (set_state false [] s) w) (ops.begin_snapshot x))
  handle-Understands in_snapshot (snapshot_rows rows) x s (some w) q h k =
      leads in_snapshot q (handle ops (snapshot_rows rows) (reading x s (some w))) h
        (took_rows-Understands (reading x s (some w)) (ops.put (map convert_values rows) w x))
  handle-Understands in_snapshot (snapshot_rows rows) x s none q h k = elim k [ ]
  handle-Understands in_snapshot snapshot_end x s (some w) q h k =
      leads streaming q (handle ops snapshot_end (reading x s (some w))) h
        (after_store-Understands x s (ops.commit w x))
  handle-Understands in_snapshot snapshot_end x s none q h k = elim k [ ]
  handle-Understands opening (batch b) x s none q h k =
      leads streaming q (handle ops (batch b) (reading x s none)) h
        (after_store-Understands x s (ops.apply (convert_batch b) x))
  handle-Understands opening (batch b) x s (some w) q h k = elim k [ ]
  handle-Understands opening (progress c) x s none q h k =
      leads streaming q (handle ops (progress c) (reading x s none)) h
        (saved-Understands x s c (ops.save_cursor c x))
  handle-Understands opening (progress c) x s (some w) q h k = elim k [ ]
  handle-Understands streaming (batch b) x s none q h k =
      leads streaming q (handle ops (batch b) (reading x s none)) h
        (after_store-Understands x s (ops.apply (convert_batch b) x))
  handle-Understands streaming (batch b) x s (some w) q h k = elim k [ ]
  handle-Understands streaming (progress c) x s none q h k =
      leads streaming q (handle ops (progress c) (reading x s none)) h
        (saved-Understands x s c (ops.save_cursor c x))
  handle-Understands streaming (progress c) x s (some w) q h k = elim k [ ]
  handle-Understands opening (snapshot_rows rows) x s w q h k = absurd (cc)
  handle-Understands opening snapshot_end x s w q h k = absurd (cc)
  handle-Understands opening other x s w q h k = absurd (cc)
  handle-Understands in_snapshot snapshot_begin x s w q h k = absurd (cc)
  handle-Understands in_snapshot (batch b) x s w q h k = absurd (cc)
  handle-Understands in_snapshot (progress c) x s w q h k = absurd (cc)
  handle-Understands in_snapshot other x s w q h k = absurd (cc)
  handle-Understands streaming snapshot_begin x s w q h k = absurd (cc)
  handle-Understands streaming (snapshot_rows rows) x s w q h k = absurd (cc)
  handle-Understands streaming snapshot_end x s w q h k = absurd (cc)
  handle-Understands streaming other x s w q h k = absurd (cc)

  -- The loop after a message.
  abbrev on_with : List WatchResponse → Code → Handled ops → Reading S W × StreamError E
  on_with ms code d = elim d.1 [ some y ↦ (d.0, y) | none ↦ handle_all ops ms code d.0 ]

  goes_on :
      (ms : List WatchResponse) (code : Code) (p : Phase) (d : Handled ops)
      → ((r : Reading S W) → Ready p r.writer → Blames code (handle_all ops ms code r).1)
      → Understands p d
      → Blames code (on_with ms code d).1
  goes_on ms code p (r, none) h u = h r u
  goes_on ms code p (r, some resync_error) h u = tt
  goes_on ms code p (r, some (store_error e)) h u = tt
  goes_on ms code p (r, some (status_error c)) h u = elim u [ ]

  -- The messages in order, and then the status.
  pub handle_all-Blames :
      (ms : List WatchResponse) (code : Code) (p : Phase) (x : S) (s : Syncer) (w : Option W)
      (q : Phase)
      → follow p ms ≡ some q
      → Ready p w
      → Blames code (handle_all ops ms code (reading x s w)).1
  unfolding handle_all follow
  handle_all-Blames [] code p x s w q h k = refl
  handle_all-Blames (m ∷ ms) code p x s w q h k = elim (Option-cases (next_message p m)) [
    | inl e ↦ let no : none ≡ some q = rw (e, follow) at h in absurd (cc)
    | inr (p', e) ↦
        goes_on ms code p' (handle ops m (reading x s w))
          (λ r. handle_all-Blames ms code p' r.store r.syncer r.writer q (rw (e, follow) at h))
          (handle-Understands p m x s w p' e k)
  ]
