-- ===== src/Cdc/Stream/Safe.antt =====
-- internal/cdc/stream.go: what the positions sent to PostgreSQL promise.
use watchd.Base.{
  ℕ, ◌<◌, ◌≡◌, refl, ◌∙◌, Bool, true, false, List, [], ◌∷◌, ◌++◌, none, Text, All, Option-cases,
  inl, inr,
}
use watchd.Cdc.Assembly.{Decoder, in_transaction}
use watchd.Cdc.Decoder.{LogText}
use watchd.Cdc.Stream.{
  Replication, Reader, Stream, Effect, delivered, status, Input, receive_turn, receive_loop,
  receive_stream,
}
use watchd.Cdc.Stream.Feed.{
  view, ends_after, open_after, Feed, ends_left, Ascends, Sound, unaccepted,
}
use watchd.Cdc.Stream.Turn.{Ready, turn-Fine}

Sound-append :
    (source : Text) (ends : List ℕ) (fx gx : List Effect)
    → Sound source ends fx
    → Sound source (unaccepted ends fx) gx
    → Sound source ends (fx ++ gx)
Sound-append source ends [] gx h k = k
Sound-append source ends (status lsn ∷ fx) gx h k = (h.0, Sound-append source ends fx gx h.1 k)
Sound-append source [] (delivered t accepted ∷ fx) gx h k = elim h [ ]
Sound-append source (e ∷ es) (delivered t true ∷ fx) gx h k =
    (h.0, Sound-append source es fx gx h.1 k)
Sound-append source (e ∷ es) (delivered t false ∷ fx) gx h k =
    (h.0, Sound-append source (e ∷ es) fx gx h.1 k)

unaccepted-append :
    (ends : List ℕ) (fx gx : List Effect)
    → unaccepted ends (fx ++ gx) ≡ unaccepted (unaccepted ends fx) gx
unaccepted-append ends [] gx = refl
unaccepted-append ends (status lsn ∷ fx) gx = unaccepted-append ends fx gx
unaccepted-append [] (delivered t accepted ∷ fx) gx = unaccepted-append [] fx gx
unaccepted-append (e ∷ es) (delivered t true ∷ fx) gx = unaccepted-append es fx gx
unaccepted-append (e ∷ es) (delivered t false ∷ fx) gx = unaccepted-append (e ∷ es) fx gx

module _ (log : LogText) (p : Replication) (source : Text) where
  receive_loop-Sound :
      (is : List Input) (s : Stream) (ends : List ℕ) (opened : Bool)
      → Feed p ends opened is
      → Ready source ends opened s
      → Sound source ends (receive_loop log p is s).effects
        × ((receive_loop log p is s).failure ≡ none
            → unaccepted ends (receive_loop log p is s).effects ≡ ends_left p ends is)
  unfolding receive_loop
  receive_loop-Sound [] s ends opened feed r = (tt, λ h. refl)
  receive_loop-Sound (i ∷ is) s ends opened feed r =
      let fine = turn-Fine source log p i s ends opened feed.0 r in
      elim (Option-cases (receive_turn log p i s).failure) [
        | inr (x, e) ↦ rw (e, receive_loop) (fine.0, λ h. absurd (cc))
        | inl e ↦
            let next = fine.1 e in
            let rest =
              receive_loop-Sound is (receive_turn log p i s).stream (ends_after (view p i) ends)
                (open_after (view p i) opened) feed.1 next.0 in
            rw (e, receive_loop)
              (
                Sound-append source ends (receive_turn log p i s).effects _ fine.0
                    (rw next.1 rest.0),
                λ h.
                    unaccepted-append ends (receive_turn log p i s).effects _
                    ∙ rw next.1 (rest.1 h),
              )
      ]

  -- Where PostgreSQL streams the transactions in the order of their ends, and its keepalives
  -- between two of them are below every end to come, a connection that starts below all ends
  -- gives the sink the transactions in order, each under the source's name and with its own end,
  -- and each only once accepted; no status that it sends reaches the end of a transaction that the
  -- sink has not accepted by then. Where it does not fail, every transaction that was committed
  -- in the stream has been accepted.
  pub receive_stream-Sound :
      (is : List Input) (r : Reader) (d : Decoder) (initial_lsn : ℕ) (ends : List ℕ)
      → r.source_id ≡ source
      → d.pending ≡ none
      → All (λ e. initial_lsn < e) ends
      → Ascends ends
      → Feed p ends false is
      → Sound source ends (receive_stream log p r d initial_lsn is).effects
        × ((receive_stream log p r d initial_lsn is).failure ≡ none
            → unaccepted ends (receive_stream log p r d initial_lsn is).effects
              ≡ ends_left p ends is)
  unfolding receive_stream in_transaction
  receive_stream-Sound is r d initial_lsn ends same idle low up feed =
      receive_loop-Sound is (record { reader = r; decoder = d; safe_lsn = initial_lsn }) ends false
        feed (low, up, rw idle, same)
