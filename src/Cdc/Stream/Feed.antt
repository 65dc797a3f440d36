-- ===== src/Cdc/Stream/Feed.antt =====
-- What the messages of a replication connection tell of the source's transactions, and what the
-- answers to them must promise (internal/cdc/stream.go). PostgreSQL streams the transactions in the
-- order of their ends, and between two of them its keepalives carry a position below the end of
-- every transaction still to come.
use watchd.Base.{
  ℕ, ◌<◌, ◌≡◌, Bool, true, false, List, [], ◌∷◌, Option, none, some, if◌then◌else◌, ◌==◌, Text, All,
  Void,
}
use watchd.Cdc.Decoder.{
  Message, relation_message, begin_message, row_message, commit_message, metadata_message,
  other_message,
}
use watchd.Cdc.Stream.{
  Replication, XlogData, Keepalive, Effect, delivered, status, Input, copy_data,
}

-- What an input tells of the source's transactions.
pub data View : Type 0 where
  begins : View
  commits : ℕ → View
  alive : ℕ → View
  nothing : View

abbrev pub view_message : Message → View
view_message (begin_message xid) = begins
view_message (commit_message commit_lsn end_lsn) = commits end_lsn
view_message (relation_message m) = nothing
view_message (row_message id m) = nothing
view_message metadata_message = nothing
view_message other_message = nothing

abbrev pub view_parsed : Option Message → View
view_parsed none = nothing
view_parsed (some m) = view_message m

abbrev pub view_xlog : Replication → Option XlogData → View
view_xlog p none = nothing
view_xlog p (some x) = view_parsed (p.parse x.wal_data)

abbrev pub view_keepalive : Option Keepalive → View
view_keepalive none = nothing
view_keepalive (some k) = alive k.server_wal_end

abbrev pub view : Replication → Input → View
view p (copy_data [] answers) = nothing
view p (copy_data (b ∷ bytes) answers) =
    if b == 119
    then view_xlog p (p.parse_xlog_data bytes)
    else if b == 107
    then view_keepalive (p.parse_keepalive bytes)
    else nothing
view p i = nothing

-- The ends of the transactions that are still to come, and whether one is open, after an input.
abbrev pub ends_after : View → List ℕ → List ℕ
ends_after (commits n) [] = []
ends_after (commits n) (e ∷ es) = es
ends_after begins es = es
ends_after (alive n) es = es
ends_after nothing es = es

abbrev pub open_after : View → Bool → Bool
open_after begins opened = true
open_after (commits n) opened = false
open_after (alive n) opened = opened
open_after nothing opened = opened

-- What PostgreSQL promises of an input.
abbrev pub Admits : View → List ℕ → Bool → Type 0
Admits (commits n) [] opened = Void
Admits (commits n) (e ∷ es) opened = n ≡ e
Admits (alive n) es false = All (λ e. n < e) es
Admits (alive n) es true = Unit
Admits begins es opened = Unit
Admits nothing es opened = Unit

abbrev pub Feed : Replication → List ℕ → Bool → List Input → Type 0
Feed p ends opened [] = Unit
Feed p ends opened (i ∷ is) =
    Admits (view p i) ends opened
    × Feed p (ends_after (view p i) ends) (open_after (view p i) opened) is

abbrev pub ends_left : Replication → List ℕ → List Input → List ℕ
ends_left p ends [] = ends
ends_left p ends (i ∷ is) = ends_left p (ends_after (view p i) ends) is

abbrev pub Ascends : List ℕ → Type 0
Ascends [] = Unit
Ascends (e ∷ es) = All (λ e'. e < e') es × Ascends es

-- The transactions go to the sink in order, each with the cursor of its end, and never again once
-- accepted; a status is below the end of every transaction that is not accepted yet.
abbrev pub Sound : Text → List ℕ → List Effect → Type 0
Sound source ends [] = Unit
Sound source ends (status lsn ∷ effects) = All (λ e. lsn < e) ends × Sound source ends effects
Sound source [] (delivered t accepted ∷ effects) = Void
Sound source (e ∷ es) (delivered t true ∷ effects) =
    (t.cursor ≡ record { source_id = source; lsn = e }) × Sound source es effects
Sound source (e ∷ es) (delivered t false ∷ effects) =
    (t.cursor ≡ record { source_id = source; lsn = e }) × Sound source (e ∷ es) effects

-- The transactions that the effects leave unaccepted.
abbrev pub unaccepted : List ℕ → List Effect → List ℕ
unaccepted ends [] = ends
unaccepted ends (status lsn ∷ effects) = unaccepted ends effects
unaccepted [] (delivered t accepted ∷ effects) = unaccepted [] effects
unaccepted (e ∷ es) (delivered t true ∷ effects) = unaccepted es effects
unaccepted (e ∷ es) (delivered t false ∷ effects) = unaccepted (e ∷ es) effects
