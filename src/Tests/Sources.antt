-- ===== src/Tests/Sources.antt =====
-- internal/cdc/retention_policy.go and snapshot.go on concrete inputs: a budget that
-- is reached, and a scope of two rows in pages of one.
use mathlib.Core.List.{nil≢cons, head-eq_of_cons-eq, tail-eq_of_cons-eq}
use watchd.Base.{
  ltb, true, false, err, ◌≡◌, refl, sym, ok-injective, ℕ, ◌+◌, ◌-◌, ◌*◌, ◌/◌, pos, List, [], ◌∷◌,
  ◌++◌, Option, none, some, if◌then◌else◌, leb, ◌==◌, Text, codes, text_eq, Result, ok, take, arith,
}
use watchd.Cdc.Retention.{Floats, Sample, Policy, rank, retention_ok, sample_all}
use watchd.Cdc.Retention.Stops.{some_reaches, sample_all_stops}
use watchd.Cdc.Validation.{is_identifier}
use watchd.Cdc.Paging.{next_key, row_text, scan_rows}
use watchd.Cdc.Paging.Complete.{Delivers, scan_rows_complete}
use watchd.Watch.Event.{SnapshotRow}
use watchd.Cdc.Failure.{Failure, plain, Kind}
use watchd.Cdc.Source.{Source, new_source, start, snapshot, run_returned}
use watchd.Cdc.Source.Lifecycle.{Reach, begins, starts, snapshots, returns, Whole, Reach-Whole}
use watchd.Cdc.Config.{ReaderConfig, FloatOrder, normalize_reader_config, accepted_config}

-- Quotients in percent.
abbrev percent : Floats ℕ
percent = record {
  quotient = λ a b. (a * 100) / b;
  one = 100;
  less_hysteresis = λ t. t - 5;
  at_least = λ a b. leb b a;
}

abbrev sample_of : ℕ → Sample
sample_of n = record { retained = some (pos n); setting = codes "-1"; unit = codes "MB" }

abbrev samples : List Sample
samples = sample_of 60 ∷ sample_of 30 ∷ sample_of 100 ∷ sample_of 10 ∷ []

abbrev policy : Policy
policy = record { state = retention_ok; stops = 0 }

sample_all_stops_example :
    ((rank (sample_all percent 50 80 (pos 100) samples policy).state == 3)
      ≡ some_reaches percent 50 80 (pos 100) samples)
    × ((sample_all percent 50 80 (pos 100) samples policy).stops
        ≡ (if some_reaches percent 50 80 (pos 100) samples then 0 + 1 else 0))
sample_all_stops_example = sample_all_stops percent 50 80 (pos 100) samples policy (omega arith)

abbrev row_of : Text → SnapshotRow
row_of t = (codes "id", some t) ∷ []

abbrev row_a : SnapshotRow
row_a = row_of (codes "a")

abbrev row_b : SnapshotRow
row_b = row_of (codes "b")

abbrev scope : List SnapshotRow
scope = row_a ∷ row_b ∷ []

-- A page of one row: the second row follows the key "a", and none another key.
abbrev fetch : Option (List Text) → Result Failure (List SnapshotRow)
fetch none = ok (row_a ∷ [])
fetch (some []) = ok []
fetch (some (k ∷ key)) = if text_eq k (codes "a") then ok (row_b ∷ []) else ok []

abbrev takes_all : List SnapshotRow → Option Failure
takes_all page = none

key_of_a : (key : List Text) → next_key (codes "id" ∷ []) row_a ≡ ok key → codes "a" ∷ [] ≡ key
unfolding next_key row_text text_eq
key_of_a key e = ok-injective e

key_of_b : (key : List Text) → next_key (codes "id" ∷ []) row_b ≡ ok key → codes "b" ∷ [] ≡ key
unfolding next_key row_text text_eq
key_of_b key e = ok-injective e

fetch_after :
    (before after : List SnapshotRow) (row : SnapshotRow) (key : List Text)
    → scope ≡ before ++ row ∷ after
    → next_key (codes "id" ∷ []) row ≡ ok key
    → fetch (some key) ≡ ok (take 1 after)
unfolding text_eq
fetch_after [] after row key e k =
    rw (sym (tail-eq_of_cons-eq e), sym (key_of_a key (rw (sym (head-eq_of_cons-eq e)) at k))) refl
fetch_after (x ∷ []) after row key e k =
    let e' = tail-eq_of_cons-eq e in
    rw (sym (tail-eq_of_cons-eq e'), sym (key_of_b key (rw (sym (head-eq_of_cons-eq e')) at k)))
      refl
fetch_after (x ∷ y ∷ []) after row key e k =
    absurd (nil≢cons (tail-eq_of_cons-eq (tail-eq_of_cons-eq e)))
fetch_after (x ∷ y ∷ z ∷ before) after row key e k =
    absurd (nil≢cons (tail-eq_of_cons-eq (tail-eq_of_cons-eq e)))

scan_rows_complete_example :
    Delivers fetch takes_all
      (codes "id" ∷ [])
      1
      scope
      scope
      (scan_rows fetch takes_all (codes "id" ∷ []) 1 3 none)
unfolding next_key row_text text_eq
scan_rows_complete_example =
    scan_rows_complete fetch takes_all (codes "id" ∷ []) 1 scope (refl, fetch_after) (λ page. refl)
      (omega arith) ((_, refl), ((_, refl), tt))

-- Fractions in percent.
abbrev float_percent : FloatOrder ℕ
float_percent = record {
  zero_float = 0;
  one_float = 100;
  half = 50;
  four_fifths = 80;
  one_fifth = 20;
  is_zero_float = λ a. a == 0;
  below = λ a b. ltb a b;
}

-- Only the names are set.
abbrev only_names : ReaderConfig ℕ
only_names = record {
  database_url = codes "postgres://db";
  source_id = codes "s";
  slot_name = codes "slot_1";
  publication_name = codes "grants";
  max_transaction_bytes = pos 0;
  max_transaction_changes = pos 0;
  max_value_bytes = pos 0;
  snapshot_batch_rows = pos 0;
  connection_timeout = pos 0;
  status_interval = pos 0;
  shutdown_timeout = pos 0;
  max_retained_wal_bytes = pos 0;
  retention_check_interval = pos 0;
  retention_sample_interval = pos 0;
  initial_backoff = pos 0;
  max_backoff = pos 0;
  max_attempts = pos 0;
  retention_warn_fraction = 0;
  retention_degrade_fraction = 0;
  jitter = 0;
}

only_names_accepted :
    accepted_config float_percent only_names true
    ≡ ok (normalize_reader_config float_percent only_names)
unfolding accepted_config is_identifier
only_names_accepted = refl

-- A source that finds no slot, then one that another process created, and whose Run fails.
abbrev run_failed : Source
run_failed =
    run_returned (some (plain Kind.slot_invalidated))
      (snapshot {A = ℕ} (err (plain Kind.bootstrap_slot_exists)) (ok 1)
        (start (ok false) new_source).0).0

run_failed-Reach : Reach ℕ run_failed
unfolding start snapshot
run_failed-Reach =
    returns (some (plain Kind.slot_invalidated)) (omega arith)
      (snapshots (err (plain Kind.bootstrap_slot_exists)) (ok 1) (starts (ok false) begins refl)
        refl)
      refl

Reach-Whole_example : Whole run_failed
Reach-Whole_example = Reach-Whole run_failed-Reach
