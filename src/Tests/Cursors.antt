-- ===== src/Tests/Cursors.antt =====
-- internal/cdc on concrete inputs: cursors, and the visibility of a snapshot.
use watchd.Base.{
  ℕ, ◌≡◌, ◌<◌, ◌↔◌, ◌⊎◌, refl, true, false, [], ◌∷◌, none, some, codes, ok, arith, Occurs,
}
use watchd.Cdc.Cursor.{Cursor, LsnText, compare, precedes, equals, follows}
use watchd.Cdc.Cursor.Least.{compare_cases}
use watchd.Cdc.Transaction.{Transaction}
use watchd.Cdc.Visibility.{
  Visibility, Snapshot, new_snapshot, covers, parse_visibility, parse_parts, split, parse_uint,
  parse_digits, parse_running,
}
use watchd.Cdc.Visibility.Widen.{covers_exact}
use watchd.Cdc.Visibility.Parse.{IsValid, parse_visibility-IsValid}

abbrev at_lsn : ℕ → Cursor
at_lsn n = record { source_id = codes "db"; lsn = n }

compare_cases_example :
    ((compare (at_lsn 3) (at_lsn 7) ≡ ok precedes) × (3 < 7))
    ⊎ ((compare (at_lsn 3) (at_lsn 7) ≡ ok equals) × (at_lsn 3 ≡ at_lsn 7))
    ⊎ ((compare (at_lsn 3) (at_lsn 7) ≡ ok follows) × (7 < 3))
compare_cases_example = compare_cases (at_lsn 3) (at_lsn 7) refl

abbrev elsewhere : Cursor
elsewhere = record { source_id = []; lsn = 1 }

-- A text of one byte stands for the number.
abbrev unary : LsnText
unary = record { lsn_text = λ n. n ∷ []; parse_lsn = λ s. elim s [ [] ↦ none | n ∷ rest ↦ some n ] }

abbrev visibility : Visibility
visibility = record { xmin = 10; xmax = 20; in_progress = 12 ∷ [] }

abbrev snapshot : Snapshot
snapshot = new_snapshot (codes "db") 5 (some visibility)

abbrev transaction : Transaction
transaction = record {
  cursor = at_lsn 9;
  changes = [];
  incompatible = [];
  commit_lsn = 8;
  xid = 13;
}

covers_exact_example :
    ((covers snapshot transaction ≡ ok true) ⊎ (covers snapshot transaction ≡ ok false))
    × ((covers snapshot transaction ≡ ok true)
        ↔ ((13 < 20) × ((13 < 10) ⊎ (¬ Occurs {A = ℕ} 13 (12 ∷ [])))))
unfolding new_snapshot
covers_exact_example =
    covers_exact snapshot transaction visibility 13 refl refl (omega arith) (omega arith)
      (omega arith) (omega arith)

parse_visibility-IsValid_example : IsValid visibility
unfolding parse_visibility parse_parts split parse_uint parse_digits parse_running
parse_visibility-IsValid_example = parse_visibility-IsValid (codes "10:20:12") visibility refl
