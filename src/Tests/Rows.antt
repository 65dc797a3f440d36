-- ===== src/Tests/Rows.antt =====
-- internal/cdc/decoder.go on concrete inputs: a row tuple.
use watchd.Base.{◌≡◌, refl, [], ◌∷◌, some, codes, ok, arith}
use watchd.Cdc.Transaction.{null, text}
use watchd.Cdc.Row.{null_column, text_column, decode_row}
use watchd.Cdc.Row.Decode.{decode_row_exact}

decode_row_exact_example :
    decode_row 3 (some (text_column (codes "ab") ∷ null_column ∷ text_column (codes "c") ∷ [])) 2
    ≡ ok (text (codes "ab") ∷ null ∷ text (codes "c") ∷ [])
decode_row_exact_example =
    decode_row_exact 3 (text_column (codes "ab") ∷ null_column ∷ text_column (codes "c") ∷ []) 2
      refl (omega arith, (tt, (omega arith, tt)))
