-- ===== src/Cdc/Error.antt =====
-- The errors of internal/cdc by their sentinel (`errors.Is`); the texts wrapped round them are
-- dropped.

pub data Error : Type 0 where
  different_sources : Error
  no_cursors : Error
  invalid_cursor : Error
  postgres_server : Error
