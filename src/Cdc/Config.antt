-- ===== src/Cdc/Config.antt =====
-- internal/cdc/config.go: the defaults and the checks of a reader's configuration. An integer or a
-- duration, in nanoseconds, is a ℤ; the comparisons of float64 are a parameter.
use watchd.Base.{
  ℤ, pos, negsuc, ◌*◌, ◌^◌, Bool, true, false, not, ◌&&◌, ◌||◌, if◌then◌else◌, ltb, ◌==◌, Text,
  Result, ok, ◌>>=◌, ◌>>◌, require, is_empty,
}
use watchd.Cdc.Failure.{Failure}
use watchd.Cdc.Validation.{invalid, is_identifier}

-- `ReaderConfig` with its `RetryPolicy`, without its logger and meter.
pub record ReaderConfig {ℓ} (F : Type ℓ) : Type ℓ where
  pub database_url : Text
  pub source_id : Text
  pub slot_name : Text
  pub publication_name : Text
  pub max_transaction_bytes : ℤ
  pub max_transaction_changes : ℤ
  pub max_value_bytes : ℤ
  pub snapshot_batch_rows : ℤ
  pub connection_timeout : ℤ
  pub status_interval : ℤ
  pub shutdown_timeout : ℤ
  pub max_retained_wal_bytes : ℤ
  pub retention_check_interval : ℤ
  pub retention_sample_interval : ℤ
  pub initial_backoff : ℤ
  pub max_backoff : ℤ
  pub max_attempts : ℤ
  pub retention_warn_fraction : F
  pub retention_degrade_fraction : F
  pub jitter : F

-- float64: the constants that are used, and `<`.
pub record FloatOrder {ℓ} (F : Type ℓ) : Type ℓ where
  pub zero_float : F
  pub one_float : F
  pub half : F
  pub four_fifths : F
  pub one_fifth : F
  pub is_zero_float : F → Bool
  pub below : F → F → Bool

-- `if n == 0 { n = fallback }`
abbrev pub or_default : ℤ → ℤ → ℤ
or_default (negsuc n) fallback = negsuc n
or_default (pos n) fallback = if n == 0 then fallback else pos n

abbrev pub is_positive : ℤ → Bool
is_positive (negsuc n) = false
is_positive (pos n) = not (n == 0)

-- `a < b`
abbrev pub below_int : ℤ → ℤ → Bool
below_int (pos a) (pos b) = ltb a b
below_int (pos a) (negsuc b) = false
below_int (negsuc a) (pos b) = true
below_int (negsuc a) (negsuc b) = ltb b a

module _ {ℓ} {F : Type ℓ} (f : FloatOrder F) where
  abbrev pub or_fraction : F → F → F
  or_fraction x fallback = if f.is_zero_float x then fallback else x

  -- `normalizeReaderConfig`.
  unfoldable pub normalize_reader_config : ReaderConfig F → ReaderConfig F
  normalize_reader_config c = record c {
    max_transaction_bytes = or_default c.max_transaction_bytes (pos (16 * 2 ^ 20));
    max_transaction_changes = or_default c.max_transaction_changes (pos 100_000);
    max_value_bytes = or_default c.max_value_bytes (pos (2 ^ 20));
    snapshot_batch_rows = or_default c.snapshot_batch_rows (pos 1000);
    connection_timeout = or_default c.connection_timeout (pos 10_000_000_000);
    status_interval = or_default c.status_interval (pos 10_000_000_000);
    shutdown_timeout = or_default c.shutdown_timeout (pos 5_000_000_000);
    max_retained_wal_bytes = or_default c.max_retained_wal_bytes (pos (2 ^ 30));
    retention_check_interval = or_default c.retention_check_interval (pos 300_000_000_000);
    retention_sample_interval = or_default c.retention_sample_interval (pos 30_000_000_000);
    initial_backoff = or_default c.initial_backoff (pos 250_000_000);
    max_backoff = or_default c.max_backoff (pos 10_000_000_000);
    max_attempts = or_default c.max_attempts (pos 8);
    retention_warn_fraction = or_fraction c.retention_warn_fraction f.half;
    retention_degrade_fraction = or_fraction c.retention_degrade_fraction f.four_fifths;
    jitter = or_fraction c.jitter f.one_fifth;
  }

  -- The retry policy that is accepted.
  abbrev pub retries_fit : ReaderConfig F → Bool
  retries_fit c =
      is_positive c.initial_backoff
      && (not (below_int c.max_backoff c.initial_backoff)
          && (not (below_int c.max_attempts (pos 0))
              && (not (f.below c.jitter f.zero_float) && not (f.below f.one_float c.jitter))))

  -- The other conditions, in the order of the code.
  abbrev pub has_names : ReaderConfig F → Bool → Bool
  has_names c has_sink = not (
      is_empty c.database_url
      || (is_empty c.source_id
          || (is_empty c.slot_name || (is_empty c.publication_name || not has_sink))))

  abbrev pub names_fit : ReaderConfig F → Bool
  names_fit c = is_identifier c.slot_name && is_identifier c.publication_name

  abbrev pub sizes_fit : ReaderConfig F → Bool
  sizes_fit c =
      is_positive c.max_transaction_bytes
      && (is_positive c.max_transaction_changes
          && (is_positive c.max_value_bytes
              && (is_positive c.snapshot_batch_rows
                  && (is_positive c.connection_timeout
                      && (is_positive c.status_interval && is_positive c.shutdown_timeout)))))

  abbrev pub retention_fits : ReaderConfig F → Bool
  retention_fits c =
      is_positive c.max_retained_wal_bytes
      && (is_positive c.retention_check_interval && is_positive c.retention_sample_interval)

  abbrev pub thresholds_fit : ReaderConfig F → Bool
  thresholds_fit c =
      f.below f.zero_float c.retention_warn_fraction
      && (f.below c.retention_warn_fraction c.retention_degrade_fraction
          && f.below c.retention_degrade_fraction f.one_float)

  -- `validateReaderConfig`, where there is a sink or not.
  unfoldable pub validate_reader_config : ReaderConfig F → Bool → Result Failure (Unit {0})
  validate_reader_config c has_sink =
      require (has_names c has_sink) invalid
      >> (require (names_fit c) invalid
          >> (require (sizes_fit c) invalid
              >> (require (retention_fits c) invalid
                  >> (require (thresholds_fit c) invalid
                      >> (require (not (below_int c.max_transaction_bytes c.max_value_bytes))
                            invalid
                          >> require (retries_fit c) invalid)))))

  -- The configuration that `NewReader` goes on with.
  unfoldable pub accepted_config : ReaderConfig F → Bool → Result Failure (ReaderConfig F)
  unfolding normalize_reader_config validate_reader_config
  accepted_config c has_sink =
      let c' = normalize_reader_config c in validate_reader_config c' has_sink >>= λ x. ok c'
