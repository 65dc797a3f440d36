-- ===== src/Daemon/Config.antt =====
-- internal/daemon/config.go: the configuration file, its checks, and what each part is built from.
-- The decoding of JSON and YAML, and with it that of durations, is the libraries' (`Codec`); a
-- duration or an integer is a ℤ, and float64 a parameter.
use watchd.Base.{
  ℤ, pos, negsuc, Bool, true, false, not, ◌&&◌, ◌||◌, List, [], ◌∷◌, Option, none, some,
  if◌then◌else◌, ◌==◌, Text, codes, text_eq, Result, ok, err, ◌>>=◌, ◌>>◌, require, or_err,
  is_empty,
}
use watchd.Cdc.Failure.{Failure, to_lower}
use watchd.Cdc.Transaction.{ProjectionSpec}
use watchd.Cdc.Validation.{validate_projection_spec_config}
use watchd.Cdc.Config.{ReaderConfig, FloatOrder, is_positive, or_default, accepted_config}
use watchd.Server.{Config as ServerConfig, new_server}
use watchd.Watch.Serve.{Config as HubConfig}

-- The errors of internal/daemon that its callers tell apart.
pub data DaemonError : Type 0 where
  invalid_config : DaemonError
  source_failed : DaemonError
  internal_error : DaemonError

pub record ProjectionConfig : Type 0 where
  pub schema : Text
  pub table : Text
  pub scope_column : Text
  pub primary_key : List Text

pub record OpsConfig : Type 0 where
  pub listen_address : Text
  pub pprof : Bool
  pub mutex_profile_fraction : ℤ
  pub block_profile_rate : ℤ

pub record RetentionConfig (F : Type 0) : Type 0 where
  pub max_retained_wal_bytes : ℤ
  pub warn_fraction : F
  pub degrade_fraction : F
  pub sample_interval : ℤ

-- `Config`. The projections are a map: the order of its entries is not the file's.
pub record Config (F : Type 0) : Type 0 where
  pub source_id : Text
  pub slot_name : Text
  pub publication_name : Text
  pub listen_address : Text
  pub projections : List (Text × ProjectionConfig)
  pub shutdown_timeout : ℤ
  pub ops : OpsConfig
  pub retention : RetentionConfig F
  pub database_url : Text

abbrev pub is_negative : ℤ → Bool
is_negative (pos n) = false
is_negative (negsuc n) = true

-- `OpsConfig.validate`.
unfoldable pub validate_ops : OpsConfig → Result DaemonError (Unit {0})
validate_ops o = do
  require (not (is_negative o.mutex_profile_fraction || is_negative o.block_profile_rate))
      invalid_config
  require
      (not
        ((is_positive o.mutex_profile_fraction || is_positive o.block_profile_rate) && not o.pprof))
      invalid_config
  require (not (o.pprof && is_empty o.listen_address)) invalid_config

-- The loop of `projectionSpecs`.
unfoldable pub specs_of : Text → List (Text × ProjectionConfig) → List (Text × ProjectionSpec)
specs_of source_id [] = []
specs_of source_id ((name, projection) ∷ rest) =
    (
      name,
      record {
        source_id = source_id;
        schema = projection.schema;
        table = projection.table;
        scope_column = projection.scope_column;
        primary_key = projection.primary_key;
      },
    )
    ∷ specs_of source_id rest

-- `if err != nil { return fmt.Errorf("%w: …", ErrInvalidConfig, err) }`
abbrev pub configured {ℓ} : {A : Type ℓ} → Result Failure A → Result DaemonError (Unit {0})
configured (ok a) = ok tt
configured (err e) = err invalid_config

-- The loop of `validate` over the specs.
unfoldable pub validate_specs : List (Text × ProjectionSpec) → Result DaemonError (Unit {0})
validate_specs [] = ok tt
validate_specs ((name, spec) ∷ rest) =
    configured (validate_projection_spec_config spec) >> validate_specs rest

-- What `server.New` is given, by `validate` and by `Serve`.
abbrev pub server_config : Text → ServerConfig
server_config source_id = record {
  source_id = source_id;
  has_watcher = true;
  max_rows_message_bytes = pos 0;
}

module _ {F : Type 0} (f : FloatOrder F) where
  -- `projectionSpecs`.
  abbrev pub projection_specs : Config F → List (Text × ProjectionSpec)
  projection_specs c = specs_of c.source_id c.projections

  -- `hubConfig`.
  unfoldable pub hub_config : Config F → HubConfig
  hub_config c = record {
    source_id = c.source_id;
    projections = projection_specs c;
    max_replay_transactions = pos 0;
    watcher_queue = pos 0;
  }

  -- `readerConfig`.
  unfoldable pub reader_config : Config F → ReaderConfig F
  reader_config c = record {
    database_url = c.database_url;
    source_id = c.source_id;
    slot_name = c.slot_name;
    publication_name = c.publication_name;
    max_transaction_bytes = pos 0;
    max_transaction_changes = pos 0;
    max_value_bytes = pos 0;
    snapshot_batch_rows = pos 0;
    connection_timeout = pos 0;
    status_interval = pos 0;
    shutdown_timeout = pos 0;
    max_retained_wal_bytes = c.retention.max_retained_wal_bytes;
    retention_check_interval = pos 0;
    retention_sample_interval = c.retention.sample_interval;
    initial_backoff = pos 0;
    max_backoff = pos 0;
    max_attempts = pos 0;
    retention_warn_fraction = c.retention.warn_fraction;
    retention_degrade_fraction = c.retention.degrade_fraction;
    jitter = f.zero_float;
  }

  -- `validate`.
  unfoldable pub validate : Config F → Result DaemonError (Unit {0})
  validate c = do
    require (not (is_empty c.database_url)) invalid_config
    require (not (is_empty c.listen_address)) invalid_config
    require (not (is_empty c.projections)) invalid_config
    require (not (is_negative c.shutdown_timeout)) invalid_config
    validate_ops c.ops
    configured (accepted_config f (reader_config c) true)
    validate_specs (projection_specs c)
    server ← or_err (new_server (server_config c.source_id)) invalid_config
    ok tt

  -- The decoders of the libraries, `none` for an error: `yaml.YAMLToJSONStrict`, the decoder of JSON
  -- that refuses unknown fields, and whether there is more after what it read.
  pub record Codec : Type 0 where
    pub yaml_to_json_strict : Text → Option Text
    pub decode : Text → Option (Config F)
    pub more : Text → Bool

  module _ (codec : Codec) (database_url : Text) where
    -- What `ParseJSONConfig` does with a decoded configuration. The default is ten seconds.
    abbrev pub complete : Config F → Config F
    complete c = record c {
      database_url = database_url;
      shutdown_timeout = or_default c.shutdown_timeout (pos 10_000_000_000);
    }

    -- `ParseJSONConfig`, on what reading came to.
    unfoldable pub parse_json_config : Option Text → Result DaemonError (Config F)
    parse_json_config file = do
      text ← or_err file invalid_config
      converted ← or_err (codec.yaml_to_json_strict text) invalid_config
      decoded ← or_err (codec.decode text) invalid_config
      require (not (codec.more text)) invalid_config
      validate (complete decoded)
      ok (complete decoded)

    -- `ParseYAMLConfig`.
    unfoldable pub parse_yaml_config : Option Text → Result DaemonError (Config F)
    parse_yaml_config file = do
      text ← or_err file invalid_config
      converted ← or_err (codec.yaml_to_json_strict text) invalid_config
      parse_json_config (some converted)

-- `filepath.Ext`: the last dot of the last element of the path, and what follows it.
unfoldable pub ext_from : Text → Text → Text
ext_from best [] = best
ext_from best (c ∷ cs) = ext_from (if c == b'/' then [] else if c == b'.' then c ∷ cs else best) cs

module _ {F : Type 0} (f : FloatOrder F) (codec : Codec f) (database_url : Text) where
  -- The switch of `LoadConfig` over the lower-case extension.
  unfoldable pub parse_config : Text → Option Text → Result DaemonError (Config F)
  parse_config ext file =
      if text_eq ext (codes ".json")
      then parse_json_config f codec database_url file
      else if text_eq ext (codes ".yaml") || text_eq ext (codes ".yml")
      then parse_yaml_config f codec database_url file
      else err invalid_config

  -- `LoadConfig`, where the file cannot be opened (`none`), or reading it comes to this.
  unfoldable pub load_config : Text → Option (Option Text) → Result DaemonError (Config F)
  load_config path none = err invalid_config
  load_config path (some file) = parse_config (to_lower (ext_from [] path)) file
