-- ===== src/Tests/Daemons.antt =====
-- internal/daemon and cmd/watchd on a configuration of one projection.
use watchd.Base.{
  ℕ, pos, ◌≡◌, refl, true, false, ltb, ◌==◌, [], ◌∷◌, Option, none, some, Text, codes, text_eq, ok,
  err, ◌⊎◌, is_empty,
}
use watchd.Cdc.Config.{FloatOrder, accepted_config}
use watchd.Cdc.Validation.{is_identifier, validate_projection_spec_config}
use watchd.Server.{new_server}
use watchd.Watch.Registry.{Watcher}
use watchd.Daemon.Config.{
  Config, Codec, ProjectionConfig, DaemonError, load_config, parse_config, parse_json_config,
  parse_yaml_config, ext_from, validate, validate_ops, validate_specs, specs_of, reader_config,
  complete,
}
use watchd.Daemon.Accepted.{Startable, load_config-Startable, has_unnamed}
use watchd.Daemon.Serve.{Environment, Wake, serve}
use watchd.Daemon.Phases.{all_stopped, follow, opened_process, serve_orderly}
use watchd.Daemon.Command.{command, listen_code, telemetry_code, parts_code, command_code}

-- Fractions in percent.
abbrev percent : FloatOrder ℕ
percent = record {
  zero_float = 0;
  one_float = 100;
  half = 50;
  four_fifths = 80;
  one_fifth = 20;
  is_zero_float = λ a. a == 0;
  below = λ a b. ltb a b;
}

abbrev grants : ProjectionConfig
grants = record {
  schema = codes "public";
  table = codes "grants";
  scope_column = codes "id";
  primary_key = codes "id" ∷ [];
}

abbrev written : Config ℕ
written = record {
  source_id = codes "s";
  slot_name = codes "slot_1";
  publication_name = codes "grants";
  listen_address = codes ":7070";
  projections = (codes "grants", grants) ∷ [];
  shutdown_timeout = pos 0;
  ops = record {
    listen_address = [];
    pprof = false;
    mutex_profile_fraction = pos 0;
    block_profile_rate = pos 0;
  };
  retention = record {
    max_retained_wal_bytes = pos 0;
    warn_fraction = 0;
    degrade_fraction = 0;
    sample_interval = pos 0;
  };
  database_url = [];
}

-- Every file holds this configuration.
abbrev codec : Codec percent
codec = record { yaml_to_json_strict = λ t. some t; decode = λ t. some written; more = λ t. false }

abbrev loaded : Config ℕ
loaded = complete percent codec (codes "postgres://db") written

abbrev path : Text
path = codes "etc.d/watchd.YAML"

abbrev file : Option (Option Text)
file = some (some [])

loads : load_config percent codec (codes "postgres://db") path file ≡ ok loaded
unfolding load_config parse_config parse_json_config parse_yaml_config ext_from validate
    validate_ops validate_specs specs_of reader_config accepted_config is_identifier
    validate_projection_spec_config new_server text_eq
loads = refl

abbrev blank : ℕ → Watcher
blank p = record {
  projection = record {
    spec = record { source_id = []; schema = []; table = []; scope_column = []; primary_key = [] };
    table = [];
  };
  scope = [];
  queue = [];
  overflow = none;
}

load_config-Startable_example : Startable percent blank loaded
load_config-Startable_example =
    load_config-Startable percent blank codec (codes "postgres://db") path file loaded loads

-- The stream ends, and the server does not drain in time.
abbrev ended : Environment
ended = record {
  listens = true;
  listens_ops = true;
  telemetry = none;
  reader_instruments = true;
  hub_instruments = true;
  server_instruments = true;
  gauge = true;
  starts = true;
  wake = Wake.source_done;
  drains = false;
  stops = false;
}

serve_orderly_example :
    all_stopped false (follow (serve percent blank loaded ended true).0 (opened_process true))
    ≡ true
serve_orderly_example = serve_orderly percent blank loaded ended true

command_code_example :
    let result = load_config percent codec (codes "postgres://db") path file in
    ((e : DaemonError) × (result ≡ err e)
      × (command percent blank codec (codes "postgres://db") path file ended ≡ ([], 2)))
    ⊎ ((c : Config ℕ) × (result ≡ ok c)
        × ((command percent blank codec (codes "postgres://db") path file ended).1
            ≡ listen_code percent blank ended (is_empty c.ops.listen_address) (
                telemetry_code percent blank none
                  (parts_code percent blank ended (has_unnamed c.projections)))))
command_code_example = command_code percent blank codec (codes "postgres://db") path file ended
