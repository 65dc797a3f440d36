-- ===== src/Daemon/Command.antt =====
-- cmd/watchd/main.go: the process, and the code that it exits with.
use watchd.Base.{
  ℕ, ◌≡◌, refl, Bool, true, false, not, ◌&&◌, ◌||◌, List, [], Option, none, some, if◌then◌else◌,
  Text, Result, ok, err, is_empty, sym, Result-cases, ◌⊎◌, inl, inr, arith,
}
use watchd.Cdc.Config.{FloatOrder}
use watchd.Watch.Registry.{Watcher}
use watchd.Watch.Hub.{Hub}
use watchd.Watch.Serve.{new_hub}
use watchd.Daemon.Config.{
  Config, DaemonError, invalid_config, source_failed, internal_error, Codec, load_config,
  hub_config,
}
use watchd.Daemon.Accepted.{has_unnamed, is_none, Startable, load_config-Startable}
use watchd.Daemon.Serve.{
  Action, Wake, cancelled, source_done, server_stopped, TelemetryFault, invalid_environment,
  other_fault, Environment, is_some, with_ops, makes_parts, serve_parts, serve_source, serve, run,
}

-- The constants from `exitOK` on, and the switch of `run` over the error of `daemon.Run`.
abbrev pub exit_code : Result DaemonError (Unit {0}) → ℕ
exit_code (ok u) = 0
exit_code (err internal_error) = 1
exit_code (err invalid_config) = 2
exit_code (err source_failed) = 3

module _ {F : Type 0} (f : FloatOrder F) (memory : ℕ → Watcher) where
  abbrev pub run_loaded : Environment → Result DaemonError (Config F) → List Action × ℕ
  run_loaded env (err e) = ([], 2)
  run_loaded env (ok c) = ((run f memory c env).0, exit_code (run f memory c env).1)

  -- `run`: what the process does, and its exit code.
  unfoldable pub command :
      Codec f → Text → Text → Option (Option Text) → Environment → List Action × ℕ
  command codec url path file env = run_loaded env (load_config f codec url path file)

  abbrev pub wake_code : Wake → ℕ
  wake_code cancelled = 0
  wake_code source_done = 3
  wake_code server_stopped = 1

  -- The code of a process that has telemetry or not, by what the environment answers and by the
  -- names of its projections.
  abbrev pub telemetry_code : Option TelemetryFault → ℕ → ℕ
  telemetry_code (some invalid_environment) code = 2
  telemetry_code (some other_fault) code = 1
  telemetry_code none code = code

  abbrev pub parts_code : Environment → Bool → ℕ
  parts_code env unnamed =
      if unnamed || not (env.reader_instruments && (env.hub_instruments && env.server_instruments))
      then 2
      else if not env.gauge
      then 1
      else if env.starts
      then wake_code env.wake
      else 3

  abbrev pub listen_code : Environment → Bool → ℕ → ℕ
  listen_code env no_ops code = if env.listens && (no_ops || env.listens_ops) then code else 1

  parts-unnamed :
      (c : Config F) (env : Environment)
      → Startable f memory c
      → makes_parts f memory c env
        ≡ not (
            has_unnamed c.projections
            || not (env.reader_instruments && (env.hub_instruments && env.server_instruments)))
  unfolding makes_parts
  parts-unnamed c env h =
      rw (h.0.1, h.1.1, sym h.2)
        (go (new_hub memory (hub_config f c)) env.reader_instruments env.hub_instruments
          env.server_instruments)
    where
      go :
          (o : Option Hub) (a b d : Bool)
          → ((true && a) && ((is_some o && b) && (true && d)))
            ≡ not (is_none o || not (a && (b && d)))
      go none true b d = refl
      go none false b d = refl
      go (some hub) true true d = ground arith
      go (some hub) true false d = refl
      go (some hub) false b d = refl

  -- Where the parts are made.
  source_code :
      (env : Environment) (has_ops : Bool)
      → exit_code (with_ops has_ops (serve_source env)).1
        ≡ (if env.starts then wake_code env.wake else 3)
  unfolding serve_source
  source_code env true = ground arith
  source_code env false = ground arith

  serve_parts_code :
      (c : Config F) (env : Environment) (has_ops : Bool)
      → Startable f memory c
      → exit_code (serve_parts f memory c env has_ops).1
        ≡ parts_code env (has_unnamed c.projections)
  unfolding serve_parts
  serve_parts_code c env has_ops h = ground (arith, parts-unnamed c env h, source_code env has_ops)

  serve_code :
      (c : Config F) (env : Environment) (has_ops : Bool)
      → Startable f memory c
      → exit_code (serve f memory c env has_ops).1
        ≡ telemetry_code env.telemetry (parts_code env (has_unnamed c.projections))
  unfolding serve
  serve_code c env has_ops h = ground (arith, serve_parts_code c env has_ops h)

  -- The exit code of a process whose configuration is loaded: 1 where a listener or the gauge is not
  -- made, or telemetry is not for another reason than its environment, or the server stopped; 2 where
  -- the environment of telemetry is invalid, instruments are not made, or a projection has no name; 3
  -- where the source did not start, or its stream ended; and 0 only where it was cancelled. One whose
  -- configuration is not loaded does nothing and exits with 2.
  pub command_code :
      (codec : Codec f) (url path : Text) (file : Option (Option Text)) (env : Environment)
      → let loaded = load_config f codec url path file in
        ((e : DaemonError) × (loaded ≡ err e) × (command codec url path file env ≡ ([], 2)))
        ⊎ ((c : Config F) × (loaded ≡ ok c)
            × ((command codec url path file env).1
                ≡ listen_code env
                    (is_empty c.ops.listen_address)
                    (telemetry_code env.telemetry (parts_code env (has_unnamed c.projections)))))
  unfolding command run
  command_code codec url path file env = elim (Result-cases (load_config f codec url path file)) [
    | inr (e, h) ↦ inl (e, h, rw h)
    | inl (c, h) ↦
        let s = load_config-Startable f memory codec url path file c h in
        inr (c, h, rw h (ground (arith, serve_code c env true s, serve_code c env false s)))
  ]
