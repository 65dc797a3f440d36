-- ===== src/Daemon/Serve.antt =====
-- internal/daemon/daemon.go: `Run` and `Serve`, as the order of what they do and the error that they
-- return. What the environment answers is a parameter: whether sockets are there, whether instruments
-- are made, what ends the process, and whether the server drains and the source stops in time.
use watchd.Base.{
  ℕ, Bool, true, false, not, ◌&&◌, List, [], ◌∷◌, ◌++◌, Option, none, some, if◌then◌else◌, Result,
  ok, err, is_empty,
}
use watchd.Cdc.Config.{FloatOrder, accepted_config}
use watchd.Server.{new_server}
use watchd.Watch.Registry.{Watcher}
use watchd.Watch.Serve.{new_hub}
use watchd.Daemon.Config.{
  Config, DaemonError, invalid_config, source_failed, internal_error, hub_config, reader_config,
  server_config,
}

-- What the `select` of `Serve` wakes on.
pub data Wake : Type 0 where
  cancelled source_done server_stopped : Wake

-- What `Serve` does to the sockets, the source, the health of the server, the hub and telemetry, and
-- what it meets: `source_refused` is a `source.Start` that fails, `woke` the end of its first select,
-- and `drained` that of `GracefulStop`. `cancel_source` only cancels the source's context; then
-- `source.Done` is closed in time, or `source_late` is logged.
pub data Action : Type 0 where
  close_api close_ops start_ops stop_ops start_source source_refused serve_api : Action
  set_serving : Bool → Action
  woke : Wake → Action
  stop_hub graceful_stop force_stop drained cancel_source source_over source_late flush : Action

-- How `telemetry.Setup` fails.
pub data TelemetryFault : Type 0 where
  invalid_environment other_fault : TelemetryFault

pub record Environment : Type 0 where
  pub listens : Bool
  pub listens_ops : Bool
  pub telemetry : Option TelemetryFault
  pub reader_instruments : Bool
  pub hub_instruments : Bool
  pub server_instruments : Bool
  pub gauge : Bool
  pub starts : Bool
  pub wake : Wake
  pub drains : Bool
  pub stops : Bool

-- The actions in order, and what is returned.
abbrev pub Served : Type 0
Served = List Action × Result DaemonError (Unit {0})

-- `closeListeners`.
abbrev pub close_listeners : Bool → List Action
close_listeners has_ops = close_api ∷ (if has_ops then close_ops ∷ [] else [])

-- The error that the process ends with.
abbrev pub failure : Wake → Result DaemonError (Unit {0})
failure cancelled = ok tt
failure source_done = err source_failed
failure server_stopped = err internal_error

-- Is `source.Done` closed within the timeout? That of a source that has ended already is.
abbrev pub source_ends : Wake → Bool → Bool
source_ends source_done stops = true
source_ends cancelled stops = stops
source_ends server_stopped stops = stops

-- `Serve` from the start of the source on, with the deferred `stopSource`.
unfoldable pub serve_source : Environment → Served
serve_source env =
    if not env.starts
    then (source_refused ∷ close_api ∷ cancel_source ∷ [], err source_failed)
    else (
      start_source
          ∷ serve_api
          ∷ set_serving true
          ∷ woke env.wake
          ∷ set_serving false
          ∷ stop_hub
          ∷ graceful_stop
          ∷ ((if env.drains then [] else force_stop ∷ [])
              ++ (drained
                  ∷ cancel_source
                  ∷ (if source_ends env.wake env.stops then source_over else source_late)
                  ∷ cancel_source
                  ∷ [])),
      failure env.wake,
    )

-- `startOps`, and the deferred `stopOps`.
abbrev pub with_ops : Bool → Served → Served
with_ops has_ops (actions, result) =
    if has_ops then (start_ops ∷ (actions ++ stop_ops ∷ []), result) else (actions, result)

abbrev pub is_ok {ℓ κ} : {E : Type ℓ} {A : Type κ} → Result E A → Bool
is_ok (ok a) = true
is_ok (err e) = false

abbrev pub is_some {ℓ} : {A : Type ℓ} → Option A → Bool
is_some none = false
is_some (some a) = true

abbrev pub with_flush : Served → Served
with_flush (actions, result) = (actions ++ flush ∷ [], result)

module _ {F : Type 0} (f : FloatOrder F) (memory : ℕ → Watcher) (c : Config F) where
  -- Are the source, the hub and the server made?
  unfoldable pub makes_parts : Environment → Bool
  makes_parts env =
      (is_ok (accepted_config f (reader_config f c) true) && env.reader_instruments)
      && ((is_some (new_hub memory (hub_config f c)) && env.hub_instruments)
          && (is_some (new_server (server_config c.source_id)) && env.server_instruments))

  -- `Serve` once telemetry is set up, with its deferred flush.
  unfoldable pub serve_parts : Environment → Bool → Served
  serve_parts env has_ops =
      if not (makes_parts env)
      then (close_listeners has_ops, err invalid_config)
      else if not env.gauge
      then (close_listeners has_ops, err internal_error)
      else with_ops has_ops (serve_source env)

  -- `Serve`; is there a listener for ops?
  unfoldable pub serve : Environment → Bool → Served
  serve env has_ops = elim env.telemetry [
    | some fault ↦ elim fault [
      | invalid_environment ↦ (close_listeners has_ops, err invalid_config)
      | other_fault ↦ (close_listeners has_ops, err internal_error)
    ]
    | none ↦ with_flush (serve_parts env has_ops)
  ]

  -- `Run`.
  unfoldable pub run : Environment → Served
  run env =
      if not env.listens
      then ([], err internal_error)
      else if is_empty c.ops.listen_address
      then serve env false
      else if env.listens_ops
      then serve env true
      else (close_api ∷ [], err internal_error)
