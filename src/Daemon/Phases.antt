-- ===== src/Daemon/Phases.antt =====
-- internal/daemon/daemon.go: the order in which a process starts and stops, described on its own as a
-- machine that allows an action or not, and that `Serve` keeps to it.
use watchd.Base.{
  ℕ, ◌≡◌, refl, Bool, true, false, not, ◌&&◌, ◌||◌, List, [], ◌∷◌, ◌++◌, Option, none, some,
  if◌then◌else◌, Bool-cases, Option-cases, inl, inr, arith,
}
use watchd.Cdc.Config.{FloatOrder}
use watchd.Watch.Registry.{Watcher}
use watchd.Daemon.Config.{Config}
use watchd.Daemon.Serve.{
  Action, close_api, close_ops, start_ops, stop_ops, start_source, source_refused, serve_api,
  set_serving, stop_hub, graceful_stop, force_stop, drained, cancel_source, source_over,
  source_late, woke, flush, cancelled, source_done, server_stopped, source_ends, Environment,
  close_listeners, with_ops, with_flush, serve_source, serve_parts, makes_parts, serve,
  invalid_environment, other_fault,
}

-- A socket whose server has stopped on its own is `broken` until it is closed.
pub data Socket : Type 0 where
  missing listening serving broken draining closed : Socket

-- A source that was cancelled may still run for a while; `over` is one that has ended.
pub data SourceState : Type 0 where
  idle running ending over : SourceState

abbrev pub is_listening : Socket → Bool
is_listening listening = true
is_listening _ = false

abbrev pub is_serving : Socket → Bool
is_serving serving = true
is_serving _ = false

-- The server was started and is not drained.
abbrev pub is_up : Socket → Bool
is_up serving = true
is_up broken = true
is_up _ = false

abbrev pub is_draining : Socket → Bool
is_draining draining = true
is_draining _ = false

-- Nothing is open.
abbrev pub is_shut : Socket → Bool
is_shut missing = true
is_shut closed = true
is_shut _ = false

abbrev pub is_idle : SourceState → Bool
is_idle idle = true
is_idle _ = false

abbrev pub is_running : SourceState → Bool
is_running running = true
is_running _ = false

abbrev pub is_over : SourceState → Bool
is_over over = true
is_over _ = false

abbrev pub cancel : SourceState → SourceState
cancel running = ending
cancel p = p

pub record Process : Type 0 where
  pub api : Socket
  pub ops : Socket
  pub source : SourceState
  pub late : Bool
  pub ready : Bool
  pub hub_stopped : Bool
  pub flushed : Bool

abbrev pub is_ending : SourceState → Bool
is_ending ending = true
is_ending _ = false

-- The source never started, has ended, or was cancelled and did not end in time.
abbrev pub source_left : SourceState → Bool → Bool
source_left idle late = true
source_left over late = true
source_left ending late = late
source_left running late = false

abbrev pub allow : Bool → Process → Option Process
allow true p = some p
allow false p = none

-- The API starts to serve only over a running source; the process gets ready only while the API serves
-- and the source runs, and when one of them has ended, or the process is told to stop, it gets not
-- ready first. Then the hub is stopped, and the server drains after it; the source is cancelled only
-- once the server has drained, and has ended, or was waited for in vain, before ops is stopped, and
-- telemetry is flushed last. No socket is closed twice.
unfoldable pub step : Action → Process → Option Process
step close_api p = allow (is_listening p.api) (record p { api = closed })
step close_ops p = allow (is_listening p.ops) (record p { ops = closed })
step start_ops p = allow (is_listening p.ops && is_idle p.source) (record p { ops = serving })
step stop_ops p =
    allow (is_serving p.ops && (is_shut p.api && source_left p.source p.late))
      (record p { ops = closed })
step start_source p = allow (is_idle p.source && is_listening p.api) (record p { source = running })
step source_refused p = allow (is_idle p.source && is_listening p.api) p
step serve_api p = allow (is_listening p.api && is_running p.source) (record p { api = serving })
step (set_serving true) p =
    allow (is_serving p.api && is_running p.source) (record p { ready = true })
step (set_serving false) p = some (record p { ready = false })
step (woke cancelled) p = allow p.ready p
step (woke source_done) p = allow (is_running p.source) (record p { source = over })
step (woke server_stopped) p = allow (is_serving p.api) (record p { api = broken })
step stop_hub p = allow (not p.ready && is_up p.api) (record p { hub_stopped = true })
step graceful_stop p = allow (p.hub_stopped && is_up p.api) (record p { api = draining })
step force_stop p = allow (is_draining p.api) p
step drained p = allow (is_draining p.api) (record p { api = closed })
step cancel_source p = allow (not p.ready && is_shut p.api) (record p { source = cancel p.source })
step source_over p = allow (is_over p.source || is_ending p.source) (record p { source = over })
step source_late p = allow (is_ending p.source) (record p { late = true })
step flush p =
    allow (is_shut p.api && (is_shut p.ops && source_left p.source p.late))
      (record p { flushed = true })

unfoldable pub follow : List Action → Process → Option Process
follow [] p = some p
follow (a ∷ actions) p = elim (step a p) [ none ↦ none | some p' ↦ follow actions p' ]

-- The process that `Serve` is called in: its listeners are there.
abbrev pub opened_process : Bool → Process
opened_process has_ops = record {
  api = listening;
  ops = if has_ops then listening else missing;
  source = idle;
  late = false;
  ready = false;
  hub_stopped = false;
  flushed = false;
}

-- The machine allowed all actions, all sockets are closed in the end, the process is not ready, and the
-- source was left; it was waited for in vain only where it may be late, and not where it had ended.
abbrev pub all_stopped : Bool → Option Process → Bool
all_stopped may_be_late none = false
all_stopped may_be_late (some p) =
    is_shut p.api
    && (is_shut p.ops
        && (not p.ready
            && (source_left p.source p.late
                && (not p.late || (may_be_late && is_ending p.source)))))

source_orderly :
    (env : Environment) (has_ops : Bool)
    → all_stopped
        (not (source_ends env.wake env.stops))
        (follow (with_flush (with_ops has_ops (serve_source env))).0 (opened_process has_ops))
      ≡ true
unfolding serve_source follow step
source_orderly env true = ground arith
source_orderly env false = ground arith

closed_orderly :
    (late has_ops : Bool)
    → all_stopped late (follow (close_listeners has_ops) (opened_process has_ops)) ≡ true
unfolding follow step
closed_orderly late true = refl
closed_orderly late false = refl

flushed_orderly :
    (late has_ops : Bool)
    → all_stopped late (follow (close_listeners has_ops ++ flush ∷ []) (opened_process has_ops))
      ≡ true
unfolding follow step
flushed_orderly late true = refl
flushed_orderly late false = refl

module _ {F : Type 0} (f : FloatOrder F) (memory : ℕ → Watcher) (c : Config F) where
  -- Whatever fails and whatever ends it, `Serve` acts in the order that the machine allows: it starts
  -- to serve, and gets ready, only over a running source; when it is told to stop, or the source or
  -- the server has ended, it is first not ready any more, and then stops the hub, the server, the
  -- source, the ops endpoint and telemetry in this order. At the end every listener that it was given
  -- is closed, once, the process is not ready, and the source never started, has ended, or was
  -- cancelled and did not end within the timeout.
  pub serve_orderly :
      (env : Environment) (has_ops : Bool)
      → all_stopped
          (not (source_ends env.wake env.stops))
          (follow (serve f memory c env has_ops).0 (opened_process has_ops))
        ≡ true
  unfolding serve serve_parts serve_source
  serve_orderly env has_ops = elim (Option-cases env.telemetry) [
    | inr (invalid_environment, e) ↦ rw (e, serve) (closed_orderly _ has_ops)
    | inr (other_fault, e) ↦ rw (e, serve) (closed_orderly _ has_ops)
    | inl e ↦ elim (Bool-cases (makes_parts f memory c env)) [
      | inr e' ↦ rw (e, e', serve) (flushed_orderly _ has_ops)
      | inl e' ↦ elim (Bool-cases env.gauge) [
        | inr e'' ↦ rw (e, e', e'', serve) (flushed_orderly _ has_ops)
        | inl e'' ↦ rw (e, e', e'', serve) (source_orderly env has_ops)
      ]
    ]
  ]
