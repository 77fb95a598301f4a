-- ===== src/Supervisor.antt =====
-- electron/main/engineSupervisor.ts: `EngineSupervisor`, which keeps one engine process running, as
-- a step function on events, and the states that it can reach. The listeners of `onStatus` and
-- `onRxBatch` are the action `notifies` and `passes`; `Calls` has the requests to the engine.
pub mod State
pub mod Launch
pub mod Payload
pub mod Answers
pub mod Calls
pub mod Invariant
pub mod Reached
pub mod Exit
pub mod Relaunch
pub mod Safety
pub mod Respawn
mod Tests
use vanilla_bus.Prelude.{
  ℕ, ◌+◌, ◌≡◌, Bool, true, false, ◌||◌, ◌&&◌, not, List, [], ◌∷◌, ◌++◌, any, Option, none, some,
  Text, ◌==◌, if◌then◌else◌,
}
use vanilla_bus.Engine.Value.{Number}
use vanilla_bus.Engine.Types.{RxBatch}
use vanilla_bus.Client.State.{EngineHello}
use vanilla_bus.Supervisor.State.{
  Supervisor, Child, Action, spawns, connects, ended, logs_beat, passes, offline, online, and_then,
  teardown_client, kill_child, set_status, schedule_restart, fresh_supervisor,
}
use vanilla_bus.Supervisor.Launch.{
  is_stale, attempt_from, start, stop, restart, attached, attach_failed,
}

-- Calls of `start` and `stop`, the timer, what becomes of the process and the connection of a
-- launch, and the callbacks of its client. An exit by a signal has no exit code.
pub data Event : Type 0 where
  starts : Bool → Option Text → Event
  stops : Event
  restarts : Option Text → Event
  exits : ℕ → Bool → Event
  connect_resolves : ℕ → Event
  connect_rejects wakes : ℕ → ℕ → Event
  hello_comes : ℕ → EngineHello → Event
  beat_comes : ℕ → Number → Event
  disconnect_comes : ℕ → Event
  batch_comes : ℕ → RxBatch → Event

-- node sets `exitCode` before the event
abbrev pub mark_exit : ℕ → Bool → Option Child → Option Child
mark_exit g by_code none = none
mark_exit g by_code (some child) =
    some
      (record child { has_exit_code = child.has_exit_code || (child.spawned_by == g && by_code) })

unfoldable pub on_exit : ℕ → Supervisor → Supervisor × List Action
on_exit g s =
    if is_stale g s
    then (s, [])
    else and_then (and_then (teardown_client s) (set_status offline)) schedule_restart

unfoldable pub on_hello : ℕ → EngineHello → Supervisor → Supervisor × List Action
on_hello g hello s = if is_stale g s then (s, []) else set_status (online hello) s

abbrev pub is_logged : ℕ → Option ℕ → Bool
is_logged g none = false
is_logged g (some h) = h == g

unfoldable pub on_heartbeat : ℕ → Number → Supervisor → Supervisor × List Action
on_heartbeat g ts_us s =
    if is_stale g s
    then (s, [])
    else if is_logged g s.heartbeat_log_generation
    then (s, [])
    else (record s { heartbeat_log_generation = some g }, logs_beat ts_us ∷ [])

unfoldable pub on_disconnect : ℕ → Supervisor → Supervisor × List Action
on_disconnect g s =
    if is_stale g s || s.stopping then (s, []) else and_then (set_status offline s) kill_child

unfoldable pub on_rx_batch : ℕ → RxBatch → Supervisor → Supervisor × List Action
on_rx_batch g batch s = if is_stale g s then (s, []) else (s, passes batch ∷ [])

unfoldable pub step : Supervisor → Event → Supervisor × List Action
step s (starts linux path) = start linux path s
step s stops = stop s
step s (restarts path) = restart path s
step s (exits g by_code) =
    and_then (record s { child = mark_exit g by_code s.child }, ended g ∷ []) (on_exit g)
step s (connect_resolves g) = attached g s
step s (connect_rejects g attempt) = attach_failed g attempt s
step s (wakes g attempt) = attempt_from g (attempt + 1) s
step s (hello_comes g hello) = on_hello g hello s
step s (beat_comes g ts_us) = on_heartbeat g ts_us s
step s (disconnect_comes g) = on_disconnect g s
step s (batch_comes g batch) = on_rx_batch g batch s

abbrev pub is_launch : ℕ → Action → Bool
is_launch g (spawns h path) = h == g
is_launch g (connects h attempt) = h == g
is_launch g _ = false

-- whether a process or a client of this launch was made
abbrev pub was_launched : ℕ → List Action → Bool
was_launched g = any (is_launch g)

-- When an event can come: the timer is set, a launch that it names was made.
abbrev pub IsEnabled : Supervisor → List Action → Event → Type 0
IsEnabled s done (starts linux path) = Unit {0}
IsEnabled s done stops = Unit {0}
IsEnabled s done (restarts path) = s.restart_timer ≡ true
IsEnabled s done (exits g by_code) = was_launched g done ≡ true
IsEnabled s done (connect_resolves g) = was_launched g done ≡ true
IsEnabled s done (connect_rejects g attempt) = was_launched g done ≡ true
IsEnabled s done (wakes g attempt) = was_launched g done ≡ true
IsEnabled s done (hello_comes g hello) = was_launched g done ≡ true
IsEnabled s done (beat_comes g ts_us) = was_launched g done ≡ true
IsEnabled s done (disconnect_comes g) = was_launched g done ≡ true
IsEnabled s done (batch_comes g batch) = was_launched g done ≡ true

-- the states that a supervisor can reach, each with all that was done
pub data Reach : Supervisor → List Action → Type 0 where
  begin : Reach fresh_supervisor []
  next :
      {s : Supervisor} {done : List Action} (event : Event)
      → Reach s done
      → IsEnabled s done event
      → Reach (step s event).0 (done ++ (step s event).1)
