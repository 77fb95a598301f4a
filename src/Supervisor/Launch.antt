-- ===== src/Supervisor/Launch.antt =====
-- electron/main/engineSupervisor.ts: `start`, `stop`, `launch` and the loop of `connectWithRetry`,
-- cut at its `await`s.
use vanilla_bus.Prelude.{
  ℕ, ◌+◌, Bool, true, false, not, ◌||◌, List, [], ◌∷◌, Option, none, some, Text, ltb, ◌==◌,
  if◌then◌else◌,
}
use vanilla_bus.Supervisor.State.{
  Supervisor, Action, spawns, connects, sleeps, closes, greets, offline, connect_attempts, and_then,
  teardown_client, kill_child, set_status, schedule_restart,
}

abbrev pub is_stale : ℕ → Supervisor → Bool
is_stale g s = not (g == s.generation)

-- The loop at the attempt with this number; past the last one, the `catch` of `launch`.
unfoldable pub attempt_from : ℕ → ℕ → Supervisor → Supervisor × List Action
attempt_from g attempt s =
    if ltb attempt connect_attempts
    then (if s.stopping || is_stale g s then (s, []) else (s, connects g attempt ∷ []))
    else (if is_stale g s || s.stopping then (s, []) else kill_child s)

unfoldable pub spawn_engine : ℕ → Text → Supervisor → Supervisor × List Action
spawn_engine g path s = (
  record s {
    ipc_path = some path;
    child = some (record { spawned_by = g; has_exit_code = false });
  },
  spawns g path ∷ [],
)

-- `launch` from `createIpcSocketPath` on; `none` is its exception
unfoldable pub launch_at : ℕ → Option Text → Supervisor → Supervisor × List Action
launch_at g none s = schedule_restart s
launch_at g (some path) s = and_then (spawn_engine g path s) (attempt_from g 0)

unfoldable pub launch : Option Text → Supervisor → Supervisor × List Action
launch path s =
    if s.stopping
    then (s, [])
    else and_then
        (and_then (teardown_client (record s { generation = s.generation + 1 })) kill_child)
        (launch_at (s.generation + 1) path)

-- `process.platform` and the result of `createIpcSocketPath` are arguments
unfoldable pub start : Bool → Option Text → Supervisor → Supervisor × List Action
start linux path s = if linux then launch path (record s { stopping = false }) else (s, [])

unfoldable pub stop : Supervisor → Supervisor × List Action
stop s =
    and_then
      (and_then
        (teardown_client
          (record s { stopping = true; restart_timer = false; generation = s.generation + 1 }))
        kill_child)
      (set_status offline)

-- the timer of `scheduleRestart`
unfoldable pub restart : Option Text → Supervisor → Supervisor × List Action
restart path s = launch path (record s { restart_timer = false })

-- `attachClient` behind its `await`: the connection stands, or it failed
unfoldable pub attached : ℕ → Supervisor → Supervisor × List Action
attached g s = (record s { client = some g }, greets g ∷ [])

abbrev pub attach_failed : ℕ → ℕ → Supervisor → Supervisor × List Action
attach_failed g attempt s = (s, closes g ∷ sleeps g attempt ∷ [])
