-- ===== src/Supervisor/State.antt =====
-- electron/main/engineSupervisor.ts: the state of `EngineSupervisor`, what it does to its
-- surroundings, and the small operations that the others are made of.
use vanilla_bus.Prelude.{
  ℕ, Bool, true, false, ◌||◌, List, [], ◌∷◌, ◌++◌, Option, none, some, Text, if◌then◌else◌,
}
use vanilla_bus.Engine.Value.{Number}
use vanilla_bus.Engine.Types.{RxBatch}
use vanilla_bus.Client.State.{EngineHello}

-- `EngineStatus` of shared/engine.ts
pub record EngineStatus : Type 0 where
  pub connected : Bool
  pub hello : Option EngineHello

abbrev pub offline : EngineStatus
offline = record { connected = false; hello = none }

abbrev pub online : EngineHello → EngineStatus
online hello = record { connected = true; hello = some hello }

abbrev pub connect_attempts : ℕ
connect_attempts = 40

-- `this.child`: the launch that spawned it, and whether it has an `exitCode`. Its `killed` is set by
-- `killChild` alone, which lets go of the child.
pub record Child : Type 0 where
  pub spawned_by : ℕ
  pub has_exit_code : Bool

-- A client is named by the launch that its callbacks belong to. `heartbeat_log_generation` is none
-- for -1, and `restart_timer` says whether the timer is set.
pub record Supervisor : Type 0 where
  pub child : Option Child
  pub client : Option ℕ
  pub ipc_path : Option Text
  pub generation : ℕ
  pub heartbeat_log_generation : Option ℕ
  pub stopping : Bool
  pub restart_timer : Bool
  pub status : EngineStatus

abbrev pub fresh_supervisor : Supervisor
fresh_supervisor = record {
  child = none;
  client = none;
  ipc_path = none;
  generation = 0;
  heartbeat_log_generation = none;
  stopping = false;
  restart_timer = false;
  status = offline;
}

-- What is done, and what the surroundings did: `exits_` is the end of a process. A launch is named
-- by its generation.
pub data Action : Type 0 where
  spawns : ℕ → Text → Action
  kills : ℕ → Action
  ended : ℕ → Action
  connects : ℕ → ℕ → Action
  sleeps : ℕ → ℕ → Action
  closes : ℕ → Action
  greets : ℕ → Action
  arms_timer : Action
  notifies : EngineStatus → Action
  logs_beat : Number → Action
  passes : RxBatch → Action

-- an operation after others
abbrev pub and_then :
    Supervisor × List Action → (Supervisor → Supervisor × List Action) → Supervisor × List Action
and_then (s, earlier) f = ((f s).0, earlier ++ (f s).1)

abbrev pub close_client : Option ℕ → List Action
close_client none = []
close_client (some g) = closes g ∷ []

abbrev pub teardown_client : Supervisor → Supervisor × List Action
teardown_client s = (record s { client = none }, close_client s.client)

abbrev pub terminate : Option Child → List Action
terminate none = []
terminate (some child) = if child.has_exit_code then [] else kills child.spawned_by ∷ []

abbrev pub kill_child : Supervisor → Supervisor × List Action
kill_child s = (record s { child = none }, terminate s.child)

abbrev pub set_status : EngineStatus → Supervisor → Supervisor × List Action
set_status next s = (record s { status = next }, notifies next ∷ [])

unfoldable pub schedule_restart : Supervisor → Supervisor × List Action
schedule_restart s =
    if s.stopping || s.restart_timer
    then (s, [])
    else (record s { restart_timer = true }, arms_timer ∷ [])
