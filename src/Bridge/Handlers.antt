-- ===== src/Bridge/Handlers.antt =====
-- electron/main/ipc-bridge.ts: the handlers of the IPC channels, and what is broadcast.
use vanilla_bus.Prelude.{Bool, true, false, List, [], ◌∷◌, ◌++◌, Option, none, some, Text, codes}
use vanilla_bus.Engine.Value.{Value, nonempty_string}
use vanilla_bus.Client.State.{EngineHello, RequestError}
use vanilla_bus.Supervisor.State.{EngineStatus}
use vanilla_bus.Supervisor.Calls.{
  Call, list_buses, open_bus, close_bus, clear_dbc, stop_cyclic, load_dbc, send_frame, start_cyclic,
  Outcome,
}
use vanilla_bus.Bridge.Types.{Checked, ok, refused, invalid}
use vanilla_bus.Bridge.Requests.{
  optional_integer, parse_tx_send_request, parse_tx_cyclic_start_request,
}

-- a call of the renderer, on the channel with this name
pub data Invocation : Type 0 where
  bus_list : Invocation
  bus_open dbc_load : Value → Value → Invocation
  bus_close dbc_clear tx_send tx_cyclic_start tx_cyclic_stop : Value → Invocation

abbrev pub or_invalid : Text → Option Text → (Text → Checked Call) → Checked Call
or_invalid message none f = invalid message
or_invalid message (some s) f = f s

abbrev pub then_call {ℓ} : {A : Type ℓ} → (A → Call) → Checked A → Checked Call
then_call f (ok a) = ok (f a)
then_call f (refused error) = refused error

-- the part of a handler in front of its `try`
unfoldable pub check : Invocation → Checked Call
check bus_list = ok list_buses
check (bus_open name bitrate) =
    or_invalid (codes "openBus requires a name") (nonempty_string name)
      (λ s. ok (open_bus s (optional_integer bitrate)))
check (bus_close bus_id) =
    or_invalid (codes "closeBus requires a busId") (nonempty_string bus_id) (λ s. ok (close_bus s))
check (dbc_load bus_id path) =
    or_invalid (codes "loadDbc requires a busId") (nonempty_string bus_id) (λ s.
      or_invalid (codes "loadDbc requires a path") (nonempty_string path) (λ p. ok (load_dbc s p)))
check (dbc_clear bus_id) =
    or_invalid (codes "clearDbc requires a busId") (nonempty_string bus_id) (λ s. ok (clear_dbc s))
check (tx_send request) = then_call send_frame (parse_tx_send_request request)
check (tx_cyclic_start request) = then_call start_cyclic (parse_tx_cyclic_start_request request)
check (tx_cyclic_stop job_id) =
    or_invalid (codes "stopCyclic requires a job_id") (nonempty_string job_id)
      (λ s. ok (stop_cyclic s))

-- what a call throws: an `EngineRequestError`, another `Error`, anything else as its `String`
pub data Thrown : Type 0 where
  request_error : RequestError → Thrown
  error_ : Text → Thrown
  other : Text → Thrown

abbrev pub as_error : Thrown → RequestError
as_error (request_error error) = error
as_error (error_ message) = record { code = codes "internal"; message = message }
as_error (other text) = record { code = codes "internal"; message = text }

pub data Settled : Type 0 where
  resolved : Outcome → Settled
  rejected : Thrown → Settled

abbrev pub settled_reply : Settled → Checked Outcome
settled_reply (resolved outcome) = ok outcome
settled_reply (rejected thrown) = refused (as_error thrown)

-- the handler, over what becomes of each call of the supervisor
unfoldable pub handle : (Call → Settled) → Invocation → Checked Outcome
handle supervisor invocation = elim (check invocation) [
  | ok call ↦ settled_reply (supervisor call)
  | refused error ↦ refused error
]

-- `EngineInfo`: all fields but `connected` are those of the hello
pub record EngineInfo : Type 0 where
  pub connected : Bool
  pub hello : Option EngineHello

abbrev pub disconnected_info : EngineInfo
disconnected_info = record { connected = false; hello = none }

abbrev pub info_of : Bool → Option EngineHello → EngineInfo
info_of true (some hello) = record { connected = true; hello = some hello }
info_of _ _ = disconnected_info

abbrev pub engine_info_from_status : EngineStatus → EngineInfo
engine_info_from_status status = info_of status.connected status.hello

pub data Broadcast : Type 0 where
  engine_info : EngineInfo → Broadcast
  connected_event disconnected_event : EngineInfo → Broadcast

abbrev pub event_between : Bool → Bool → EngineInfo → List Broadcast
event_between true true info = []
event_between false false info = []
event_between false true info = connected_event info ∷ []
event_between true false info = disconnected_event info ∷ []

abbrev pub connection_event_from_transition : EngineStatus → EngineStatus → List Broadcast
connection_event_from_transition previous next =
    event_between previous.connected next.connected (engine_info_from_status next)

-- the listener of `onStatus`, from one status to the next
unfoldable pub broadcasts : EngineStatus → List EngineStatus → List Broadcast
broadcasts previous [] = []
broadcasts previous (status ∷ later) =
    engine_info (engine_info_from_status status) ∷ connection_event_from_transition previous status
    ++ broadcasts status later
