-- ===== src/Supervisor/Calls.antt =====
-- electron/main/engineSupervisor.ts: the requests that the supervisor passes to its client, and what
-- it makes of the answers.
use vanilla_bus.Prelude.{ℕ, List, Option, none, some, Text, codes, if◌then◌else◌}
use vanilla_bus.Prelude.Int.{ℤ}
use vanilla_bus.Engine.Value.{
  Value, integral, number, string, Fields, end, field, get, nonempty_string,
}
use vanilla_bus.Engine.Types.{DbcCatalogMessage}
use vanilla_bus.Engine.Parse.{parse_dbc_catalog}
use vanilla_bus.Client.State.{engine_disconnected}
use vanilla_bus.Bridge.Types.{TxSendRequest, TxCyclicStartRequest, Checked, ok, refused, invalid}
use vanilla_bus.Supervisor.State.{Supervisor}
use vanilla_bus.Supervisor.Payload.{send_payload, cyclic_payload, opt_field, an_integer}
use vanilla_bus.Supervisor.Answers.{
  BusInterface, BusListWarning, parse_interfaces, parse_list_warnings,
}

-- a call of `listBuses`, `openBus`, … with its arguments
pub data Call : Type 0 where
  list_buses : Call
  open_bus : Text → Option ℤ → Call
  close_bus clear_dbc stop_cyclic : Text → Call
  load_dbc : Text → Text → Call
  send_frame : TxSendRequest → Call
  start_cyclic : TxCyclicStartRequest → Call

-- what the call's promise resolves with
pub data Outcome : Type 0 where
  buses : List BusInterface → List BusListWarning → Outcome
  opened : Text → Outcome
  loaded : ℤ → List DbcCatalogMessage → Outcome
  started : Text → Outcome
  done_ : Outcome

abbrev pub kind_of : Call → Text
kind_of list_buses = codes "bus.list"
kind_of (open_bus name bitrate) = codes "bus.open"
kind_of (close_bus bus_id) = codes "bus.close"
kind_of (load_dbc bus_id path) = codes "dbc.load"
kind_of (clear_dbc bus_id) = codes "dbc.clear"
kind_of (send_frame request) = codes "tx.send"
kind_of (start_cyclic request) = codes "tx.cyclic.start"
kind_of (stop_cyclic job_id) = codes "tx.cyclic.stop"

abbrev pub one_text : Text → Text → Fields
one_text key value = field key (string value) end

unfoldable pub payload_of : Call → Fields
payload_of list_buses = end
payload_of (open_bus name bitrate) =
    field (codes "name") (string name) (opt_field (codes "bitrate") an_integer bitrate end)
payload_of (close_bus bus_id) = one_text (codes "busId") bus_id
payload_of (load_dbc bus_id path) =
    field (codes "busId") (string bus_id) (one_text (codes "path") path)
payload_of (clear_dbc bus_id) = one_text (codes "busId") bus_id
payload_of (send_frame request) = send_payload request
payload_of (start_cyclic request) = cyclic_payload request
payload_of (stop_cyclic job_id) = one_text (codes "job_id") job_id

abbrev pub or_missing {ℓ} : {A : Type ℓ} → Text → Option A → (A → Outcome) → Checked Outcome
or_missing message none f = invalid message
or_missing message (some a) f = ok (f a)

abbrev pub whole_number : Value → Option ℤ
whole_number (number (integral z)) = some z
whole_number _ = none

-- the answer to a call
unfoldable pub outcome_of : Call → Fields → Checked Outcome
outcome_of list_buses answer =
    or_missing (codes "bus.list response missing interfaces")
      (parse_interfaces (get (codes "interfaces") answer))
      (λ interfaces. buses interfaces (parse_list_warnings (get (codes "warnings") answer)))
outcome_of (open_bus name bitrate) answer =
    or_missing (codes "bus.open response missing busId")
      (nonempty_string (get (codes "busId") answer)) opened
outcome_of (load_dbc bus_id path) answer =
    or_missing (codes "dbc.load response missing message_count")
      (whole_number (get (codes "message_count") answer))
      (λ count. loaded count (parse_dbc_catalog (get (codes "catalog") answer)))
outcome_of (start_cyclic request) answer =
    or_missing (codes "tx.cyclic.start response missing job_id")
      (nonempty_string (get (codes "job_id") answer)) started
outcome_of _ answer = ok done_

-- `request`: the client that it is passed to
unfoldable pub client_for : Supervisor → Checked ℕ
client_for s = elim s.client [
  | none ↦ refused (engine_disconnected (codes "engine is not connected"))
  | some g ↦
      if s.status.connected
      then ok g
      else refused (engine_disconnected (codes "engine is not connected"))
]
