-- ===== src/Bridge/Requests.antt =====
-- electron/main/ipc-bridge.ts: the validators of the requests to transmit.
use vanilla_bus.Prelude.{ℕ, suc, Bool, List, [], ◌∷◌, Option, none, some, Text, codes}
use vanilla_bus.Prelude.Int.{ℤ}
use vanilla_bus.Engine.Value.{
  integral, Value, undefined, null, boolean, number, object, Fields, entries, get, nonempty_string,
  natural, a_string,
}
use vanilla_bus.Engine.Types.{SignalValue}
use vanilla_bus.Engine.Parse.{assign, signal_value}
use vanilla_bus.Bridge.Types.{
  TxSendRequest, raw, dbc, TxCyclicStartRequest, Checked, ok, refused, invalid,
}

abbrev pub parse_optional_bool : Value → Option Bool
parse_optional_bool (boolean b) = some b
parse_optional_bool _ = none

-- `typeof v === 'number' && Number.isInteger(v) ? v : undefined`
abbrev pub optional_integer : Value → Option ℤ
optional_integer (number (integral z)) = some z
optional_integer _ = none

-- the loop, with what is assigned so far
unfoldable pub tx_signals_from :
    List (Text × Value) → List (Text × SignalValue) → Option (List (Text × SignalValue))
tx_signals_from [] out = some out
tx_signals_from (([], v) ∷ fs) out = none
tx_signals_from ((c ∷ k, v) ∷ fs) out = elim (signal_value v) [
  | none ↦ none
  | some s ↦ tx_signals_from fs (assign (c ∷ k) s out)
]

abbrev pub parse_tx_signals : Value → Option (List (Text × SignalValue))
parse_tx_signals undefined = some []
parse_tx_signals null = some []
parse_tx_signals (object fs) = tx_signals_from (entries fs) []
parse_tx_signals _ = none

abbrev pub dbc_request : Text → Text → Option (List (Text × SignalValue)) → Checked TxSendRequest
dbc_request bus_id message none = invalid (codes "sendFrame signals must be name → value")
dbc_request bus_id message (some signals) =
    ok (dbc (record { bus_id = bus_id; message = message; signals = signals }))

abbrev pub raw_request : Text → Fields → Option ℕ → Option Text → Checked TxSendRequest
raw_request bus_id fs none payload = invalid (codes "sendFrame requires integer can_id or message")
raw_request bus_id fs (some can_id) none = invalid (codes "sendFrame requires data hex")
raw_request bus_id fs (some can_id) (some payload) = ok (
    raw (record {
      bus_id = bus_id;
      can_id = can_id;
      payload = payload;
      dlc = optional_integer (get (codes "dlc") fs);
      is_eff = parse_optional_bool (get (codes "is_eff") fs);
      is_rtr = parse_optional_bool (get (codes "is_rtr") fs);
      is_fd = parse_optional_bool (get (codes "is_fd") fs);
      brs = parse_optional_bool (get (codes "brs") fs);
    }))

-- with a bus: by a message of the DBC, or raw
abbrev pub request_on : Text → Option Text → Fields → Checked TxSendRequest
request_on bus_id (some message) fs =
    dbc_request bus_id message (parse_tx_signals (get (codes "signals") fs))
request_on bus_id none fs =
    raw_request bus_id fs (natural (get (codes "can_id") fs)) (a_string (get (codes "data") fs))

abbrev pub request_of : Option Text → Fields → Checked TxSendRequest
request_of none fs = invalid (codes "sendFrame requires busId")
request_of (some bus_id) fs = request_on bus_id (nonempty_string (get (codes "message") fs)) fs

abbrev pub parse_tx_send_request : Value → Checked TxSendRequest
parse_tx_send_request (object fs) = request_of (nonempty_string (get (codes "busId") fs)) fs
parse_tx_send_request _ = invalid (codes "sendFrame requires an object")

-- `period_ms >= 1`
abbrev pub period_of : Option ℕ → Option ℕ
period_of (some (suc n)) = some (suc n)
period_of _ = none

abbrev pub with_period : Checked TxSendRequest → Option ℕ → Checked TxCyclicStartRequest
with_period (refused error) period = refused error
with_period (ok request) none = invalid (codes "startCyclic requires period_ms >= 1")
with_period (ok request) (some period_ms) = ok (record { request = request; period_ms = period_ms })

abbrev pub field_of : Text → Value → Value
field_of key (object fs) = get key fs
field_of key _ = undefined

abbrev pub parse_tx_cyclic_start_request : Value → Checked TxCyclicStartRequest
parse_tx_cyclic_start_request v =
    with_period (parse_tx_send_request v) (period_of (natural (field_of (codes "period_ms") v)))
