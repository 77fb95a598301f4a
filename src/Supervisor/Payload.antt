-- ===== src/Supervisor/Payload.antt =====
-- electron/main/engineSupervisor.ts: what `sendFrame` and `startCyclic` send to the engine.
use vanilla_bus.Prelude.{Option, none, some, Text, codes, if◌then◌else◌}
use vanilla_bus.Prelude.Int.{ℤ, pos}
use vanilla_bus.Engine.Value.{
  integral, Value, undefined, boolean, number, string, object, Fields, end, field,
}
use vanilla_bus.Engine.Parse.RoundTrip.{of_signals, fields_of}
use vanilla_bus.Bridge.Types.{
  TxRawSendRequest, TxSendRequest, raw, dbc, TxCyclicStartRequest, is_tx_dbc_send_request,
}

-- `if (typeof value === …) payload[key] = value`
abbrev pub opt_field {ℓ} : {A : Type ℓ} → Text → (A → Value) → Option A → Fields → Fields
opt_field key f none rest = rest
opt_field key f (some a) rest = field key (f a) rest

abbrev pub an_integer : ℤ → Value
an_integer z = number (integral z)

-- the payload, with `rest` behind it
abbrev pub raw_payload : TxRawSendRequest → Fields → Fields
raw_payload r rest = field (codes "busId") (string r.bus_id) (
    field (codes "can_id") (an_integer (pos r.can_id)) (
      field (codes "data") (string r.payload) (
        opt_field (codes "dlc") an_integer r.dlc (
          opt_field (codes "is_eff") boolean r.is_eff (
            opt_field (codes "is_rtr") boolean r.is_rtr (
              opt_field (codes "is_fd") boolean r.is_fd
                (opt_field (codes "brs") boolean r.brs rest)))))))

-- A message without a name is not a DBC request, and has no `can_id` and no `data` either.
abbrev pub tx_payload : TxSendRequest → Fields → Fields
tx_payload (raw r) rest = raw_payload r rest
tx_payload (dbc r) rest =
    if is_tx_dbc_send_request (dbc r)
    then field (codes "busId") (string r.bus_id) (
        field (codes "message") (string r.message)
          (field (codes "signals") (object (fields_of (of_signals r.signals))) rest))
    else field (codes "busId") (string r.bus_id)
        (field (codes "can_id") undefined (field (codes "data") undefined rest))

abbrev pub send_payload : TxSendRequest → Fields
send_payload request = tx_payload request end

abbrev pub cyclic_payload : TxCyclicStartRequest → Fields
cyclic_payload r =
    tx_payload r.request (field (codes "period_ms") (an_integer (pos r.period_ms)) end)
