-- ===== src/Bridge/Tests.antt =====
-- Calls of the renderer with values in order and out of order.
use vanilla_bus.Prelude.{◌≡◌, refl, true, false, [], ◌∷◌, none, some, codes, arith}
use vanilla_bus.Prelude.Int.{pos}
use vanilla_bus.Prelude.Strings.{same}
use vanilla_bus.Engine.Value.{integral, Value, boolean, number, string, object, end, field, get}
use vanilla_bus.Supervisor.Payload.{send_payload, cyclic_payload}
use vanilla_bus.Bridge.Types.{TxSendRequest, raw, TxCyclicStartRequest, ok, invalid}
use vanilla_bus.Bridge.Requests.{parse_tx_send_request, parse_tx_cyclic_start_request}
use vanilla_bus.Bridge.Sound.{Lets}
use vanilla_bus.Bridge.Handlers.{broadcasts, check, tx_cyclic_start, dbc_load}
use vanilla_bus.Supervisor.State.{EngineStatus, offline, online}
use vanilla_bus.Bridge.Safety.{Alternates, events, broadcasts-Alternates, IsCall, check-Lets}
use vanilla_bus.Bridge.RoundTrip.{payload-again}

-- a remote frame with a field that is not asked for and a `dlc` that is no number
abbrev sent : Value
sent = object (
    field (codes "busId") (string (codes "b1")) (
      field (codes "dlc") (string (codes "8")) (
        field (codes "can_id") (number (integral (pos 291))) (
          field (codes "data") (string (codes "01FF")) (
            field (codes "is_rtr") (boolean true)
              (field (codes "period_ms") (number (integral (pos 10))) end))))))

abbrev kept : TxSendRequest
kept = raw (record {
  bus_id = codes "b1";
  can_id = 291;
  payload = codes "01FF";
  dlc = none;
  is_eff = none;
  is_rtr = some true;
  is_fd = none;
  brs = none;
})

parse_kept : parse_tx_send_request sent ≡ ok kept
unfolding get same
parse_kept = refl

payload-again_example :
    (let cyclic : TxCyclicStartRequest = record { request = kept; period_ms = 10 } in
      (parse_tx_send_request (object (send_payload kept)) ≡ ok kept)
      × (parse_tx_cyclic_start_request (object (cyclic_payload cyclic)) ≡ ok cyclic))
payload-again_example = payload-again sent kept 10 parse_kept (omega arith)

check-Lets_example : Lets IsCall (check (tx_cyclic_start sent))
check-Lets_example = check-Lets (tx_cyclic_start sent)

-- a DBC without a path
no_path :
    check (dbc_load (string (codes "b1")) (string [])) ≡ invalid (codes "loadDbc requires a path")
unfolding check
no_path = refl

abbrev online_b : EngineStatus
online_b = online (record { name = codes "can_engine"; version = codes "1"; backends = [] })

-- an engine that comes, says hello again and goes
broadcasts-Alternates_example :
    Alternates false (events (broadcasts offline (online_b ∷ online_b ∷ offline ∷ [])))
broadcasts-Alternates_example = broadcasts-Alternates offline (online_b ∷ online_b ∷ offline ∷ [])
