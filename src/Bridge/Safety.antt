-- ===== src/Bridge/Safety.antt =====
-- electron/main/ipc-bridge.ts: what reaches the supervisor, and what the renderer hears of the
-- connection.
use vanilla_bus.Prelude.{
  ◌≡◌, ◌≢◌, refl, Bool, true, false, List, [], ◌∷◌, ◌++◌, Option, none, some, Text, codes,
}
use vanilla_bus.Engine.Value.{Value, nonempty_string}
use vanilla_bus.Engine.Parse.Sound.{nonempty_string-ne}
use vanilla_bus.Supervisor.State.{EngineStatus}
use vanilla_bus.Supervisor.Calls.{
  Call, list_buses, open_bus, close_bus, clear_dbc, stop_cyclic, load_dbc, send_frame, start_cyclic,
}
use vanilla_bus.Bridge.Types.{TxSendRequest, TxCyclicStartRequest, Checked, ok, refused}
use vanilla_bus.Bridge.Requests.{optional_integer}
use vanilla_bus.Bridge.Sound.{
  IsTxRequest, IsTxCyclic, Lets, parse_tx_send_request-Lets, parse_tx_cyclic_start_request-Lets,
}
use vanilla_bus.Bridge.Handlers.{
  Invocation, bus_list, bus_open, bus_close, dbc_load, dbc_clear, tx_send, tx_cyclic_start,
  tx_cyclic_stop, or_invalid, then_call, check, Broadcast, engine_info, connected_event,
  disconnected_event, event_between, broadcasts, EngineInfo, engine_info_from_status,
}

-- a call that names what it is about, with a request to transmit that is in order
abbrev pub IsCall : Call → Type 0
IsCall list_buses = Unit {0}
IsCall (open_bus name bitrate) = name ≢ []
IsCall (close_bus bus_id) = bus_id ≢ []
IsCall (clear_dbc bus_id) = bus_id ≢ []
IsCall (stop_cyclic job_id) = job_id ≢ []
IsCall (load_dbc bus_id path) = (bus_id ≢ []) × (path ≢ [])
IsCall (send_frame request) = IsTxRequest request
IsCall (start_cyclic request) = IsTxCyclic request

or_invalid-Lets :
    (message : Text) (v : Value) (f : Text → Checked Call)
    → ((s : Text) → s ≢ [] → Lets IsCall (f s))
    → Lets IsCall (or_invalid message (nonempty_string v) f)
or_invalid-Lets message v f h = split (nonempty_string v) (λ s e. nonempty_string-ne v e)
  where
    split :
        (o : Option Text)
        → ((s : Text) → o ≡ some s → s ≢ [])
        → Lets IsCall (or_invalid message o f)
    split none k = tt
    split (some s) k = h s (k s refl)

send-Lets : (c : Checked TxSendRequest) → Lets IsTxRequest c → Lets IsCall (then_call send_frame c)
send-Lets (ok r) h = h
send-Lets (refused error) h = tt

start-Lets :
    (c : Checked TxCyclicStartRequest) → Lets IsTxCyclic c → Lets IsCall (then_call start_cyclic c)
start-Lets (ok r) h = h
start-Lets (refused error) h = tt

-- Whatever values the renderer passes on whatever channel: the call that the handler makes of the
-- supervisor, if it makes one, has a name where it needs one, and a request to transmit has a bus, a
-- message name and distinct named finite signals where it is by message, and a period of at least
-- 1 ms where it is cyclic.
pub check-Lets : (invocation : Invocation) → Lets IsCall (check invocation)
unfolding check
check-Lets bus_list = tt
check-Lets (bus_open name bitrate) =
    or_invalid-Lets _ name (λ s. ok (open_bus s (optional_integer bitrate))) (λ s h. h)
check-Lets (bus_close bus_id) = or_invalid-Lets _ bus_id (λ s. ok (close_bus s)) (λ s h. h)
check-Lets (dbc_load bus_id path) =
    or_invalid-Lets _ bus_id
      (λ s.
        or_invalid (codes "loadDbc requires a path") (nonempty_string path)
          (λ p. ok (load_dbc s p)))
      (λ s h.
        or_invalid-Lets (codes "loadDbc requires a path") path (λ p. ok (load_dbc s p))
          (λ p k. (h, k)))
check-Lets (dbc_clear bus_id) = or_invalid-Lets _ bus_id (λ s. ok (clear_dbc s)) (λ s h. h)
check-Lets (tx_send request) = send-Lets _ (parse_tx_send_request-Lets request)
check-Lets (tx_cyclic_start request) = start-Lets _ (parse_tx_cyclic_start_request-Lets request)
check-Lets (tx_cyclic_stop job_id) = or_invalid-Lets _ job_id (λ s. ok (stop_cyclic s)) (λ s h. h)

-- the events among what is broadcast, true for `connected`
abbrev pub events : List Broadcast → List Bool
events [] = []
events (engine_info info ∷ bs) = events bs
events (connected_event info ∷ bs) = true ∷ events bs
events (disconnected_event info ∷ bs) = false ∷ events bs

-- each differs from the one before
abbrev pub Alternates : Bool → List Bool → Type 0
Alternates last [] = Unit {0}
Alternates last (b ∷ bs) = (b ≢ last) × Alternates b bs

-- Whatever statuses the supervisor goes through: the renderer hears `connected` and `disconnected`
-- in turn, beginning with the one that the status was not.
pub broadcasts-Alternates :
    (previous : EngineStatus) (later : List EngineStatus)
    → Alternates previous.connected (events (broadcasts previous later))
unfolding broadcasts
broadcasts-Alternates previous [] = tt
broadcasts-Alternates previous (status ∷ later) =
    split previous.connected status.connected (engine_info_from_status status)
      (broadcasts status later) (broadcasts-Alternates status later)
  where
    split :
        (a b : Bool) (info : EngineInfo) (bs : List Broadcast)
        → Alternates b (events bs)
        → Alternates a (events (event_between a b info ++ bs))
    split true true info bs h = h
    split false false info bs h = h
    split false true info bs h = (λ e. cc, h)
    split true false info bs h = (λ e. cc, h)
