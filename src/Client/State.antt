-- ===== src/Client/State.antt =====
-- electron/main/engineClient.ts: the state of `EngineClient`, what it does to its surroundings, and
-- the ends of a connection. A promise is named by the id of its request.
use vanilla_bus.Prelude.{ℕ, Bool, true, false, List, [], ◌∷◌, ◌++◌, Text, codes, if◌then◌else◌}
use vanilla_bus.Engine.Value.{Number, Fields}
use vanilla_bus.Engine.Types.{RxBatch}
use vanilla_bus.Framing.{reset}

pub record EngineHello : Type 0 where
  pub name : Text
  pub version : Text
  pub backends : List Text

-- `EngineRequestError`
pub record RequestError : Type 0 where
  pub code : Text
  pub message : Text

abbrev pub max_pending_requests : ℕ
max_pending_requests = 128

-- `this.socket`: null, a socket, or a socket that is destroyed
pub data SocketState : Type 0 where
  absent live destroyed : SocketState

-- `pending` holds the `type` of each request; its timer runs exactly while the entry is there.
-- `opened` is the local variable of `connect`.
pub record EngineClient : Type 0 where
  pub socket : SocketState
  pub opened : Bool
  pub buffer : List ℕ
  pub closed : Bool
  pub request_seq : ℕ
  pub pending : List (Text × Text)

abbrev pub fresh_client : EngineClient
fresh_client = record {
  socket = absent;
  opened = false;
  buffer = [];
  closed = false;
  request_seq = 0;
  pending = [];
}

-- what the client does to its surroundings
pub data Effect : Type 0 where
  wrote : List ℕ → Effect
  destroys : Effect
  connect_resolves connect_rejects : Effect
  promised : Text → Effect
  resolves : Text → Fields → Effect
  rejects : Text → RequestError → Effect
  refuses : RequestError → Effect
  says_hello : EngineHello → Effect
  beats : Number → Effect
  disconnects : Effect
  passes : RxBatch → Effect

abbrev pub engine_disconnected : Text → RequestError
engine_disconnected message = record { code = codes "engine_disconnected"; message = message }

abbrev pub connection_closed : RequestError
connection_closed = engine_disconnected (codes "engine connection closed")

unfoldable pub connect : EngineClient → EngineClient
connect c = record c { socket = live; opened = false }

-- `onReady` and `onError`
unfoldable pub on_ready : EngineClient → EngineClient × List Effect
on_ready c = (record c { opened = true }, connect_resolves ∷ [])

abbrev pub on_error : EngineClient → EngineClient × List Effect
on_error c = (c, connect_rejects ∷ [])

-- `rejectPending`
abbrev pub reject_all : RequestError → List (Text × Text) → List Effect
reject_all error [] = []
reject_all error ((id, kind) ∷ pending) = rejects id error ∷ reject_all error pending

abbrev pub destroy_socket : SocketState → List Effect
destroy_socket live = destroys ∷ []
destroy_socket _ = []

unfoldable pub close : EngineClient → EngineClient × List Effect
close c = (
  record c { closed = true; buffer = reset c.buffer; pending = []; socket = absent },
  reject_all connection_closed c.pending ++ destroy_socket c.socket,
)

-- the handler of the socket's `close` event
unfoldable pub on_close : EngineClient → EngineClient × List Effect
on_close c = if c.closed then (c, []) else (
  record c { closed = true; pending = [] },
  reject_all connection_closed c.pending ++ (if c.opened then disconnects ∷ [] else []),
)
