-- ===== src/Client.antt =====
-- electron/main/engineClient.ts: `EngineClient`, the main process's end of the engine socket, as a
-- step function on events in any order. A step returns the new state and what the client did, in
-- order. The callbacks do not throw.
pub mod State
pub mod Dispatch
pub mod Requests
pub mod Ids
pub mod Promises
pub mod Settle
pub mod Accounts
pub mod Run
pub mod Stream
pub mod Timers
mod Tests
use vanilla_bus.Prelude.{ℕ, List, [], ◌∷◌, ◌++◌, Option, none, some, Text}
use vanilla_bus.Engine.Value.{Fields}
use vanilla_bus.Framing.{JsonCodec}
use vanilla_bus.Client.State.{
  EngineClient, Effect, SocketState, absent, live, destroyed, connect, on_ready, on_error, on_close,
  close,
}
use vanilla_bus.Client.Requests.{on_timeout, send_hello, request, on_data}

-- What reaches the client: calls of its methods, events of its socket, its timers. `socket_dies` is
-- the socket's own doing: from then on `socket.destroyed` holds.
pub data ClientEvent : Type 0 where
  connects ready connect_fails socket_dies socket_closes closes hellos : ClientEvent
  data_arrives : List ℕ → ClientEvent
  timer_fires : Text → ClientEvent
  requests : ℕ → Text → Fields → ClientEvent

abbrev pub die : SocketState → SocketState
die absent = absent
die _ = destroyed

abbrev pub or_none : Option (List Effect) → List Effect
or_none none = []
or_none (some effects) = effects

module _ (codec : JsonCodec) where
  unfoldable pub step : EngineClient → ClientEvent → EngineClient × List Effect
  step c connects = (connect c, [])
  step c ready = on_ready c
  step c connect_fails = on_error c
  step c socket_dies = (record c { socket = die c.socket }, [])
  step c socket_closes = on_close c
  step c closes = close c
  step c hellos = (c, or_none (send_hello codec c))
  step c (data_arrives chunk) = on_data codec c chunk
  step c (timer_fires id) = on_timeout c id
  step c (requests now kind payload) = request codec c now kind payload

  -- the events in order, after what was done already
  unfoldable pub run : EngineClient × List Effect → List ClientEvent → EngineClient × List Effect
  run (c, done) [] = (c, done)
  run (c, done) (event ∷ events) = run ((step c event).0, done ++ (step c event).1) events
