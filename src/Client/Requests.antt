-- ===== src/Client/Requests.antt =====
-- electron/main/engineClient.ts: `request`, `send`, the timers and the `data` handler.
use vanilla_bus.Prelude.{
  ℕ, ◌+◌, Bool, true, false, not, ◌||◌, List, [], ◌∷◌, ◌++◌, Option, none, some, Text, codes,
  length, leb, if◌then◌else◌,
}
use vanilla_bus.Prelude.Assoc.{lookup, insert, remove}
use vanilla_bus.Engine.Value.{Value, string, object, Fields, end, field}
use vanilla_bus.Framing.{JsonCodec, encode_message, push, Pushed, messages, throws}
use vanilla_bus.Trace.Format.{to_string}
use vanilla_bus.Client.State.{
  SocketState, absent, live, destroyed, EngineClient, Effect, wrote, promised, rejects, refuses,
  engine_disconnected, max_pending_requests, close,
}
use vanilla_bus.Client.Dispatch.{dispatch_all}

abbrev pub is_live : SocketState → Bool
is_live live = true
is_live _ = false

pub message_of : Text → Text → Fields → Value
message_of kind id payload = object (
    field (codes "type") (string kind)
      (field (codes "id") (string id) (field (codes "payload") (object payload) end)))

-- `req-${++this.requestSeq}-${Date.now()}`
unfoldable pub request_id : ℕ → ℕ → Text
request_id seq now = codes "req-" ++ to_string 10 seq ++ codes "-" ++ to_string 10 now

-- `setTimeout` in `request`; the timer of an entry that is gone is cleared
unfoldable pub on_timeout : EngineClient → Text → EngineClient × List Effect
on_timeout c id = elim (lookup id c.pending) [
  | some kind ↦ (
    record c { pending = remove id c.pending },
    rejects id (record { code = codes "timeout"; message = kind ++ codes " timed out" }) ∷ [],
  )
  | none ↦ (c, [])
]

module _ (codec : JsonCodec) where
  -- `send`: `none` is the exception of `encodeMessage`
  unfoldable pub send : EngineClient → Value → Option (List Effect)
  send c message = elim c.socket [
    | live ↦ elim (encode_message codec message) [
      | some bytes ↦ some (wrote bytes ∷ [])
      | none ↦ none
    ]
    | absent ↦ some []
    | destroyed ↦ some []
  ]

  abbrev pub send_hello : EngineClient → Option (List Effect)
  send_hello c = send c (message_of (codes "engine.hello") (codes "hello") end)

  -- the end of `request`, once the entry is there
  abbrev pub sent : EngineClient → Text → Option (List Effect) → EngineClient × List Effect
  sent c id (some effects) = (c, promised id ∷ effects)
  sent c id none = (
    record c { pending = remove id c.pending },
    promised id
        ∷ rejects id
            (record { code = codes "send_failed"; message = codes "encoded JSON exceeds 1 MiB" })
        ∷ [],
  )

  unfoldable pub start_request : EngineClient → ℕ → Text → Fields → EngineClient × List Effect
  start_request c now kind payload =
      let id = request_id (c.request_seq + 1) now in
      let next = record c { request_seq = c.request_seq + 1; pending = insert id kind c.pending } in
      sent next id (send next (message_of kind id payload))

  unfoldable pub request : EngineClient → ℕ → Text → Fields → EngineClient × List Effect
  request c now kind payload =
      if not (is_live c.socket) || c.closed
      then (c, refuses (engine_disconnected (codes "engine is not connected")) ∷ [])
      else if leb max_pending_requests (length c.pending)
      then (
        c,
        refuses (record {
          code = codes "backpressure";
          message = codes "too many in-flight engine requests";
        })
            ∷ [],
      )
      else start_request c now kind payload

  -- the handler of the socket's `data` event
  unfoldable pub handle_push : EngineClient → List ℕ × Pushed → EngineClient × List Effect
  handle_push c (left, messages ms) = dispatch_all (record c { buffer = left }) ms
  handle_push c (left, throws e) = close (record c { buffer = left })

  unfoldable pub on_data : EngineClient → List ℕ → EngineClient × List Effect
  on_data c chunk = handle_push c (push codec c.buffer chunk)
