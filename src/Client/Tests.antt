-- ===== src/Client/Tests.antt =====
-- Runs of a client with a codec that writes every message as one byte.
use vanilla_bus.Prelude.{
  ℕ, ◌≡◌, refl, List, [], ◌∷◌, ◌++◌, map, Option, none, some, Text, codes, arith,
}
use vanilla_bus.Prelude.Strings.{same}
use vanilla_bus.Prelude.Assoc.{lookup, insert, remove}
use vanilla_bus.Trace.Format.{to_string}
use vanilla_bus.Prelude.Count.{count}
use vanilla_bus.Engine.Value.{Value, string, object, Fields, end, field, get}
use vanilla_bus.Framing.{JsonCodec, encode_message, push, read_frame}
use vanilla_bus.Framing.Encode.{IsSendable, encode_all}
use vanilla_bus.Client.State.{
  connect, on_ready, on_close, EngineClient, promised, rejects, resolves, fresh_client, wrote,
  connect_resolves, disconnects, connection_closed, live,
}
use vanilla_bus.Client.Dispatch.{dispatch_all, dispatch, dispatch_parts, answer}
use vanilla_bus.Client.Requests.{request_id, request, start_request, send, on_data, handle_push}
use vanilla_bus.Client.{
  ClientEvent, step, connects, ready, requests, socket_closes, data_arrives, run,
}
use vanilla_bus.Client.Promises.{promised_ids, settled_ids}
use vanilla_bus.Client.Accounts.{Accounts}
use vanilla_bus.Client.Run.{run-Accounts}
use vanilla_bus.Client.Stream.{run-encode_all}
use vanilla_bus.Client.Timers.{timers, timers-settle_all}

-- the answer to the first request, which was made at 7
abbrev reply : Fields
reply =
    field (codes "type") (string (codes "bus.list"))
      (field (codes "id") (string (codes "req-1-7")) end)

abbrev parse_byte : List ℕ → Option Value
parse_byte [] = none
parse_byte (b ∷ bs) = some (object reply)

abbrev one_byte : JsonCodec
one_byte = record { parse = parse_byte; stringify = λ v. 72 ∷ [] }

abbrev wire : List ℕ
wire = 0 ∷ 0 ∷ 0 ∷ 1 ∷ 72 ∷ []

abbrev two_requests : List ClientEvent
two_requests =
    connects
    ∷ ready
    ∷ requests 7 (codes "bus.list") end
    ∷ requests 7 (codes "bus.open") end
    ∷ data_arrives (0 ∷ 0 ∷ 0 ∷ [])
    ∷ data_arrives (1 ∷ 72 ∷ [])
    ∷ []

-- the first request is answered, the end of the connection rejects the second
closing_run :
    (run one_byte (fresh_client, []) (two_requests ++ socket_closes ∷ [])).1
    ≡ connect_resolves
      ∷ promised (codes "req-1-7")
      ∷ wrote wire
      ∷ promised (codes "req-2-7")
      ∷ wrote wire
      ∷ resolves (codes "req-1-7") end
      ∷ rejects (codes "req-2-7") connection_closed
      ∷ disconnects
      ∷ []
unfolding run step connect on_ready request start_request send encode_message on_data handle_push
    push read_frame dispatch_all dispatch dispatch_parts answer on_close request_id to_string lookup
    insert remove get same
closing_run = refl

run-Accounts_example : Accounts (run one_byte (fresh_client, []) two_requests)
run-Accounts_example = run-Accounts one_byte two_requests

timers-settle_all_example :
    (let reached = run one_byte (fresh_client, []) two_requests in
      let later = run one_byte reached (timers reached.0) in
      (later.0.pending ≡ [])
      × ((id : Text) → count id (promised_ids later.1) ≡ count id (settled_ids later.1)))
timers-settle_all_example = timers-settle_all one_byte two_requests

reply-IsSendable : IsSendable one_byte reply
unfolding get same
reply-IsSendable = record {
  reads_back = refl;
  written = omega arith;
  fits = omega arith;
  typed = λ e. cc;
}

abbrev waiting : EngineClient
waiting = record fresh_client {
  socket = live;
  request_seq = 1;
  pending = (codes "req-1-7", codes "bus.list") ∷ [];
}

run-encode_all_example :
    run one_byte (waiting, []) (map data_arrives ((0 ∷ 0 ∷ 0 ∷ []) ∷ (1 ∷ 72 ∷ []) ∷ [])) ≡ (
      record (dispatch_all waiting (reply ∷ [])).0 { buffer = [] },
      (dispatch_all waiting (reply ∷ [])).1,
    )
unfolding encode_all encode_message
run-encode_all_example =
    run-encode_all one_byte waiting (reply ∷ []) ((0 ∷ 0 ∷ 0 ∷ []) ∷ (1 ∷ 72 ∷ []) ∷ []) wire
      (reply-IsSendable, tt) refl refl refl
