-- ===== src/Client/Dispatch.antt =====
-- electron/main/engineClient.ts: `dispatch`, on the messages of the decoder.
use vanilla_bus.Prelude.{not, List, [], ◌∷◌, ◌++◌, Option, none, some, Text, codes, if◌then◌else◌}
use vanilla_bus.Prelude.Strings.{same}
use vanilla_bus.Prelude.Assoc.{lookup, remove}
use vanilla_bus.Engine.Value.{
  Value, undefined, number, string, array, object, Fields, end, items, get,
}
use vanilla_bus.Engine.Types.{RxBatch}
use vanilla_bus.Engine.Parse.{parse_rx_batch}
use vanilla_bus.Client.State.{
  EngineHello, EngineClient, Effect, resolves, rejects, says_hello, beats, passes,
}

-- `record.backends.filter((item) => typeof item === 'string')`
abbrev pub strings_of : List Value → List Text
strings_of [] = []
strings_of (string s ∷ vs) = s ∷ strings_of vs
strings_of (_ ∷ vs) = strings_of vs

abbrev pub backends_of : Value → List Text
backends_of (array vs) = strings_of (items vs)
backends_of _ = []

pub hello_of : Value → Value → Value → Option EngineHello
hello_of (string name) (string version) backends =
    some (record { name = name; version = version; backends = backends_of backends })
hello_of _ _ _ = none

pub as_hello : Option Fields → Option EngineHello
unfolding hello_of
as_hello none = none
as_hello (some fs) =
    hello_of (get (codes "name") fs) (get (codes "version") fs) (get (codes "backends") fs)

-- `payload?.code`, where it is a string
abbrev pub text_field : Text → Option Fields → Text → Text
text_field key none fallback = fallback
text_field key (some fs) fallback = elim (get key fs) [ string s ↦ s | _ ↦ fallback ]

abbrev pub or_empty : Option Fields → Fields
or_empty none = end
or_empty (some fs) = fs

-- the answer to the pending request `id`
unfoldable pub answer : Text → Text → Text → Option Fields → Effect
answer id expected kind payload =
    if same kind (codes "engine.error")
    then rejects id (record {
      code = text_field (codes "code") payload (codes "engine_error");
      message = text_field (codes "message") payload (codes "engine.error");
    })
    else if not (same kind expected)
    then rejects id (record {
      code = codes "unexpected_type";
      message = codes "expected " ++ expected ++ codes ", got " ++ kind;
    })
    else resolves id (or_empty payload)

abbrev pub hello_effects : Option EngineHello → List Effect
hello_effects none = []
hello_effects (some hello) = says_hello hello ∷ []

abbrev pub beat_effects : Value → List Effect
beat_effects (number ts_us) = beats ts_us ∷ []
beat_effects _ = []

abbrev pub batch_effects : Option RxBatch → List Effect
batch_effects none = []
batch_effects (some batch) = passes batch ∷ []

abbrev pub payload_value : Option Fields → Value
payload_value none = undefined
payload_value (some fs) = object fs

-- the part of `dispatch` on messages that answer no request
unfoldable pub announce : Text → Option Fields → List Effect
announce kind payload =
    if same kind (codes "engine.hello")
    then hello_effects (as_hello payload)
    else if same kind (codes "engine.heartbeat")
    then beat_effects (get (codes "ts_us") (or_empty payload))
    else if same kind (codes "rx.batch")
    then batch_effects (parse_rx_batch (payload_value payload))
    else []

abbrev pub text_of : Value → Text
text_of (string s) = s
text_of _ = []

abbrev pub payload_of : Value → Option Fields
payload_of (object fs) = some fs
payload_of _ = none

-- The empty id stands for `undefined`: it names no request.
abbrev pub pending_kind : Text → List (Text × Text) → Option Text
pending_kind [] pending = none
pending_kind (ch ∷ s) pending = lookup (ch ∷ s) pending

unfoldable pub dispatch_parts :
    EngineClient → Text → Text → Option Fields → EngineClient × List Effect
dispatch_parts c kind id payload = elim (pending_kind id c.pending) [
  | some expected ↦
      (record c { pending = remove id c.pending }, answer id expected kind payload ∷ [])
  | none ↦ (c, announce kind payload)
]

unfoldable pub dispatch : EngineClient → Fields → EngineClient × List Effect
dispatch c message =
    dispatch_parts c (text_of (get (codes "type") message)) (text_of (get (codes "id") message))
      (payload_of (get (codes "payload") message))

-- an action after others
abbrev pub after : List Effect → EngineClient × List Effect → EngineClient × List Effect
after earlier (c, effects) = (c, earlier ++ effects)

unfoldable pub dispatch_all : EngineClient → List Fields → EngineClient × List Effect
dispatch_all c [] = (c, [])
dispatch_all c (m ∷ ms) = after (dispatch c m).1 (dispatch_all (dispatch c m).0 ms)
