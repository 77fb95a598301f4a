-- ===== src/Framing.antt =====
-- electron/main/framing.ts: messages on the engine socket, each a 4-byte big-endian length and that
-- many bytes of JSON. A byte string is a list of numbers below 256.
pub mod Chunks
pub mod RoundTrip
pub mod Encode
mod Tests
use vanilla_bus.Prelude.{
  ℕ, zero, suc, ◌+◌, ◌*◌, ◌/◌, ◌%◌, ◌^◌, Bool, true, false, List, [], ◌∷◌, ◌++◌, Option, none, some,
  length, take, drop, ltb, ◌==◌, if◌then◌else◌, codes,
}
use vanilla_bus.Engine.Value.{Value, Fields, string, get, as_record, nonempty_string}

abbrev pub max_frame_bytes : ℕ
max_frame_bytes = 1048576

-- `ProtocolError`, by its code
pub data ProtocolError : Type 0 where
  invalid_length payload_too_large invalid_json invalid_message : ProtocolError

-- What the JavaScript runtime provides: `JSON.parse(bytes.toString('utf8'))`, where `none` is the
-- SyntaxError, and `Buffer.from(JSON.stringify(message), 'utf8')`.
pub record JsonCodec : Type 0 where
  pub parse : List ℕ → Option Value
  pub stringify : Value → List ℕ

-- `writeUInt32BE` and `readUInt32BE`
abbrev pub u32_bytes : ℕ → List ℕ
u32_bytes n = (n / 2 ^ 24) % 256 ∷ (n / 2 ^ 16) % 256 ∷ (n / 2 ^ 8) % 256 ∷ n % 256 ∷ []

abbrev pub u32_of : ℕ → ℕ → ℕ → ℕ → ℕ
u32_of a b c d = a * 2 ^ 24 + b * 2 ^ 16 + c * 2 ^ 8 + d

-- the state in which the loop of `push` leaves one round
pub data Round : Type 0 where
  waits : Round
  fails : ProtocolError → List ℕ → Round
  yields : Fields → List ℕ → Round

-- how the loop ends: with a partial frame, or by an exception with `buffer` left as it is
pub data Stop : Type 0 where
  held : List ℕ → Stop
  broken : ProtocolError → List ℕ → Stop

pub data Pushed : Type 0 where
  messages : List Fields → Pushed
  throws : ProtocolError → Pushed

abbrev pub and_then : Fields → List Fields × Stop → List Fields × Stop
and_then m (ms, stop) = (m ∷ ms, stop)

-- the checks on a parsed frame; `left` is the buffer behind it
pub accept : Option Value → List ℕ → Round
accept none left = fails invalid_json left
accept (some v) left = elim (as_record v) [
  | none ↦ fails invalid_message left
  | some record_ ↦ elim (nonempty_string (get (codes "type") record_)) [
    | none ↦ fails invalid_message left
    | some kind ↦ yields record_ left
  ]
]

-- An exception loses the messages of the same push.
pub settle : List Fields × Stop → List ℕ × Pushed
settle (ms, held left) = (left, messages ms)
settle (ms, broken e left) = (left, throws e)

pub reset : List ℕ → List ℕ
reset buffer = []

module _ (codec : JsonCodec) where
  unfoldable pub encode_message : Value → Option (List ℕ)
  encode_message message =
      let payload = codec.stringify message in
      if ltb max_frame_bytes (length payload)
      then none
      else some (u32_bytes (length payload) ++ payload)

  pub read_body : List ℕ → ℕ → List ℕ → Round
  unfolding accept
  read_body buffer n rest =
      if n == 0
      then fails invalid_length buffer
      else if ltb max_frame_bytes n
      then fails payload_too_large buffer
      else if ltb (length rest) n
      then waits
      else accept (codec.parse (take n rest)) (drop n rest)

  -- one round of the loop of `push`
  unfoldable pub read_frame : List ℕ → Round
  unfolding read_body
  read_frame (a ∷ b ∷ c ∷ d ∷ rest) = read_body (a ∷ b ∷ c ∷ d ∷ rest) (u32_of a b c d) rest
  read_frame _ = waits

  -- The loop. A round that yields takes bytes off the buffer, so its length is fuel enough.
  pub scan : ℕ → List ℕ → List Fields × Stop
  scan zero buffer = ([], held buffer)
  scan (suc fuel) buffer = elim (read_frame buffer) [
    | waits ↦ ([], held buffer)
    | fails e left ↦ ([], broken e left)
    | yields m left ↦ and_then m (scan fuel left)
  ]

  abbrev pub scan_all : List ℕ → List Fields × Stop
  scan_all buffer = scan (length buffer) buffer

  -- The decoder's state is `buffer`.
  unfoldable pub push : List ℕ → List ℕ → List ℕ × Pushed
  unfolding scan settle
  push buffer chunk = settle (scan_all (buffer ++ chunk))
