-- ===== src/Framing/Tests.antt =====
-- Runs of the decoder with a codec that knows one message.
use vanilla_bus.Prelude.{
  ℕ, ◌+◌, ◌≡◌, ◌<◌, refl, List, [], ◌∷◌, ◌++◌, Option, none, some, arith, length, codes,
}
use vanilla_bus.Prelude.Strings.{same}
use vanilla_bus.Engine.Value.{Value, string, object, Fields, end, field, get}
use vanilla_bus.Framing.{
  JsonCodec, invalid_length, max_frame_bytes, scan, encode_message, scan_all, read_frame, push,
  messages, throws,
}
use vanilla_bus.Framing.Chunks.{scan-fuel, resume, scan_all-append}
use vanilla_bus.Framing.RoundTrip.{Joins, push-append, feed, push_bound}
use vanilla_bus.Framing.Encode.{IsSendable, encode_all, feed-encode_all}

abbrev hello : Fields
hello = field (codes "type") (string (codes "hello")) end

abbrev parse_byte : List ℕ → Option Value
parse_byte [] = none
parse_byte (b ∷ bs) = some (object hello)

-- It writes every message as one byte.
abbrev one_byte : JsonCodec
one_byte = record { parse = parse_byte; stringify = λ v. 72 ∷ [] }

abbrev wire : List ℕ
wire = 0 ∷ 0 ∷ 0 ∷ 1 ∷ 72 ∷ []

abbrev cut_wire : List (List ℕ)
cut_wire = (0 ∷ 0 ∷ []) ∷ (0 ∷ 1 ∷ 72 ∷ 0 ∷ 0 ∷ 0 ∷ []) ∷ (1 ∷ 72 ∷ []) ∷ []

hello-IsSendable : IsSendable one_byte hello
unfolding get same
hello-IsSendable = record {
  reads_back = refl;
  written = omega arith;
  fits = omega arith;
  typed = λ e. cc;
}

feed-encode_all_example : feed one_byte [] cut_wire ≡ ([], messages (hello ∷ hello ∷ []))
unfolding encode_all encode_message
feed-encode_all_example =
    feed-encode_all one_byte (hello ∷ hello ∷ []) cut_wire (wire ++ wire)
      (hello-IsSendable, (hello-IsSendable, tt)) refl refl

-- a whole frame and a length that is out of range
push-append_example :
    (let early = push one_byte [] wire in
      Joins one_byte
        (push one_byte [] (wire ++ 0 ∷ 0 ∷ 0 ∷ 0 ∷ []))
        early
        (push one_byte early.0 (0 ∷ 0 ∷ 0 ∷ 0 ∷ []))
        (0 ∷ 0 ∷ 0 ∷ 0 ∷ []))
push-append_example = push-append one_byte [] wire (0 ∷ 0 ∷ 0 ∷ 0 ∷ [])

push_waits : push one_byte (0 ∷ 0 ∷ []) (0 ∷ []) ≡ (0 ∷ 0 ∷ 0 ∷ [], messages [])
unfolding push read_frame
push_waits = refl

push_bound_example : length {A = ℕ} (0 ∷ 0 ∷ 0 ∷ []) < 4 + max_frame_bytes
push_bound_example = push_bound one_byte (0 ∷ 0 ∷ []) (0 ∷ []) (0 ∷ 0 ∷ 0 ∷ []) [] push_waits

scan_all-append_example :
    scan_all one_byte (wire ++ 0 ∷ []) ≡ resume one_byte (scan_all one_byte wire) (0 ∷ [])
scan_all-append_example = scan_all-append one_byte wire (0 ∷ [])

scan-fuel_example : scan one_byte 5 wire ≡ scan one_byte 9 wire
scan-fuel_example = scan-fuel one_byte 5 9 wire (omega arith) (omega arith)

push_throws :
    push one_byte [] (wire ++ 0 ∷ 0 ∷ 0 ∷ 0 ∷ []) ≡ (0 ∷ 0 ∷ 0 ∷ 0 ∷ [], throws invalid_length)
unfolding push read_frame get same
push_throws = refl
