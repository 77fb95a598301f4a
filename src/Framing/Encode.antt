-- ===== src/Framing/Encode.antt =====
-- electron/main/framing.ts: the way from `encodeMessage` to the decoder.
use vanilla_bus.Prelude.{
  ℕ, ◌/◌, ◌%◌, ◌^◌, ◌≤◌, ◌<◌, ◌≡◌, ◌≢◌, refl, sym, ap, ap₂, ◌∙◌, List, [], ◌∷◌, ◌++◌, Option, none,
  some, arith, length, take, drop, All, length-append, take-append_le, drop-append_le, take_all,
  drop_all, codes,
}
use vanilla_bus.Engine.Value.{Fields, object, get, nonempty_string}
use vanilla_bus.Framing.{
  JsonCodec, yields, held, max_frame_bytes, u32_of, u32_bytes, accept, read_body, read_frame,
  and_then, scan, scan_all, messages, encode_message,
}
use vanilla_bus.Framing.Chunks.{scan_all_yields}
use vanilla_bus.Framing.RoundTrip.{feed, concat, feed-concat}

-- A message that the transport is made for: an object with a non-empty `type`, which the runtime's
-- `JSON.parse` reads back from what its `JSON.stringify` wrote, and which fits a frame.
pub record IsSendable (codec : JsonCodec) (m : Fields) : Type 0 where
  pub reads_back : codec.parse (codec.stringify (object m)) ≡ some (object m)
  pub written : 0 < length (codec.stringify (object m))
  pub fits : length (codec.stringify (object m)) ≤ max_frame_bytes
  pub typed : nonempty_string (get (codes "type") m) ≢ none

u32_of-u32_bytes :
    (n : ℕ)
    → n ≤ max_frame_bytes
    → u32_of ((n / 2 ^ 24) % 256) ((n / 2 ^ 16) % 256) ((n / 2 ^ 8) % 256) (n % 256) ≡ n
u32_of-u32_bytes n h = omega arith

take-append_all : (xs ys : List ℕ) → take (length xs) (xs ++ ys) ≡ xs
take-append_all xs ys =
    take-append_le (length xs) xs ys (omega arith) ∙ take_all (length xs) xs (omega arith)

drop-append_all : (xs ys : List ℕ) → drop (length xs) (xs ++ ys) ≡ ys
drop-append_all xs ys =
    drop-append_le (length xs) xs ys (omega arith)
    ∙ ap (λ zs. zs ++ ys) (drop_all (length xs) xs (omega arith))

accept_typed :
    (m : Fields) (left : List ℕ)
    → nonempty_string (get (codes "type") m) ≢ none
    → accept (some (object m)) left ≡ yields m left
unfolding accept
accept_typed m left h = ground arith

abbrev append? : Option (List ℕ) → Option (List ℕ) → Option (List ℕ)
append? none ys = none
append? (some xs) none = none
append? (some xs) (some ys) = some (xs ++ ys)

module _ (codec : JsonCodec) where
  -- the bytes of the message
  abbrev pub frame : Fields → List ℕ
  frame m = u32_bytes (length (codec.stringify (object m))) ++ codec.stringify (object m)

  encode_message_fits :
      (m : Fields) → IsSendable codec m → encode_message codec (object m) ≡ some (frame m)
  unfolding encode_message
  encode_message_fits m s = ground arith

  read_body_whole :
      (m : Fields) (buffer payload rest : List ℕ) (n : ℕ)
      → nonempty_string (get (codes "type") m) ≢ none
      → codec.parse payload ≡ some (object m)
      → n ≡ length payload
      → 0 < n
      → n ≤ max_frame_bytes
      → read_body codec buffer n (payload ++ rest) ≡ yields m rest
  unfolding read_body
  read_body_whole m buffer payload rest n typed parsed same pos small =
      let front = ap (λ k. take k (payload ++ rest)) same ∙ take-append_all payload rest in
      let back = ap (λ k. drop k (payload ++ rest)) same ∙ drop-append_all payload rest in
      ground (
        arith,
        front,
        back,
        ap codec.parse front,
        length-append payload rest,
        accept_typed m rest typed,
      )

  read_frame-frame :
      (m : Fields) (rest : List ℕ)
      → IsSendable codec m
      → read_frame codec (frame m ++ rest) ≡ yields m rest
  unfolding read_frame
  read_frame-frame m rest s =
      let payload = codec.stringify (object m) in
      let n = length payload in
      read_body_whole m (frame m ++ rest) payload rest _ s.typed s.reads_back
        (u32_of-u32_bytes n s.fits) (omega (arith, u32_of-u32_bytes n s.fits, s.written))
        (omega (arith, u32_of-u32_bytes n s.fits, s.fits))

  -- what the sender writes, message after message
  unfoldable pub encode_all : List Fields → Option (List ℕ)
  encode_all [] = some []
  encode_all (m ∷ ms) = append? (encode_message codec (object m)) (encode_all ms)

  abbrev frames : List Fields → List ℕ
  frames [] = []
  frames (m ∷ ms) = frame m ++ frames ms

  encode_all-frames :
      (ms : List Fields) → All (IsSendable codec) ms → encode_all ms ≡ some (frames ms)
  unfolding encode_all
  encode_all-frames [] h = refl
  encode_all-frames (m ∷ ms) h = ap₂ append? (encode_message_fits m h.0) (encode_all-frames ms h.1)

  scan-frames :
      (ms : List Fields) → All (IsSendable codec) ms → scan_all codec (frames ms) ≡ (ms, held [])
  unfolding scan
  scan-frames [] h = refl
  scan-frames (m ∷ ms) h =
      scan_all_yields codec (frames (m ∷ ms)) m (frames ms) (read_frame-frame m (frames ms) h.0)
      ∙ ap (and_then m) (scan-frames ms h.1)

  -- Where the runtime's JSON reads back what it wrote, messages with a non-empty type that fit a
  -- frame and are written one after another arrive as they were sent, in order and with nothing
  -- left over, however the bytes are cut into chunks.
  pub feed-encode_all :
      (ms : List Fields) (chunks : List (List ℕ)) (bytes : List ℕ)
      → All (IsSendable codec) ms
      → encode_all ms ≡ some bytes
      → concat codec chunks ≡ bytes
      → feed codec [] chunks ≡ ([], messages ms)
  feed-encode_all ms chunks bytes h e c =
      let whole : bytes ≡ frames ms = cc (sym e ∙ encode_all-frames ms h) in
      feed-concat codec chunks [] [] ms (scan-frames [] tt)
        (ap (scan_all codec) (c ∙ whole) ∙ scan-frames ms h)
