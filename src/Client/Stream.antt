-- ===== src/Client/Stream.antt =====
-- electron/main/engineClient.ts: the bytes of the socket, and the messages that they carry.
use vanilla_bus.Prelude.{
  ℕ, ◌≡◌, refl, sym, ap, ap₂, ◌∙◌, List, [], ◌∷◌, ◌++◌, map, Option, some, Text, All, append_assoc,
  append-nil, Option-cases, inl, inr,
}
use vanilla_bus.Engine.Value.{Fields}
use vanilla_bus.Framing.{JsonCodec, push, Pushed, messages, throws}
use vanilla_bus.Framing.RoundTrip.{feed, prefix, concat}
use vanilla_bus.Framing.Encode.{IsSendable, encode_all, feed-encode_all}
use vanilla_bus.Client.State.{EngineClient, Effect}
use vanilla_bus.Client.Dispatch.{dispatch_parts, dispatch, dispatch_all, after, pending_kind}
use vanilla_bus.Client.Requests.{handle_push, on_data}
use vanilla_bus.Client.{data_arrives, step, run}

abbrev rebuffer : List ℕ → EngineClient × List Effect → EngineClient × List Effect
rebuffer b (c, effects) = (record c { buffer = b }, effects)

dispatch_parts-rebuffer :
    (b : List ℕ) (c : EngineClient) (kind id : Text) (payload : Option Fields)
    → dispatch_parts (record c { buffer = b }) kind id payload
      ≡ rebuffer b (dispatch_parts c kind id payload)
unfolding dispatch_parts
dispatch_parts-rebuffer b c kind id payload = elim (Option-cases (pending_kind id c.pending)) [
  | inl e ↦ rw (e, dispatch_parts) refl
  | inr (expected, e) ↦ rw (e, dispatch_parts) refl
]

-- `dispatch` does not look at the decoder's buffer
dispatch_all-rebuffer :
    (b : List ℕ) (c : EngineClient) (ms : List Fields)
    → dispatch_all (record c { buffer = b }) ms ≡ rebuffer b (dispatch_all c ms)
unfolding dispatch_all dispatch
dispatch_all-rebuffer b c [] = refl
dispatch_all-rebuffer b c (m ∷ ms) =
    let first = dispatch_parts-rebuffer b c _ _ _ in
    ap (λ r. after r.1 (dispatch_all r.0 ms)) first
    ∙ ap (after (dispatch c m).1) (dispatch_all-rebuffer b (dispatch c m).0 ms)

dispatch_all-append :
    (c : EngineClient) (ms ns : List Fields)
    → dispatch_all c (ms ++ ns)
      ≡ after (dispatch_all c ms).1 (dispatch_all (dispatch_all c ms).0 ns)
unfolding dispatch_all
dispatch_all-append c [] ns = refl
dispatch_all-append c (m ∷ ms) ns =
    ap (after (dispatch c m).1) (dispatch_all-append (dispatch c m).0 ms ns)
    ∙ ap (λ effects. ((dispatch_all (dispatch_all (dispatch c m).0 ms).0 ns).0, effects))
        (sym (
          append_assoc (dispatch c m).1 (dispatch_all (dispatch c m).0 ms).1
            (dispatch_all (dispatch_all (dispatch c m).0 ms).0 ns).1))

prefix-messages :
    (ms left_ms : List Fields) (left : List ℕ) (r : List ℕ × Pushed)
    → prefix ms r ≡ (left, messages left_ms)
    → (ns : List Fields) × (r ≡ (left, messages ns)) × (left_ms ≡ ms ++ ns)
prefix-messages ms left_ms left (b, throws e) h = cc
prefix-messages ms left_ms left (b, messages ns) h = (ns, cc, cc)

module _ (codec : JsonCodec) where
  -- a chunk that the decoder reads without an exception
  on_data-messages :
      (c : EngineClient) (chunk left : List ℕ) (ms : List Fields)
      → push codec c.buffer chunk ≡ (left, messages ms)
      → on_data codec c chunk ≡ rebuffer left (dispatch_all c ms)
  unfolding on_data handle_push
  on_data-messages c chunk left ms e = ap (handle_push codec c) e ∙ dispatch_all-rebuffer left c ms

  -- the first chunk of a stream that is read without an exception
  feed-first :
      (b chunk left : List ℕ) (chunks : List (List ℕ)) (ms : List Fields)
      → feed codec b (chunk ∷ chunks) ≡ (left, messages ms)
      → (b1 : List ℕ) × (ms1 : List Fields) × (ms2 : List Fields) × (push codec b chunk
          ≡ (b1, messages ms1))
        × (feed codec b1 chunks ≡ (left, messages ms2))
        × (ms ≡ ms1 ++ ms2)
  unfolding feed
  feed-first b chunk left chunks ms h = split (push codec b chunk) refl h
    where
      split :
          (r : List ℕ × Pushed)
          → push codec b chunk ≡ r
          → (elim r.1 [
            | throws e ↦ (r.0, throws e)
            | messages ns ↦ prefix ns (feed codec r.0 chunks)
          ])
            ≡ (left, messages ms)
          → (b1 : List ℕ) × (ms1 : List Fields) × (ms2 : List Fields) × (push codec b chunk
              ≡ (b1, messages ms1))
            × (feed codec b1 chunks ≡ (left, messages ms2))
            × (ms ≡ ms1 ++ ms2)
      split (b1, throws e) p q = cc
      split (b1, messages ms1) p q =
          let (ms2, later, both) = prefix-messages ms1 ms left (feed codec b1 chunks) q in
          (b1, ms1, ms2, p, later, both)

  run-feed :
      (chunks : List (List ℕ)) (c : EngineClient) (done : List Effect) (left : List ℕ)
      (ms : List Fields)
      → feed codec c.buffer chunks ≡ (left, messages ms)
      → run codec (c, done) (map data_arrives chunks)
        ≡ rebuffer left ((dispatch_all c ms).0, done ++ (dispatch_all c ms).1)
  unfolding run step feed dispatch_all
  run-feed [] c done left ms h =
      let same_bytes : c.buffer ≡ left = cc in
      let no_messages : [] ≡ ms = cc in
      ap (λ effects. (c, effects)) (sym (append-nil done))
      ∙ ap₂ (λ b ns. rebuffer b ((dispatch_all c ns).0, done ++ (dispatch_all c ns).1)) same_bytes
          no_messages
  run-feed (chunk ∷ chunks) c done left ms h =
      let (b1, ms1, ms2, p, later, both) = feed-first c.buffer chunk left chunks ms h in
      let first = on_data-messages c chunk b1 ms1 p in
      let (middle, early) = dispatch_all c ms1 in
      let last = dispatch_all middle ms2 in
      ap (λ r. run codec (r.0, done ++ r.1) (map data_arrives chunks)) first
      ∙ run-feed chunks (record middle { buffer = b1 }) (done ++ early) left ms2 later
      ∙ ap (λ r. rebuffer left (r.0, done ++ early ++ r.1)) (dispatch_all-rebuffer b1 middle ms2)
      ∙ ap (λ effects. rebuffer left (last.0, effects)) (append_assoc done early last.1)
      ∙ ap (λ r. rebuffer left (r.0, done ++ r.1)) (sym (dispatch_all-append c ms1 ms2))
      ∙ ap (λ ns. rebuffer left ((dispatch_all c ns).0, done ++ (dispatch_all c ns).1)) (sym both)

  -- For messages each of which the runtime's JSON reads back as it was written, has a `type` that is
  -- not empty and fits a frame: however their encoded bytes are cut into chunks, a client whose
  -- decoder is empty at first does on the chunks what `dispatch` does on the messages in their order,
  -- each once, and the decoder is empty again.
  pub run-encode_all :
      (c : EngineClient) (ms : List Fields) (chunks : List (List ℕ)) (bytes : List ℕ)
      → All (IsSendable codec) ms
      → encode_all codec ms ≡ some bytes
      → concat codec chunks ≡ bytes
      → c.buffer ≡ []
      → run codec (c, []) (map data_arrives chunks)
        ≡ (record (dispatch_all c ms).0 { buffer = [] }, (dispatch_all c ms).1)
  run-encode_all c ms chunks bytes fine wrote cut fresh =
      run-feed chunks c [] [] ms
        (ap (λ b. feed codec b chunks) fresh ∙ feed-encode_all codec ms chunks bytes fine wrote cut)
