-- ===== src/Framing/RoundTrip.antt =====
-- electron/main/framing.ts: pushes of `FrameDecoder`, one after another.
use vanilla_bus.Prelude.{
  ℕ, ◌+◌, ◌<◌, ◌≡◌, ◌≢◌, ◌⊎◌, inl, inr, refl, sym, ap, ◌∙◌, List, [], ◌∷◌, ◌++◌, Option, none, some,
  arith, length, take, drop, append_assoc, append-nil,
}
use vanilla_bus.Engine.Value.{Value, Fields}
use vanilla_bus.Framing.{
  JsonCodec, waits, Stop, held, broken, max_frame_bytes, u32_of, accept, read_body, read_frame,
  scan_all, Pushed, messages, throws, settle, push, ProtocolError,
}
use vanilla_bus.Framing.Chunks.{resume, scan_all-append, scan_all_held}

Stop-cases :
    (r : List Fields × Stop)
    → ((ms : List Fields) × (left : List ℕ) × (r ≡ (ms, held left)))
      ⊎ ((ms : List Fields) × (e : ProtocolError) × (left : List ℕ) × (r ≡ (ms, broken e left)))
Stop-cases (ms, held left) = inl (ms, left, refl)
Stop-cases (ms, broken e left) = inr (ms, e, left, refl)

-- messages that came before
abbrev pub prefix : List Fields → List ℕ × Pushed → List ℕ × Pushed
prefix ms (buffer, throws e) = (buffer, throws e)
prefix ms (buffer, messages ms') = (buffer, messages (ms ++ ms'))

accept-ne-waits : (parsed : Option Value) (left : List ℕ) → accept parsed left ≢ waits
unfolding accept
accept-ne-waits none left = cc
accept-ne-waits (some v) left = ground arith

module _ (codec : JsonCodec) where
  body_bound :
      (buffer rest : List ℕ) (n : ℕ)
      → read_body codec buffer n rest ≡ waits
      → length rest < max_frame_bytes
  unfolding read_body
  body_bound buffer rest n h =
      ground (arith, accept-ne-waits (codec.parse (take n rest)) (drop n rest))

  waits_bound : (b : List ℕ) → read_frame codec b ≡ waits → length b < 4 + max_frame_bytes
  unfolding read_frame
  waits_bound (a ∷ b ∷ c ∷ d ∷ rest) h =
      omega (arith, body_bound (a ∷ b ∷ c ∷ d ∷ rest) rest (u32_of a b c d) h)
  waits_bound [] h = omega arith
  waits_bound (a ∷ []) h = omega arith
  waits_bound (a ∷ b ∷ []) h = omega arith
  waits_bound (a ∷ b ∷ c ∷ []) h = omega arith

  -- what is left of a push where more bytes are behind
  abbrev then_bytes : List ℕ × Pushed → List ℕ → List ℕ × Pushed
  then_bytes (buffer, throws e) more = (buffer ++ more, throws e)
  then_bytes (buffer, messages ms) more = prefix ms (push codec buffer more)

  settle-resume :
      (r : List Fields × Stop) (chunk : List ℕ)
      → settle (resume codec r chunk) ≡ then_bytes (settle r) chunk
  unfolding push
  settle-resume (ms, broken e left) chunk = refl
  settle-resume (ms, held left) chunk = ground arith

  push-then_bytes :
      (buffer first second : List ℕ)
      → push codec buffer (first ++ second) ≡ then_bytes (push codec buffer first) second
  unfolding push
  push-then_bytes buffer first second =
      ap (λ b. settle (scan_all codec b)) (sym (append_assoc buffer first second))
      ∙ ap settle (scan_all-append codec (buffer ++ first) second)
      ∙ settle-resume (scan_all codec (buffer ++ first)) second

  -- One push of two chunks, by its results: the bytes held back and what it returned or threw. `one`
  -- is that of the joined chunks, `early` that of the first chunk alone and `late` that of the second
  -- chunk on the bytes that `early` held back.
  abbrev pub Joins : List ℕ × Pushed → List ℕ × Pushed → List ℕ × Pushed → List ℕ → Type 0
  Joins one early late second =
      ((ms : List Fields) × (ms' : List Fields) × (early.1 ≡ messages ms)
        × (late.1 ≡ messages ms')
        × (one ≡ (late.0, messages (ms ++ ms'))))
      ⊎ ((ms : List Fields) × (e : ProtocolError) × (early.1 ≡ messages ms)
          × (late.1 ≡ throws e)
          × (one ≡ (late.0, throws e)))
      ⊎ ((e : ProtocolError) × (early.1 ≡ throws e) × (one ≡ (early.0 ++ second, throws e)))

  joined :
      (early late : List ℕ × Pushed) (second : List ℕ)
      → push codec early.0 second ≡ late
      → Joins (then_bytes early second) early late second
  joined (b, throws e) late second h = inr (inr (e, refl, refl))
  joined (b, messages ms) (b', messages ms') second h = inl (ms, ms', refl, refl, ap (prefix ms) h)
  joined (b, messages ms) (b', throws e) second h = inr (inl (ms, e, refl, refl, ap (prefix ms) h))

  -- One push of two joined chunks, against a push of the first chunk and, on the bytes that it held
  -- back, one of the second. Where both return, the joint push returns the messages of both in order
  -- and holds back the same bytes. Where the first returns and the second throws, the joint push
  -- throws the same and holds back the same bytes, and so returns none of the messages that the first
  -- push returned. Where the first throws, the joint push throws the same, with the second chunk
  -- behind the bytes held back.
  pub push-append :
      (buffer first second : List ℕ)
      → (let early = push codec buffer first in
          Joins (push codec buffer (first ++ second)) early (push codec early.0 second) second)
  push-append buffer first second =
      let early = push codec buffer first in
      rw (push-then_bytes buffer first second)
        (joined early (push codec early.0 second) second refl)

  -- Pushing chunk after chunk, with the messages so far.
  unfoldable pub feed : List ℕ → List (List ℕ) → List ℕ × Pushed
  feed buffer [] = (buffer, messages [])
  feed buffer (c ∷ cs) =
      let rest = feed (push codec buffer c).0 cs in
      elim (push codec buffer c).1 [
        | throws e ↦ ((push codec buffer c).0, throws e)
        | messages ms ↦ prefix ms rest
      ]

  abbrev pub concat : List (List ℕ) → List ℕ
  concat [] = []
  concat (c ∷ cs) = c ++ concat cs

  push_settled :
      (c buffer left : List ℕ) (ms : List Fields)
      → scan_all codec (buffer ++ c) ≡ (ms, held left)
      → push codec buffer c ≡ (left, messages ms)
  unfolding push
  push_settled c buffer left ms h = ap settle h

  -- one chunk, where the loop ends without an exception
  feed_chunk :
      (c : List ℕ) (cs : List (List ℕ)) (buffer left : List ℕ) (ms : List Fields)
      → scan_all codec (buffer ++ c) ≡ (ms, held left)
      → feed buffer (c ∷ cs) ≡ prefix ms (feed left cs)
  unfolding feed
  feed_chunk c cs buffer left ms h =
      let settled = push_settled c buffer left ms h in
      rw (settled, feed) (ap (λ p. prefix ms (feed p.0 cs)) settled)

  pub feed-concat :
      (cs : List (List ℕ)) (buffer left : List ℕ) (ms : List Fields)
      → scan_all codec buffer ≡ ([], held buffer)
      → scan_all codec (buffer ++ concat cs) ≡ (ms, held left)
      → feed buffer cs ≡ (left, messages ms)
  unfolding feed
  feed-concat [] buffer left ms quiet h =
      let stopped = sym quiet ∙ ap (scan_all codec) (sym (append-nil buffer)) ∙ h in cc stopped
  feed-concat (c ∷ cs) buffer left ms quiet h =
      let cut =
        sym (scan_all-append codec (buffer ++ c) (concat cs))
        ∙ ap (scan_all codec) (append_assoc buffer c (concat cs))
        ∙ h in
      elim (Stop-cases (scan_all codec (buffer ++ c))) [
        | inl (ms1, b1, e) ↦
            let cut1 = ap (λ r. resume codec r (concat cs)) (sym e) ∙ cut in
            let later =
              feed-concat cs b1 left (scan_all codec (b1 ++ concat cs)).0
                (scan_all_held codec (buffer ++ c) e).1
                (ap (λ r. ((scan_all codec (b1 ++ concat cs)).0, r.1)) cut1) in
            feed_chunk c cs buffer b1 ms1 e
            ∙ ap (prefix ms1) later
            ∙ ap (λ r. (left, messages r.0)) cut1
        | inr (ms1, err, b1, e) ↦
            let cut1 = ap (λ r. resume codec r (concat cs)) (sym e) ∙ cut in cc cut1
      ]

  -- What a push without an exception holds back is shorter than the largest frame with its header.
  pub push_bound :
      (buffer chunk left : List ℕ) (ms : List Fields)
      → push codec buffer chunk ≡ (left, messages ms)
      → length left < 4 + max_frame_bytes
  unfolding push
  push_bound buffer chunk left ms h = elim (Stop-cases (scan_all codec (buffer ++ chunk))) [
    | inl (ms1, b1, e) ↦
        let same : b1 ≡ left = cc (sym (ap settle e) ∙ h) in
        rw (← same) (waits_bound b1 (scan_all_held codec (buffer ++ chunk) e).0)
    | inr (ms1, err, b1, e) ↦ cc (sym (ap settle e) ∙ h)
  ]
