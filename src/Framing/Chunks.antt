-- ===== src/Framing/Chunks.antt =====
-- electron/main/framing.ts: the loop of `FrameDecoder.push` on a buffer and what comes later.
use vanilla_bus.Prelude.{
  ℕ, zero, suc, ◌≤◌, ◌<◌, ◌≡◌, ◌≢◌, ◌⊎◌, inl, inr, refl, sym, ap, ◌∙◌, List, [], ◌∷◌, ◌++◌, Option,
  none, some, arith, length, take, drop, length-append, length-drop, take-append_le, drop-append_le,
}
use vanilla_bus.Engine.Value.{Value, Fields}
use vanilla_bus.Framing.{
  JsonCodec, Round, waits, fails, yields, Stop, held, broken, u32_of, accept, read_body, read_frame,
  and_then, scan, scan_all, ProtocolError,
}

-- what is behind the frame, with the bytes that came later
abbrev pub more : List ℕ → Round → Round
more later waits = waits
more later (fails e left) = fails e (left ++ later)
more later (yields m left) = yields m (left ++ later)

accept-more :
    (parsed : Option Value) (left later : List ℕ)
    → accept parsed (left ++ later) ≡ more later (accept parsed left)
unfolding accept
accept-more none left later = refl
accept-more (some v) left later = ground arith

module _ (codec : JsonCodec) where
  read_body-more :
      (buffer rest later : List ℕ) (n : ℕ)
      → read_body codec buffer n rest ≢ waits
      → read_body codec (buffer ++ later) n (rest ++ later)
        ≡ more later (read_body codec buffer n rest)
  unfolding read_body
  read_body-more buffer rest later n h = ground (
    arith,
    accept-more (codec.parse (take n rest)) (drop n rest) later,
    length-append rest later,
    take-append_le n rest later,
    drop-append_le n rest later,
  )

  read_frame-more :
      (buffer later : List ℕ)
      → read_frame codec buffer ≢ waits
      → read_frame codec (buffer ++ later) ≡ more later (read_frame codec buffer)
  unfolding read_frame
  read_frame-more (a ∷ b ∷ c ∷ d ∷ rest) later h =
      read_body-more (a ∷ b ∷ c ∷ d ∷ rest) rest later (u32_of a b c d) h
  read_frame-more [] later h = absurd (h refl)
  read_frame-more (a ∷ []) later h = absurd (h refl)
  read_frame-more (a ∷ b ∷ []) later h = absurd (h refl)
  read_frame-more (a ∷ b ∷ c ∷ []) later h = absurd (h refl)

accept_left :
    (parsed : Option Value) (left : List ℕ) {m : Fields} {rest : List ℕ}
    → accept parsed left ≡ yields m rest
    → rest ≡ left
unfolding accept
accept_left none left h = cc
accept_left (some v) left h = ground arith

module _ (codec : JsonCodec) where
  read_body_left :
      (buffer rest : List ℕ) (n : ℕ) {m : Fields} {left : List ℕ}
      → read_body codec buffer n rest ≡ yields m left
      → length left < length rest
  unfolding read_body
  read_body_left buffer rest n {left} h =
      ground (arith, accept_left (codec.parse (take n rest)) (drop n rest), length-drop n rest)

  -- A message takes its bytes off the buffer.
  pub read_frame_left :
      (buffer : List ℕ) {m : Fields} {left : List ℕ}
      → read_frame codec buffer ≡ yields m left
      → length left < length buffer
  unfolding read_frame
  read_frame_left (a ∷ b ∷ c ∷ d ∷ rest) h =
      omega (arith, read_body_left (a ∷ b ∷ c ∷ d ∷ rest) rest (u32_of a b c d) h)
  read_frame_left [] h = cc
  read_frame_left (a ∷ []) h = cc
  read_frame_left (a ∷ b ∷ []) h = cc
  read_frame_left (a ∷ b ∷ c ∷ []) h = cc

  read_frame_short : read_frame codec [] ≡ waits
  unfolding read_frame
  read_frame_short = refl

Round-cases :
    (r : Round)
    → (r ≡ waits)
      ⊎ ((e : ProtocolError) × (left : List ℕ) × (r ≡ fails e left))
      ⊎ ((m : Fields) × (left : List ℕ) × (r ≡ yields m left))
Round-cases waits = inl refl
Round-cases (fails e left) = inr (inl (e, left, refl))
Round-cases (yields m left) = inr (inr (m, left, refl))

module _ (codec : JsonCodec) where
  scan_waits : (f : ℕ) (b : List ℕ) → read_frame codec b ≡ waits → scan codec f b ≡ ([], held b)
  unfolding scan
  scan_waits zero b h = refl
  scan_waits (suc f) b h = rw (h, scan)

  scan-fails :
      (f : ℕ) (b : List ℕ) (e : ProtocolError) (left : List ℕ)
      → read_frame codec b ≡ fails e left
      → scan codec (suc f) b ≡ ([], broken e left)
  unfolding scan
  scan-fails f b e left h = rw (h, scan)

  pub scan_yields :
      (f : ℕ) (b : List ℕ) (m : Fields) (left : List ℕ)
      → read_frame codec b ≡ yields m left
      → scan codec (suc f) b ≡ and_then m (scan codec f left)
  unfolding scan
  scan_yields f b m left h = rw (h, scan)

  -- The loop gives the same messages and the same end with any two amounts of fuel that are at
  -- least the length of the buffer, so the length is fuel enough.
  pub scan-fuel :
      (f g : ℕ) (b : List ℕ) → length b ≤ f → length b ≤ g → scan codec f b ≡ scan codec g b
  scan-fuel f g [] hf hg =
      scan_waits f [] (read_frame_short codec) ∙ sym (scan_waits g [] (read_frame_short codec))
  scan-fuel zero g (x ∷ b) hf hg = absurd (omega arith)
  scan-fuel (suc f) zero (x ∷ b) hf hg = absurd (omega arith)
  scan-fuel (suc f) (suc g) (x ∷ b) hf hg = elim (Round-cases (read_frame codec (x ∷ b))) [
    | inl h ↦ scan_waits (suc f) (x ∷ b) h ∙ sym (scan_waits (suc g) (x ∷ b) h)
    | inr (inl (e, left, h)) ↦ scan-fails f (x ∷ b) e left h ∙ sym (scan-fails g (x ∷ b) e left h)
    | inr (inr (m, left, h)) ↦
        let shorter = read_frame_left codec (x ∷ b) h in
        scan_yields f (x ∷ b) m left h
        ∙ ap (and_then m) (scan-fuel f g left (omega arith) (omega arith))
        ∙ sym (scan_yields g (x ∷ b) m left h)
  ]

  -- The loop goes on where it stopped, when more bytes have come.
  abbrev pub resume : List Fields × Stop → List ℕ → List Fields × Stop
  resume (ms, held left) later =
      (ms ++ (scan_all codec (left ++ later)).0, (scan_all codec (left ++ later)).1)
  resume (ms, broken e left) later = (ms, broken e (left ++ later))

  resume-and_then :
      (m : Fields) (r : List Fields × Stop) (later : List ℕ)
      → and_then m (resume r later) ≡ resume (and_then m r) later
  resume-and_then m (ms, held left) later = refl
  resume-and_then m (ms, broken e left) later = refl

  scan_all-fails :
      (b : List ℕ) (e : ProtocolError) (left : List ℕ)
      → read_frame codec b ≡ fails e left
      → scan_all codec b ≡ ([], broken e left)
  scan_all-fails b e left h =
      scan-fuel (length b) (suc (length b)) b (omega arith) (omega arith)
      ∙ scan-fails (length b) b e left h

  pub scan_all_yields :
      (b : List ℕ) (m : Fields) (left : List ℕ)
      → read_frame codec b ≡ yields m left
      → scan_all codec b ≡ and_then m (scan_all codec left)
  scan_all_yields b m left h =
      let shorter = read_frame_left codec b h in
      scan-fuel (length b) (suc (length b)) b (omega arith) (omega arith)
      ∙ scan_yields (length b) b m left h
      ∙ ap (and_then m) (scan-fuel (length b) (length left) left (omega arith) (omega arith))

  scan-append :
      (f : ℕ) (b later : List ℕ)
      → length b ≤ f
      → scan_all codec (b ++ later) ≡ resume (scan codec f b) later
  scan-append zero [] later hf =
      sym (ap (λ r. resume r later) (scan_waits zero [] (read_frame_short codec)))
  scan-append zero (x ∷ b) later hf = absurd (omega arith)
  scan-append (suc f) b later hf = elim (Round-cases (read_frame codec b)) [
    | inl h ↦ sym (ap (λ r. resume r later) (scan_waits (suc f) b h))
    | inr (inl (e, left, h)) ↦
        scan_all-fails (b ++ later) e (left ++ later)
          (read_frame-more codec b later (λ w. cc) ∙ ap (more later) h)
        ∙ sym (ap (λ r. resume r later) (scan-fails f b e left h))
    | inr (inr (m, left, h)) ↦
        let shorter = read_frame_left codec b h in
        scan_all_yields (b ++ later) m (left ++ later)
          (read_frame-more codec b later (λ w. cc) ∙ ap (more later) h)
        ∙ ap (and_then m) (scan-append f left later (omega arith))
        ∙ resume-and_then m (scan codec f left) later
        ∙ sym (ap (λ r. resume r later) (scan_yields f b m left h))
  ]

  -- Reading a stream in one piece, or in two, gives the same messages, the same partial frame and
  -- the same error.
  pub scan_all-append :
      (b later : List ℕ) → scan_all codec (b ++ later) ≡ resume (scan_all codec b) later
  scan_all-append b later = scan-append (length b) b later (omega arith)

  -- Bytes are held back only for a frame that is not complete.
  scan_held :
      (f : ℕ) (b : List ℕ) {ms : List Fields} {left : List ℕ}
      → length b ≤ f
      → scan codec f b ≡ (ms, held left)
      → read_frame codec left ≡ waits
  scan_held zero [] {ms} {left} hf e =
      let stopped = sym (scan_waits zero [] (read_frame_short codec)) ∙ e in
      let same : [] ≡ left = cc stopped in rw (← same) (read_frame_short codec)
  scan_held zero (x ∷ b) hf e = absurd (omega arith)
  scan_held (suc f) b {ms} {left} hf e = elim (Round-cases (read_frame codec b)) [
    | inl h ↦
        let stopped = sym (scan_waits (suc f) b h) ∙ e in
        let same : b ≡ left = cc stopped in rw (← same) h
    | inr (inl (err, rest, h)) ↦ let stopped = sym (scan-fails f b err rest h) ∙ e in cc stopped
    | inr (inr (m, rest, h)) ↦
        let shorter = read_frame_left codec b h in
        let stopped = sym (scan_yields f b m rest h) ∙ e in
        scan_held f rest {ms = (scan codec f rest).0} (omega arith) (cc stopped)
  ]

  -- What a push holds back is a partial frame: the loop would do nothing on it.
  pub scan_all_held :
      (b : List ℕ) {ms : List Fields} {left : List ℕ}
      → scan_all codec b ≡ (ms, held left)
      → (read_frame codec left ≡ waits) × (scan_all codec left ≡ ([], held left))
  scan_all_held b {ms} {left} e =
      let partial = scan_held (length b) b {ms = ms} (omega arith) e in
      (partial, scan_waits (length left) left partial)
