-- ===== src/Trace/Ring/Refine.antt =====
-- shared/traceRing.ts: the live slots of a `FrameRing`, oldest first.
use vanilla_bus.Prelude.{
  ℕ, zero, suc, ◌+◌, ◌-◌, ◌%◌, ◌≤◌, ◌<◌, ◌≡◌, refl, sym, ap, ap₂, ◌∙◌, List, [], ◌∷◌, ◌++◌, map,
  Option, none, some, arith, length, length-append, get_or, get_elem?, set, get_or-set_self,
  get_or-set_ne, drop, last, last_all, last-append-last, drop-append_le, if◌then◌else◌, ◌==◌,
  Bool-cases, inl, inr, append_assoc, append-nil,
}
use vanilla_bus.Prelude.Modular.{mod-add-ne, mod-add_one, mod-mod}
use native.Mathlib.Nat.{add-zero}
use vanilla_bus.Trace.Ring.{FrameRing, TraceEntry, make_room, write_slot, append_one, append_from}
use vanilla_bus.Trace.Ring.Inv.{IsValid, append_one-IsValid, capacity-make_room, make_room-IsValid}

module _ {ℓ} {A : Type ℓ} where
  -- the `n` slots from index `h` on, going round at `bound`
  abbrev pub window : List (Option A) → ℕ → ℕ → ℕ → List (Option A)
  window slots bound h zero = []
  window slots bound h (suc n) = get_or slots (h % bound) none ∷ window slots bound (h + 1) n

  length-window : (slots : List (Option A)) (bound h n : ℕ) → length (window slots bound h n) ≡ n
  length-window slots bound h zero = refl
  length-window slots bound h (suc n) = ap suc (length-window slots bound (h + 1) n)

  -- Only the place on the circle counts.
  window-mod :
      (slots : List (Option A)) (bound h k n : ℕ)
      → h % bound ≡ k % bound
      → window slots bound h n ≡ window slots bound k n
  window-mod slots bound h k zero e = refl
  window-mod slots bound h k (suc n) e =
      ap₂ ◌∷◌ (ap (λ i. get_or slots i none) e)
        (window-mod slots bound (h + 1) (k + 1) n (mod-add_one bound h k e))

  -- A write just past the window extends it.
  window-set :
      (slots : List (Option A)) (bound h n i : ℕ) (v : Option A)
      → bound ≤ length slots
      → n < bound
      → i < bound
      → i ≡ (h + n) % bound
      → window (set slots i v) bound h (suc n) ≡ window slots bound h n ++ v ∷ []
  window-set slots bound h zero i v hs hn hi e =
      ap (λ x. x ∷ [])
        (rw (← ap (λ k. k % bound) (add-zero h), ← e)
          (get_or-set_self slots i v none (omega arith)))
  window-set slots bound h (suc n) i v hs hn hi e =
      ap₂ ◌∷◌ (get_or-set_ne slots v none (rw e (mod-add-ne bound h (suc n) (omega arith) hn))) (
        window-set slots bound (h + 1) n i v hs (omega arith) hi
          (e ∙ ap (λ k. k % bound) (omega arith)))

  pub get-window :
      (slots : List (Option A)) (bound h n i : ℕ)
      → i < n
      → get_elem? (window slots bound h n) i ≡ some (get_or slots ((h + i) % bound) none)
  get-window slots bound h zero i hi = absurd (omega arith)
  get-window slots bound h (suc n) zero hi =
      ap (λ k. some (get_or slots (k % bound) none)) (omega arith)
  get-window slots bound h (suc n) (suc i) hi =
      get-window slots bound (h + 1) n i (omega arith)
      ∙ ap (λ k. some (get_or slots (k % bound) none)) (omega arith)

module _ {ℓ} {A : Type ℓ} where
  abbrev pub contents : FrameRing A → List (Option (TraceEntry A))
  contents r = window r.slots r.capacity r.head r.size

  pub length-contents : (r : FrameRing A) → length (contents r) ≡ r.size
  length-contents r = length-window r.slots r.capacity r.head r.size

  window-advance :
      (slots : List (Option (TraceEntry A))) (bound h n : ℕ)
      → 0 < n
      → window slots bound ((h + 1) % bound) (n - 1) ≡ drop 1 (window slots bound h n)
  window-advance slots bound h zero p = absurd (omega arith)
  window-advance slots bound h (suc n) p =
      ap (window slots bound ((h + 1) % bound)) (omega arith)
      ∙ window-mod slots bound ((h + 1) % bound) (h + 1) n (mod-mod bound (h + 1))

  contents-make_room :
      (r : FrameRing A)
      → IsValid r
      → contents (make_room r) ≡ drop (r.size + 1 - r.capacity) (contents r)
  unfolding make_room
  contents-make_room r v = elim (Bool-cases (r.size == r.capacity)) [
    | inl full ↦
        rw (full, make_room)
          (window-advance r.slots r.capacity r.head r.size (ground arith)
            ∙ ap (λ k. drop k (contents r)) {x = 1} (ground arith))
    | inr room ↦
        rw (room, make_room)
          (ap (λ k. drop k (contents r)) {x = 0} {y = r.size + 1 - r.capacity} (ground arith))
  ]

  contents-write_slot :
      (r : FrameRing A) (frame : A)
      → IsValid r
      → r.size < r.capacity
      → contents (write_slot r frame)
        ≡ contents r ++ some (record { seq = r.next_seq; frame = frame }) ∷ []
  unfolding write_slot
  contents-write_slot r frame v h =
      ap (window _ r.capacity r.head) {x = r.size + 1} {y = suc r.size} (omega arith)
      ∙ window-set r.slots r.capacity r.head r.size _ _ (omega arith) h (omega arith) refl

  next_seq-append_one :
      (r : FrameRing A) (frame : A) → (append_one r frame).next_seq ≡ r.next_seq + 1
  unfolding append_one make_room write_slot
  next_seq-append_one r frame = ground arith

  capacity-append_one : (r : FrameRing A) (frame : A) → (append_one r frame).capacity ≡ r.capacity
  unfolding append_one make_room write_slot
  capacity-append_one r frame = ground arith

  next_seq-make_room : (r : FrameRing A) → (make_room r).next_seq ≡ r.next_seq
  unfolding make_room
  next_seq-make_room r = ground arith

  size-append_one :
      (r : FrameRing A) (frame : A)
      → IsValid r
      → (append_one r frame).size ≡ (if r.size == r.capacity then r.size else r.size + 1)
  unfolding append_one make_room write_slot
  size-append_one r frame v = ground arith

  contents-append_one :
      (r : FrameRing A) (frame : A)
      → IsValid r
      → contents (append_one r frame)
        ≡ last r.capacity (contents r ++ some (record { seq = r.next_seq; frame = frame }) ∷ [])
  unfolding append_one
  contents-append_one r frame v =
      let entry : Option (TraceEntry A) = some (record { seq = r.next_seq; frame = frame }) in
      let (valid, room) = make_room-IsValid r v in
      contents-write_slot (make_room r) frame valid (omega (arith, capacity-make_room r))
      ∙ ap₂ (λ xs k. xs ++ some (record { seq = k; frame = frame }) ∷ []) (contents-make_room r v)
          (next_seq-make_room r)
      ∙ sym (
          drop-append_le (r.size + 1 - r.capacity) (contents r) (entry ∷ [])
            (omega (arith, length-contents r)))
      ∙ ap (λ k. drop k (contents r ++ entry ∷ []))
          (omega (arith, length-contents r, length-append (contents r) (entry ∷ [])))

  -- the entries that `frames` become, numbered from `seq` on
  abbrev pub numbered : ℕ → List A → List (TraceEntry A)
  numbered seq [] = []
  numbered seq (f ∷ fs) = record { seq = seq; frame = f } ∷ numbered (seq + 1) fs

  pub length-numbered : (seq : ℕ) (frames : List A) → length (numbered seq frames) ≡ length frames
  length-numbered seq [] = refl
  length-numbered seq (f ∷ fs) = ap suc (length-numbered (seq + 1) fs)

  pub contents-append_from :
      (r : FrameRing A) (frames : List A) (n : ℕ)
      → IsValid r
      → contents (append_from r frames n).0
        ≡ last r.capacity (contents r ++ map some (numbered r.next_seq frames))
  unfolding append_from
  contents-append_from r [] n v = sym (
      ap (last r.capacity) (append-nil (contents r))
      ∙ last_all r.capacity (contents r) (omega (arith, length-contents r)))
  contents-append_from r (f ∷ fs) n v =
      let entry : Option (TraceEntry A) = some (record { seq = r.next_seq; frame = f }) in
      let rest = map some (numbered (r.next_seq + 1) fs) in
      contents-append_from (append_one r f) fs _ (append_one-IsValid r f v)
      ∙ ap₂ (λ c k. last c (contents (append_one r f) ++ map some (numbered k fs)))
          (capacity-append_one r f) (next_seq-append_one r f)
      ∙ ap (λ xs. last r.capacity (xs ++ rest)) (contents-append_one r f v)
      ∙ last-append-last r.capacity (contents r ++ entry ∷ []) rest
      ∙ ap (last r.capacity) (append_assoc (contents r) (entry ∷ []) rest)

  pub dropped-append_from :
      (r : FrameRing A) (frames : List A) (n : ℕ)
      → IsValid r
      → (append_from r frames n).1 ≡ n + (r.size + length frames - r.capacity)
  unfolding append_from
  dropped-append_from r [] n v = omega arith
  dropped-append_from r (f ∷ fs) n v = ground (
    arith,
    dropped-append_from (append_one r f) fs (n + 1) (append_one-IsValid r f v),
    dropped-append_from (append_one r f) fs n (append_one-IsValid r f v),
    size-append_one r f v,
    capacity-append_one r f,
  )

  dropped_oldest-append_one :
      (r : FrameRing A) (frame : A)
      → (append_one r frame).dropped_oldest
        ≡ (if r.size == r.capacity then r.dropped_oldest + 1 else r.dropped_oldest)
  unfolding append_one make_room write_slot
  dropped_oldest-append_one r frame = ground arith

  pub counters-append_from :
      (r : FrameRing A) (frames : List A) (n : ℕ)
      → ((append_from r frames n).0.next_seq ≡ r.next_seq + length frames)
        × ((append_from r frames n).0.dropped_oldest + n
            ≡ r.dropped_oldest + (append_from r frames n).1)
        × ((append_from r frames n).0.capacity ≡ r.capacity)
  unfolding append_from
  counters-append_from r [] n = omega arith
  counters-append_from r (f ∷ fs) n = ground (
    arith,
    counters-append_from (append_one r f) fs (n + 1),
    counters-append_from (append_one r f) fs n,
    next_seq-append_one r f,
    capacity-append_one r f,
    dropped_oldest-append_one r f,
  )
