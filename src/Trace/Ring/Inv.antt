-- ===== src/Trace/Ring/Inv.antt =====
-- shared/traceRing.ts: the representation invariant of `FrameRing`.
use vanilla_bus.Prelude.{
  ℕ, ◌+◌, ◌%◌, ◌≤◌, ◌<◌, ◌≡◌, List, [], ◌∷◌, Option, none, some, arith, length, length-set,
  length-replicate, ◌⊎◌, inl, inr, refl, dec_lt,
}
use vanilla_bus.Engine.Value.{Number, integral, fractional, nan, infinite}
use vanilla_bus.Prelude.Int.{pos, negsuc}
use vanilla_bus.Trace.Ring.{
  FrameRing, TraceEntry, fresh, init, make_room, write_slot, append_one, append_from, append, clear,
}

pub record IsValid {ℓ} {A : Type ℓ} (r : FrameRing A) : Type ℓ where
  pub positive : 0 < r.capacity
  pub storage : length r.slots ≡ r.capacity
  pub head_in : r.head < r.capacity
  pub size_in : r.size ≤ r.capacity
  pub numbered : r.size + r.dropped_oldest + 1 ≤ r.next_seq

module _ {ℓ} {A : Type ℓ} where
  init-IsValid : (bound : ℕ) {r : FrameRing A} → init (integral (pos bound)) ≡ some r → IsValid r
  unfolding init
  init-IsValid bound h = ground (arith, length-replicate {A = Option (TraceEntry A)} bound none)

  pub make_room-IsValid :
      (r : FrameRing A) → IsValid r → IsValid (make_room r) × ((make_room r).size < r.capacity)
  unfolding make_room
  make_room-IsValid r v = ground arith

  write_slot-IsValid :
      (r : FrameRing A) (frame : A) → IsValid r → r.size < r.capacity → IsValid (write_slot r frame)
  unfolding write_slot
  write_slot-IsValid r frame v h = omega (
    arith,
    length-set r.slots ((r.head + r.size) % r.capacity)
        (some (record { seq = r.next_seq; frame = frame })),
  )

  pub capacity-make_room : (r : FrameRing A) → (make_room r).capacity ≡ r.capacity
  unfolding make_room
  capacity-make_room r = ground arith

  -- One frame more keeps the ring well formed.
  pub append_one-IsValid : (r : FrameRing A) (frame : A) → IsValid r → IsValid (append_one r frame)
  unfolding append_one
  append_one-IsValid r frame v =
      let (valid, room) = make_room-IsValid r v in
      write_slot-IsValid (make_room r) frame valid (omega (arith, capacity-make_room r))

  append_from-IsValid :
      (r : FrameRing A) (frames : List A) (n : ℕ) → IsValid r → IsValid (append_from r frames n).0
  unfolding append_from
  append_from-IsValid r [] n v = v
  append_from-IsValid r (f ∷ fs) n v =
      append_from-IsValid (append_one r f) fs _ (append_one-IsValid r f v)

  pub append-IsValid : (r : FrameRing A) (frames : List A) → IsValid r → IsValid (append r frames).0
  unfolding append
  append-IsValid r frames v = append_from-IsValid r frames 0 v

  pub clear-IsValid : (r : FrameRing A) → IsValid r → IsValid (clear r)
  unfolding clear
  clear-IsValid r v = omega arith

  -- The constructor accepts exactly the positive integers, and what it builds is well formed.
  pub init_iff :
      (n : Number)
      → ((bound : ℕ) × (r : FrameRing A) × (n ≡ integral (pos bound))
          × (0 < bound)
          × (init n ≡ some r)
          × IsValid r
          × (r.capacity ≡ bound)
          × (r.size ≡ 0))
        ⊎ ((init {A = A} n ≡ none) × ((bound : ℕ) → n ≡ integral (pos bound) → bound ≡ 0))
  unfolding init
  init_iff (integral (pos bound)) = elim (dec_lt 0 bound) [
    | yes h ↦
        inl
          (bound, fresh bound, refl, h, ground arith, init-IsValid bound (ground arith), refl, refl)
    | no h ↦ inr (ground arith, λ c e. ground arith)
  ]
  init_iff (integral (negsuc k)) = inr (refl, λ c e. cc)
  init_iff (fractional z k) = inr (refl, λ c e. cc)
  init_iff nan = inr (refl, λ c e. cc)
  init_iff (infinite b) = inr (refl, λ c e. cc)
