-- ===== src/Trace/Ring.antt =====
-- shared/traceRing.ts: `FrameRing`, a chronological ring that overwrites its oldest entry.
pub mod Inv
pub mod Refine
mod Tests
pub mod History
use vanilla_bus.Prelude.{
  ℕ, ◌+◌, ◌-◌, ◌%◌, Bool, true, false, List, [], ◌∷◌, Option, none, some, get_or, set, replicate,
  ltb, leb, ◌==◌, if◌then◌else◌,
}
use vanilla_bus.Prelude.Int.{ℤ, pos, negsuc}
use vanilla_bus.Engine.Value.{Number, integral}

pub record TraceEntry {ℓ} (A : Type ℓ) : Type ℓ where
  pub seq : ℕ
  pub frame : A

-- A slot that was never written is `undefined`, here `none`.
pub record FrameRing {ℓ} (A : Type ℓ) : Type ℓ where
  pub capacity : ℕ
  pub slots : List (Option (TraceEntry A))
  pub head : ℕ
  pub size : ℕ
  pub next_seq : ℕ
  pub dropped_oldest : ℕ

abbrev pub trace_ring_capacity : ℕ
trace_ring_capacity = 20000

module _ {ℓ} {A : Type ℓ} where
  pub fresh : ℕ → FrameRing A
  fresh bound = record {
    capacity = bound;
    slots = replicate bound none;
    head = 0;
    size = 0;
    next_seq = 1;
    dropped_oldest = 0;
  }

  -- the constructor; `none` is the error that it throws
  pub init : Number → Option (FrameRing A)
  unfolding fresh
  init (integral (pos bound)) = if ltb bound 1 then none else some (fresh bound)
  init _ = none

  -- `none` is the RangeError; the slot itself may hold `undefined`.
  pub at : FrameRing A → ℤ → Option (Option (TraceEntry A))
  at r (negsuc i) = none
  at r (pos i) =
      if leb r.size i then none else some (get_or r.slots ((r.head + i) % r.capacity) none)

  -- the loop body's first half: the oldest entry gives way when the ring is full
  pub make_room : FrameRing A → FrameRing A
  make_room r =
      if r.size == r.capacity
      then record r {
        head = (r.head + 1) % r.capacity;
        size = r.size - 1;
        dropped_oldest = r.dropped_oldest + 1;
      }
      else r

  pub write_slot : FrameRing A → A → FrameRing A
  write_slot r frame = record r {
    slots =
        set r.slots ((r.head + r.size) % r.capacity)
          (some (record { seq = r.next_seq; frame = frame }));
    next_seq = r.next_seq + 1;
    size = r.size + 1;
  }

  pub append_one : FrameRing A → A → FrameRing A
  unfolding make_room write_slot
  append_one r frame = write_slot (make_room r) frame

  -- the loop of `append`: the ring, and `dropped`
  pub append_from : FrameRing A → List A → ℕ → FrameRing A × ℕ
  append_from r [] dropped = (r, dropped)
  append_from r (frame ∷ frames) dropped =
      append_from (append_one r frame) frames
        (if r.size == r.capacity then dropped + 1 else dropped)

  pub append : FrameRing A → List A → FrameRing A × ℕ
  unfolding append_from
  append r frames = append_from r frames 0

  pub clear : FrameRing A → FrameRing A
  clear r = record r { head = 0; size = 0 }
