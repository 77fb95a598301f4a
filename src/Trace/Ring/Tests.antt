-- ===== src/Trace/Ring/Tests.antt =====
-- Runs of `FrameRing` on a full ring of two slots.
use vanilla_bus.Prelude.{ℕ, ◌+◌, ◌≡◌, refl, List, [], ◌∷◌, none, some, arith, ◌<◌, ◌⊎◌}
use vanilla_bus.Prelude.Int.{pos}
use vanilla_bus.Engine.Value.{integral}
use vanilla_bus.Trace.Ring.{TraceEntry, FrameRing, init, append, append_one}
use vanilla_bus.Trace.Ring.Inv.{IsValid, init_iff}
use vanilla_bus.Trace.Ring.History.{Holds, append-Holds}

-- 7 and 8 arrived, and the ring is full
abbrev full_ring : FrameRing ℕ
full_ring = record {
  capacity = 2;
  slots = some (record { seq = 1; frame = 7 }) ∷ some (record { seq = 2; frame = 8 }) ∷ [];
  head = 0;
  size = 2;
  next_seq = 3;
  dropped_oldest = 0;
}

abbrev held_entries : List (TraceEntry ℕ)
held_entries = record { seq = 1; frame = 7 } ∷ record { seq = 2; frame = 8 } ∷ []

full_ring-Holds : Holds full_ring held_entries
full_ring-Holds = record { valid = omega arith; live = refl }

append-Holds_example :
    Holds
      (append full_ring (9 ∷ [])).0
      (record { seq = 2; frame = 8 } ∷ record { seq = 3; frame = 9 } ∷ [])
    × ((append full_ring (9 ∷ [])).1 ≡ 1)
    × ((append full_ring (9 ∷ [])).0.dropped_oldest ≡ 0 + (append full_ring (9 ∷ [])).1)
    × ((append full_ring (9 ∷ [])).0.next_seq ≡ 4)
    × ((append full_ring (9 ∷ [])).0.capacity ≡ 2)
append-Holds_example = append-Holds full_ring held_entries (9 ∷ []) full_ring-Holds

init_iff_example :
    ((bound : ℕ) × (r : FrameRing ℕ) × (integral (pos 2) ≡ integral (pos bound))
      × (0 < bound)
      × (init (integral (pos 2)) ≡ some r)
      × IsValid r
      × (r.capacity ≡ bound)
      × (r.size ≡ 0))
    ⊎ ((init {A = ℕ} (integral (pos 2)) ≡ none)
        × ((bound : ℕ) → integral (pos 2) ≡ integral (pos bound) → bound ≡ 0))
init_iff_example = init_iff (integral (pos 2))

append_run : append full_ring (9 ∷ []) ≡ (
  record {
    capacity = 2;
    slots = some (record { seq = 3; frame = 9 }) ∷ some (record { seq = 2; frame = 8 }) ∷ [];
    head = 1;
    size = 2;
    next_seq = 4;
    dropped_oldest = 1;
  },
  1,
)
unfolding append append_one
append_run = refl
