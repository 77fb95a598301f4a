-- ===== src/Trace/Filter.antt =====
-- shared/traceFilter.ts
-- which entries of
-- the ring a query shows.
pub mod Visible
use vanilla_bus.Prelude.{
  ℕ, zero, suc, ◌+◌, ◌/◌, ◌%◌, Bool, true, false, ◌||◌, ◌≡◌, refl, List, [], ◌∷◌, ◌++◌, Option,
  none, some, Text, codes, length, get_elem?, ltb, ◌==◌, if◌then◌else◌,
}
use vanilla_bus.Prelude.Int.{pos}
use vanilla_bus.Prelude.Strings.{trim, to_lower_case, to_upper_case, includes, pad_start}
use vanilla_bus.Engine.Types.{FrameEvent, FrameDecode}
use vanilla_bus.Trace.Format.{format_can_id, to_string}
use vanilla_bus.Trace.Ring.{FrameRing, TraceEntry, at}

name_matches : Text → Option FrameDecode → Bool
name_matches needle none = false
name_matches needle (some d) = includes (to_lower_case d.name) needle

-- An empty needle matches every frame.
matches_needle : FrameEvent → Text → Bool
matches_needle frame [] = true
matches_needle frame (c ∷ cs) =
    let needle = c ∷ cs in
    let hex = to_lower_case (format_can_id frame.can_id frame.is_eff) in
    includes hex needle
    || includes (codes "0x" ++ hex) needle
    || includes (to_string 10 frame.can_id) needle
    || name_matches needle frame.decode
    || includes (to_lower_case frame.if_name) needle

pub frame_matches_filter : FrameEvent → Text → Bool
unfolding matches_needle name_matches
frame_matches_filter frame query = matches_needle frame (to_lower_case (trim query))

-- `ring.at(i)` inside the bounds of a well-formed ring; anything else would be an exception, and
-- counts as no match.
entry_matches : Option (Option (TraceEntry FrameEvent)) → Text → Bool
entry_matches (some (some e)) query = frame_matches_filter e.frame query
entry_matches _ query = false

-- the loop over the indices from `i` on, `n` of them left
collect : FrameRing FrameEvent → Text → ℕ → ℕ → List ℕ
collect ring query i zero = []
collect ring query i (suc n) =
    let rest = collect ring query (i + 1) n in
    if entry_matches (at ring (pos i)) query then i ∷ rest else rest

-- `null`, for no filter, is `none`.
pub collect_matching_indices : FrameRing FrameEvent → Text → Option (List ℕ)
unfolding collect entry_matches
collect_matching_indices ring query =
    if length (trim query) == 0 then none else some (collect ring query 0 ring.size)

pub visible_count : FrameRing FrameEvent → Option (List ℕ) → ℕ
visible_count ring none = ring.size
visible_count ring (some indices) = length indices

-- The outer option is `none` where `indices[visibleIndex]` is `undefined`.
pub ring_index_at : Option (List ℕ) → ℕ → Option ℕ
ring_index_at none visible = some visible
ring_index_at (some indices) visible = get_elem? indices visible
