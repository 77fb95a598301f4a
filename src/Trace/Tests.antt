-- ===== src/Trace/Tests.antt =====
-- Runs of the trace view on two frames.
use vanilla_bus.Prelude.{
  ℕ, ◌+◌, ◌≡◌, refl, true, false, List, [], ◌∷◌, none, some, arith, length, get_elem?, codes, map,
  last,
}
use vanilla_bus.Prelude.Int.{pos}
use vanilla_bus.Engine.Value.{integral}
use vanilla_bus.Engine.Types.{FrameEvent, rx}
use vanilla_bus.Trace.Ring.{TraceEntry, FrameRing, at}
use vanilla_bus.Trace.Ring.History.{Holds}
use vanilla_bus.Trace.Filter.{collect_matching_indices, visible_count, ring_index_at}
use vanilla_bus.Trace.Filter.Visible.{shown, visible_row}
use vanilla_bus.Trace.Paint.{FirstPaintOptions, painted_row, paint_visible_window}
use vanilla_bus.Trace.Paint.Page.{paint-page}
use vanilla_bus.Trace.Model.{TraceCall, batch_arrives, pauses, start, run}
use vanilla_bus.Trace.Model.History.{tally_all, Accounts, run-start-Accounts}

abbrev demo : ℕ → FrameEvent
demo id = record {
  bus_id = codes "bus";
  if_name = codes "vcan0";
  ts_us = integral (pos 5);
  can_id = id;
  dlc = 1;
  payload = codes "0a";
  is_eff = false;
  is_fd = false;
  brs = false;
  is_rtr = false;
  is_err = false;
  dir = rx;
  rate_ms = none;
  decode = none;
}

abbrev two_rows : List (TraceEntry FrameEvent)
two_rows = record { seq = 1; frame = demo 1 } ∷ record { seq = 2; frame = demo 2 } ∷ []

abbrev two_frames : FrameRing FrameEvent
two_frames = record {
  capacity = 2;
  slots = map some two_rows;
  head = 0;
  size = 2;
  next_seq = 3;
  dropped_oldest = 0;
}

two_frames-Holds : Holds two_frames two_rows
two_frames-Holds = record { valid = omega arith; live = refl }

visible_row_example :
    (visible_count two_frames (collect_matching_indices two_frames (codes "002"))
      ≡ length (shown (codes "002") two_rows))
    × ((visible : ℕ) (e : TraceEntry FrameEvent)
        → get_elem? (shown (codes "002") two_rows) visible ≡ some e
        → (i : ℕ) × (ring_index_at (collect_matching_indices two_frames (codes "002")) visible
            ≡ some i)
          × (at two_frames (pos i) ≡ some (some e)))
visible_row_example = visible_row two_frames (codes "002") two_rows two_frames-Holds

abbrev newest_one : FirstPaintOptions
newest_one = record { filter = none; visible_budget = some 1; follow_newest = none }

paint-page_example :
    paint_visible_window two_frames newest_one ≡ some (map painted_row (last 1 (shown [] two_rows)))
paint-page_example = paint-page two_frames two_rows newest_one two_frames-Holds

-- The frame that arrives while paused is not taken in.
abbrev calls : List TraceCall
calls =
    batch_arrives (record { frames = demo 1 ∷ []; dropped = pos 0 })
    ∷ pauses true
    ∷ batch_arrives (record { frames = demo 2 ∷ []; dropped = pos 0 })
    ∷ []

run-start-Accounts_example :
    Accounts (run start calls) true (demo 1 ∷ [])
    × ((run start calls).size + (run start calls).ui_dropped ≡ 1)
unfolding tally_all
run-start-Accounts_example = run-start-Accounts calls
