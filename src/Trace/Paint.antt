-- ===== src/Trace/Paint.antt =====
-- shared/tracePaint.ts: the rows of the visible window. The columns `time` and `rate`, which
-- `Date` and `toFixed` print from doubles, are left out of a row.
pub mod Page
use vanilla_bus.Prelude.{
  ℕ, zero, suc, ◌+◌, ◌-◌, Bool, true, false, ◌||◌, List, [], ◌∷◌, Option, none, some, Text, min,
  leb, ◌==◌, if◌then◌else◌,
}
use vanilla_bus.Prelude.Int.{pos}
use vanilla_bus.Engine.Types.{FrameEvent, FrameDir}
use vanilla_bus.Trace.Ring.{FrameRing, TraceEntry, at}
use vanilla_bus.Trace.Format.{format_can_id_prefixed, format_data_hex, frame_name}
use vanilla_bus.Trace.Filter.{collect_matching_indices, visible_count, ring_index_at}

abbrev pub trace_visible_row_budget : ℕ
trace_visible_row_budget = 24

pub record PaintedRow : Type 0 where
  pub seq : ℕ
  pub bus : Text
  pub id : Text
  pub name : Text
  pub dlc : ℕ
  pub bytes : Text
  pub dir : FrameDir

pub record FirstPaintOptions : Type 0 where
  pub filter : Option Text
  pub visible_budget : Option ℕ
  pub follow_newest : Option Bool

-- `options.x ?? d`
abbrev pub or_default {ℓ} : {A : Type ℓ} → Option A → A → A
or_default none d = d
or_default (some a) d = a

pub painted_row : TraceEntry FrameEvent → PaintedRow
painted_row entry = record {
  seq = entry.seq;
  bus = frame.if_name;
  id = format_can_id_prefixed frame.can_id frame.is_eff;
  name = frame_name frame;
  dlc = frame.dlc;
  bytes = format_data_hex frame.payload;
  dir = frame.dir;
}
  where
    frame : FrameEvent
    frame = entry.frame

-- `ring.at(ringIndexAt(indices, visible))`; `none` is an exception
entry_at : FrameRing FrameEvent → Option ℕ → Option (TraceEntry FrameEvent)
entry_at ring none = none
entry_at ring (some i) = elim (at ring (pos i)) [ none ↦ none | some slot ↦ slot ]

push_row : Option (TraceEntry FrameEvent) → Option (List PaintedRow) → Option (List PaintedRow)
push_row (some entry) (some rows) = some (painted_row entry ∷ rows)
push_row _ _ = none

-- the loop from `visible` on, `n` rows left
paint_from : FrameRing FrameEvent → Option (List ℕ) → ℕ → ℕ → Option (List PaintedRow)
paint_from ring indices visible zero = some []
paint_from ring indices visible (suc n) =
    push_row (entry_at ring (ring_index_at indices visible))
      (paint_from ring indices (visible + 1) n)

-- `none` is an exception.
pub paint_visible_window : FrameRing FrameEvent → FirstPaintOptions → Option (List PaintedRow)
unfolding paint_from push_row entry_at
paint_visible_window ring options =
    let budget = or_default options.visible_budget trace_visible_row_budget in
    let indices = collect_matching_indices ring (or_default options.filter []) in
    let count = visible_count ring indices in
    let start = if or_default options.follow_newest true then count - budget else 0 in
    let stop = min count (start + budget) in
    if count == 0 || leb budget 0 then some [] else paint_from ring indices start (stop - start)
