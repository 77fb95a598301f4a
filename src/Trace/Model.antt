-- ===== src/Trace/Model.antt =====
-- shared/traceControl.ts and the state of electron/renderer/src/trace/useTraceModel.ts. The refs
-- that mirror a React state are that state; `firstPaintMs` is kept as whether it is set.
pub mod History
use vanilla_bus.Prelude.{
  ℕ, ◌+◌, ◌<◌, Bool, true, false, not, ◌||◌, List, [], ◌∷◌, Text, length, filter, any, ltb, ◌==◌,
  if◌then◌else◌,
}
use vanilla_bus.Prelude.Int.{ℤ, pos}
use vanilla_bus.Engine.Types.{FrameEvent, RxBatch}
use vanilla_bus.Trace.Ring.{FrameRing, append, clear, fresh, trace_ring_capacity}

pub record TraceModel : Type 0 where
  pub ring : FrameRing FrameEvent
  pub paused : Bool
  pub scroll_lock : Bool
  pub query : Text
  pub size : ℕ
  pub generation : ℕ
  pub ui_dropped : ℕ
  pub engine_dropped : ℤ
  pub expanded : List ℕ
  pub first_painted : Bool

-- `applyRxBatch`
pub apply_rx_batch : FrameRing FrameEvent → List FrameEvent → Bool → FrameRing FrameEvent × ℕ
apply_rx_batch ring frames paused =
    if paused || length frames == 0 then (ring, 0) else append ring frames

pub start : TraceModel
start = record {
  ring = fresh trace_ring_capacity;
  paused = false;
  scroll_lock = true;
  query = [];
  size = 0;
  generation = 0;
  ui_dropped = 0;
  engine_dropped = pos 0;
  expanded = [];
  first_painted = false;
}

publish : TraceModel → TraceModel
publish m = record m { size = m.ring.size; generation = m.generation + 1 }

-- past the early return of `appendBatch`
absorb : TraceModel → List FrameEvent → TraceModel
unfolding publish apply_rx_batch
absorb m frames =
    let (ring, overflow) = apply_rx_batch m.ring frames false in
    publish (record m {
      ring = ring;
      ui_dropped = if ltb 0 overflow then m.ui_dropped + overflow else m.ui_dropped;
      first_painted = true;
    })

pub append_batch : TraceModel → RxBatch → TraceModel
append_batch m batch =
    let noted = record m { engine_dropped = batch.dropped } in
    if m.paused || length batch.frames == 0 then noted else absorb noted batch.frames

pub clear_trace : TraceModel → TraceModel
unfolding publish
clear_trace m =
    publish (record m { ring = clear m.ring; ui_dropped = 0; expanded = []; first_painted = false })

pub reset_trace : TraceModel → TraceModel
unfolding publish
reset_trace m = publish (record m {
  ring = clear m.ring;
  ui_dropped = 0;
  engine_dropped = pos 0;
  expanded = [];
  first_painted = false;
})

toggle_in : ℕ → List ℕ → List ℕ
toggle_in seq expanded =
    if any (λ s. s == seq) expanded then filter (λ s. not (s == seq)) expanded else seq ∷ expanded

pub data TraceCall : Type 0 where
  batch_arrives : RxBatch → TraceCall
  pauses : Bool → TraceCall
  locks_scroll : Bool → TraceCall
  filters : Text → TraceCall
  toggles : ℕ → TraceCall
  clears resets : TraceCall
  hydrates : Text → Bool → Bool → TraceCall

pub step : TraceModel → TraceCall → TraceModel
unfolding toggle_in
step m (batch_arrives batch) = append_batch m batch
step m (pauses next) = record m { paused = next }
step m (locks_scroll next) = record m { scroll_lock = next }
step m (filters next) = record m { query = next }
step m (toggles seq) = record m { expanded = toggle_in seq m.expanded }
step m clears = clear_trace m
step m resets = reset_trace m
step m (hydrates query paused scroll_lock) = record m {
  query = query;
  paused = paused;
  scroll_lock = scroll_lock;
}

pub run : TraceModel → List TraceCall → TraceModel
run m [] = m
run m (c ∷ cs) = run (step m c) cs
