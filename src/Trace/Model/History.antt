-- ===== src/Trace/Model/History.antt =====
-- useTraceModel.ts: the Trace view against the frames that it took in.
use vanilla_bus.Prelude.{
  ℕ, ◌+◌, ◌-◌, ◌≡◌, refl, sym, ap, ◌∙◌, Bool, true, false, ◌||◌, List, [], ◌∷◌, ◌++◌, arith, length,
  length-append, length-last, length_zero, append-nil, last, Bool-cases, inl, inr, ◌==◌,
  if◌then◌else◌,
}
use mathlib.Core.Path.{subst}
use vanilla_bus.Engine.Types.{FrameEvent, RxBatch}
use vanilla_bus.Trace.Ring.{append, trace_ring_capacity}
use vanilla_bus.Trace.Ring.Refine.{numbered, length-numbered}
use vanilla_bus.Trace.Ring.History.{
  Holds, append-Holds, clear-Holds, size-Holds, fresh-Holds, capacity-clear, next_seq-clear,
  fresh_counters, append-Holds_numbered,
}
use vanilla_bus.Trace.Model.{
  TraceModel, start, absorb, append_batch, apply_rx_batch, clear_trace, reset_trace, TraceCall,
  batch_arrives, pauses, locks_scroll, filters, toggles, clears, resets, hydrates, step, run,
}

-- whether the view is paused, and the frames that it took in since it was last cleared
abbrev pub tally : Bool × List FrameEvent → TraceCall → Bool × List FrameEvent
tally (paused, seen) (batch_arrives batch) = (paused, if paused then seen else seen ++ batch.frames)
tally (paused, seen) (pauses next) = (next, seen)
tally (paused, seen) (locks_scroll next) = (paused, seen)
tally (paused, seen) (filters next) = (paused, seen)
tally (paused, seen) (toggles seq) = (paused, seen)
tally (paused, seen) clears = (paused, [])
tally (paused, seen) resets = (paused, [])
tally (paused, seen) (hydrates query next scroll_lock) = (next, seen)

unfoldable pub tally_all : Bool × List FrameEvent → List TraceCall → Bool × List FrameEvent
tally_all t [] = t
tally_all t (c ∷ cs) = tally_all (tally t c) cs

-- The ring holds the newest of the frames taken in, numbered on from `first`; the view's counters
-- agree with it, and count every other one as dropped.
pub record Accounts (m : TraceModel) (paused : Bool) (seen : List FrameEvent) : Type 0 where
  pub bound : m.ring.capacity ≡ trace_ring_capacity
  pub state : m.paused ≡ paused
  pub first : ℕ
  pub next : m.ring.next_seq ≡ first + length seen
  pub holds : Holds m.ring (last trace_ring_capacity (numbered first seen))
  pub size : m.size ≡ m.ring.size
  pub dropped : m.ui_dropped ≡ length seen - trace_ring_capacity

start-Accounts : Accounts start false []
unfolding start
start-Accounts =
    let (bound, next, size) = fresh_counters FrameEvent trace_ring_capacity in
    record {
      bound = bound;
      state = refl;
      first = 1;
      next = next;
      holds = fresh-Holds trace_ring_capacity (omega arith);
      size = sym size;
      dropped = refl;
    }

absorb-Accounts :
    (m : TraceModel) (seen frames : List FrameEvent)
    → (length frames == 0) ≡ false
    → Accounts m false seen
    → Accounts (absorb m frames) false (seen ++ frames)
unfolding absorb apply_rx_batch
absorb-Accounts m seen frames some_frames a =
    let (_, lost, _, next, same) =
      append-Holds m.ring (last trace_ring_capacity (numbered a.first seen)) frames a.holds in
    let applied : apply_rx_batch m.ring frames false ≡ append m.ring frames =
      rw (some_frames, apply_rx_batch) in
    let counted = ap (λ p. p.1) applied in
    let newest =
      append-Holds_numbered m.ring trace_ring_capacity a.first seen frames a.bound a.next a.holds in
    record {
      bound = ap (λ p. p.0.capacity) applied ∙ same ∙ a.bound;
      state = a.state;
      first = a.first;
      next =
          ap (λ p. p.0.next_seq) applied ∙ next ∙ omega (arith, a.next, length-append seen frames);
      holds =
          subst (λ p. Holds p.0 (last trace_ring_capacity (numbered a.first (seen ++ frames))))
            (sym applied) newest;
      size = refl;
      dropped = ground (
        arith,
        counted,
        lost,
        a.dropped,
        a.bound,
        length-append seen frames,
        length-last trace_ring_capacity (numbered a.first seen),
        length-numbered a.first seen,
      );
    }

cleared-Accounts :
    (m : TraceModel) (paused : Bool) (seen : List FrameEvent)
    → Accounts m paused seen
    → Accounts (clear_trace m) paused [] × Accounts (reset_trace m) paused []
unfolding clear_trace reset_trace
cleared-Accounts m paused seen a =
    let empty = clear-Holds m.ring _ a.holds in
    (
      record {
        bound = capacity-clear m.ring ∙ a.bound;
        state = a.state;
        first = m.ring.next_seq;
        next = next_seq-clear m.ring ∙ omega arith;
        holds = empty;
        size = refl;
        dropped = refl;
      },
      record {
        bound = capacity-clear m.ring ∙ a.bound;
        state = a.state;
        first = m.ring.next_seq;
        next = next_seq-clear m.ring ∙ omega arith;
        holds = empty;
        size = refl;
        dropped = refl;
      },
    )

-- A call that leaves the ring and its counters alone.
carried-Accounts :
    (m m' : TraceModel) (paused next : Bool) (seen : List FrameEvent)
    → m'.ring ≡ m.ring
    → m'.size ≡ m.size
    → m'.ui_dropped ≡ m.ui_dropped
    → m'.paused ≡ next
    → Accounts m paused seen
    → Accounts m' next seen
carried-Accounts m m' paused next seen r s d p a = record {
  bound = ap (λ q. q.capacity) r ∙ a.bound;
  state = p;
  first = a.first;
  next = ap (λ q. q.next_seq) r ∙ a.next;
  holds = subst (λ q. Holds q (last trace_ring_capacity (numbered a.first seen))) (sym r) a.holds;
  size = s ∙ a.size ∙ sym (ap (λ q. q.size) r);
  dropped = d ∙ a.dropped;
}

append_batch_held :
    (m : TraceModel) (batch : RxBatch)
    → (m.paused || length batch.frames == 0) ≡ true
    → append_batch m batch ≡ record m { engine_dropped = batch.dropped }
unfolding append_batch
append_batch_held m batch h = rw (h, append_batch)

append_batch_taken :
    (m : TraceModel) (batch : RxBatch)
    → (m.paused || length batch.frames == 0) ≡ false
    → append_batch m batch ≡ absorb (record m { engine_dropped = batch.dropped }) batch.frames
unfolding append_batch
append_batch_taken m batch h = rw (h, append_batch)

append_batch-Accounts :
    (m : TraceModel) (paused : Bool) (seen : List FrameEvent) (batch : RxBatch)
    → Accounts m paused seen
    → Accounts (append_batch m batch) paused (if paused then seen else seen ++ batch.frames)
append_batch-Accounts m true seen batch a =
    subst (λ q. Accounts q true seen) (sym (append_batch_held m batch (ground (arith, a.state))))
      (carried-Accounts m (record m { engine_dropped = batch.dropped }) true true seen refl refl
        refl a.state a)
append_batch-Accounts m false seen batch a =
    let noted =
      carried-Accounts m (record m { engine_dropped = batch.dropped }) false false seen refl refl
        refl a.state a in
    elim (Bool-cases (length batch.frames == 0)) [
      | inl none_came ↦
          let nothing : batch.frames ≡ [] = length_zero batch.frames (ground arith) in
          subst (λ xs. Accounts (append_batch m batch) false (seen ++ xs)) (sym nothing)
            (rw append-nil (
              subst (λ q. Accounts q false seen)
                (sym (append_batch_held m batch (ground (arith, a.state)))) noted))
      | inr some_came ↦
          subst (λ q. Accounts q false (seen ++ batch.frames))
            (sym (append_batch_taken m batch (ground (arith, a.state))))
            (absorb-Accounts (record m { engine_dropped = batch.dropped }) seen batch.frames
              some_came noted)
    ]

step-Accounts :
    (m : TraceModel) (t : Bool × List FrameEvent) (c : TraceCall)
    → Accounts m t.0 t.1
    → Accounts (step m c) (tally t c).0 (tally t c).1
unfolding step
step-Accounts m (p, seen) (batch_arrives batch) a = append_batch-Accounts m p seen batch a
step-Accounts m (p, seen) (pauses next) a =
    carried-Accounts m (record m { paused = next }) p next seen refl refl refl refl a
step-Accounts m (p, seen) clears a = (cleared-Accounts m p seen a).0
step-Accounts m (p, seen) resets a = (cleared-Accounts m p seen a).1
step-Accounts m (p, seen) (hydrates query next scroll_lock) a =
    carried-Accounts m (record m { query = query; paused = next; scroll_lock = scroll_lock }) p next
      seen refl refl refl refl a
step-Accounts m (p, seen) c a = carried-Accounts m (step m c) p p seen refl refl refl a.state a

run-Accounts :
    (m : TraceModel) (t : Bool × List FrameEvent) (cs : List TraceCall)
    → Accounts m t.0 t.1
    → Accounts (run m cs) (tally_all t cs).0 (tally_all t cs).1
unfolding run tally_all
run-Accounts m t [] a = a
run-Accounts m t (c ∷ cs) a = run-Accounts (step m c) (tally t c) cs (step-Accounts m t c a)

-- After any sequence of calls the view holds the newest 20,000 of the frames that it took in while not paused
-- since it was last cleared, numbered without a gap, and its counters `size` and `uiDropped` say
-- how many it holds and how many it lost.
pub run-start-Accounts :
    (cs : List TraceCall)
    → let (paused, seen) = tally_all (false, []) cs in
      Accounts (run start cs) paused seen
      × ((run start cs).size + (run start cs).ui_dropped ≡ length seen)
run-start-Accounts cs =
    let a = run-Accounts start (false, []) cs start-Accounts in
    let seen = (tally_all (false, []) cs).1 in
    (
      a,
      omega (
        arith,
        a.size,
        a.dropped,
        size-Holds (run start cs).ring _ a.holds,
        length-last trace_ring_capacity (numbered a.first seen),
        length-numbered a.first seen,
      ),
    )
