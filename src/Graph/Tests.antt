-- ===== src/Graph/Tests.antt =====
-- Runs of the Graph store on one series.
use vanilla_bus.Prelude.{
  List, true, ℕ, ◌≡◌, ◌≤◌, refl, false, [], ◌∷◌, none, some, arith, codes, inr, length,
}
use vanilla_bus.Prelude.Int.{pos}
use vanilla_bus.Engine.Value.{integral}
use vanilla_bus.Engine.Types.{num}
use vanilla_bus.Graph.Window.{
  graph_sample_interval_us, window_start_us, max_samples_for_window, is_graph_window_sec,
}
use vanilla_bus.Graph.Decimate.{Sample, decimate_points}
use vanilla_bus.Graph.Decimate.Groups.{
  Group, ungrouped, AreApart, latest_of, decimate_points-AreApart,
}
use vanilla_bus.Graph.Buffer.{SeriesBuffer, append, trim}
use vanilla_bus.Graph.Buffer.Bins.{IsBinned, append-IsBinned, trim-IsBinned}
use vanilla_bus.Graph.Buffer.Capacity.{trim-cap}
use vanilla_bus.Graph.Store.{GraphStore, GraphBatch, start}
use vanilla_bus.Graph.Ingest.{append_batch}
use vanilla_bus.Graph.Ingest.Selected.{IsPlotted, append_batch-IsPlotted}
use vanilla_bus.Prelude.Strings.{same}
use vanilla_bus.Graph.Ingest.Bounds.{IsBounded, length-append_batch}
use vanilla_bus.Graph.View
use vanilla_bus.Graph.View.{ViewEvent, batches, pauses, chooses, starts_demo, fresh_view}
use vanilla_bus.Graph.View.Agrees.{Agrees, run-Agrees}
use vanilla_bus.Graph.Calls.{batch, rate, run}
use vanilla_bus.Graph.Calls.Bounds.{run-start-IsBounded, start-IsBounded}

-- three points, of which the first two share 50 ms
abbrev raw_points : List (Sample ℕ)
raw_points =
    record { ts_us = 10; value = 1 }
    ∷ record { ts_us = 20000; value = 2 }
    ∷ record { ts_us = 60000; value = 3 }
    ∷ []

decimate_points-AreApart_example :
    (groups : List (Group ℕ)) × (ungrouped groups ≡ raw_points)
    × AreApart 50000 0 groups
    × (decimate_points raw_points 50000 ≡ latest_of groups)
decimate_points-AreApart_example = decimate_points-AreApart raw_points 50000

-- two bins of 50 ms
abbrev two_bins : SeriesBuffer ℕ
two_bins = record {
  samples = record { ts_us = 10; value = 1 } ∷ record { ts_us = 60000; value = 2 } ∷ [];
  bin_start_us = some 50010;
}

two_bins-IsBinned : IsBinned 50000 two_bins
two_bins-IsBinned = inr (
  10,
  50010,
  refl,
  (omega arith, omega arith, (50010, omega arith, (refl, omega arith, omega arith))),
)

append-IsBinned_example : IsBinned 50000 (append two_bins 70000 3 50000)
append-IsBinned_example = append-IsBinned 50000 two_bins 70000 3 (omega arith) two_bins-IsBinned

trim-IsBinned_example : IsBinned 50000 (trim two_bins (pos 20000) (some 7))
trim-IsBinned_example = trim-IsBinned 50000 two_bins (pos 20000) (some 7) two_bins-IsBinned

trim-cap_example :
    trim two_bins (window_start_us 70000 10) (some (max_samples_for_window 10 20))
    ≡ trim two_bins (window_start_us 70000 10) none
unfolding is_graph_window_sec graph_sample_interval_us
trim-cap_example =
    trim-cap 10 20 70000 two_bins refl (omega arith) (omega arith) two_bins-IsBinned
      (omega arith, (omega arith, tt))

abbrev burst : GraphBatch
burst = record {
  frames =
      record {
        bus_id = codes "bus";
        ts_us = 70000;
        can_id = 257;
        is_err = false;
        decode = some (record {
          name = codes "ENGINE";
          signals = (codes "speed", num (integral (pos 90))) ∷ [];
          units = [];
        });
      }
      ∷ [];
  dropped = pos 0;
}

length-append_batch_example : length (append_batch start burst).catalog ≤ 512
unfolding start
length-append_batch_example = length-append_batch start burst start-IsBounded

run-start-IsBounded_example : IsBounded (run start (rate (some (pos 30)) ∷ batch burst ∷ []))
run-start-IsBounded_example = run-start-IsBounded (rate (some (pos 30)) ∷ batch burst ∷ [])

abbrev watching : GraphStore
watching = record start {
  selected = codes "a.b" ∷ [];
  series = (codes "a.b", record { samples = []; bin_start_us = none }) ∷ [];
}

watching-IsPlotted : IsPlotted (codes "a.b") watching
unfolding IsPlotted same
watching-IsPlotted = (refl, refl)

append_batch-IsPlotted_example : IsPlotted (codes "a.b") (append_batch watching burst)
append_batch-IsPlotted_example =
    append_batch-IsPlotted watching burst (codes "a.b") watching-IsPlotted

-- a batch while the view is paused, a change of bus and the demo
abbrev view_events : List ViewEvent
view_events = batches burst ∷ pauses true ∷ batches burst ∷ chooses none ∷ starts_demo ∷ []

run-Agrees_example : Agrees (View.run fresh_view view_events)
run-Agrees_example = run-Agrees view_events
