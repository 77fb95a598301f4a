-- ===== src/Graph/Window.antt =====
-- shared/graphWindow.ts: the time windows and the rates of the Graph view.
use vanilla_bus.Prelude.{
  ℕ, ◌+◌, ◌*◌, ◌/◌, ◌≤◌, Bool, ◌||◌, Option, none, some, min, max, arith, ◌==◌,
}
use vanilla_bus.Prelude.Int.{ℤ, pos, negsuc, sub_ℕ}

abbrev pub graph_default_window_sec : ℕ
graph_default_window_sec = 30

abbrev pub graph_min_hz : ℕ
graph_min_hz = 10

abbrev pub graph_max_hz : ℕ
graph_max_hz = 30

abbrev pub graph_default_hz : ℕ
graph_default_hz = 20

abbrev pub graph_series_max : ℕ
graph_series_max = 256

abbrev pub graph_catalog_max : ℕ
graph_catalog_max = 512

unfoldable pub is_graph_window_sec : ℕ → Bool
is_graph_window_sec n = n == 10 || n == 30 || n == 60

-- A rate is `none` where it is not finite; fractional rates are left out.
unfoldable pub clamp_graph_hz : Option ℤ → ℕ
clamp_graph_hz none = graph_default_hz
clamp_graph_hz (some (pos hz)) = min graph_max_hz (max graph_min_hz hz)
clamp_graph_hz (some (negsuc n)) = graph_min_hz

-- `Math.round(total / hz)`
abbrev round_div : ℕ → ℕ → ℕ
round_div total hz = (2 * total + hz) / (2 * hz)

unfoldable pub graph_sample_interval_us : ℕ → ℕ
unfolding clamp_graph_hz
graph_sample_interval_us hz = round_div 1000000 (clamp_graph_hz (some (pos hz)))

unfoldable pub graph_redraw_interval_ms : ℕ → ℕ
unfolding clamp_graph_hz
graph_redraw_interval_ms hz = round_div 1000 (clamp_graph_hz (some (pos hz)))

abbrev pub window_start_us : ℕ → ℕ → ℤ
window_start_us now_us window_sec = sub_ℕ now_us (window_sec * 1000000)

unfoldable pub max_samples_for_window : ℕ → ℕ → ℕ
unfolding clamp_graph_hz
max_samples_for_window window_sec hz = window_sec * clamp_graph_hz (some (pos hz)) + 2

-- Whatever rate is asked for, the rate that `clampGraphHz` returns lies between 10 and 30 Hz.
pub clamp_graph_hz_bounds :
    (hz : Option ℤ) → (graph_min_hz ≤ clamp_graph_hz hz) × (clamp_graph_hz hz ≤ graph_max_hz)
unfolding clamp_graph_hz
clamp_graph_hz_bounds none = omega arith
clamp_graph_hz_bounds (some (pos hz)) = omega arith
clamp_graph_hz_bounds (some (negsuc n)) = omega arith
