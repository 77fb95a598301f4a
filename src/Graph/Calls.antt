-- ===== src/Graph/Calls.antt =====
-- The calls that reach the `GraphStore` of shared/graphStore.ts, as one step function.
pub mod Bounds
use vanilla_bus.Prelude.{Bool, List, [], ◌∷◌, Option, ℕ, Text}
use vanilla_bus.Prelude.Int.{ℤ}
use vanilla_bus.Engine.Types.{DbcCatalogMessage}
use vanilla_bus.Graph.Store.{
  GraphStore, GraphBatch, set_paused, set_window_sec, set_hz, clear_samples, set_active_bus,
  apply_dbc_catalog, set_selected, toggle_selected,
}
use vanilla_bus.Graph.Ingest.{append_batch, reset, reset_live}

-- a method of the store that the renderer calls
pub data GraphCall : Type 0 where
  pause : Bool → GraphCall
  window : ℕ → GraphCall
  rate : Option ℤ → GraphCall
  clear : GraphCall
  bus : Option Text → GraphCall
  select : List Text → GraphCall
  toggle : Text → GraphCall
  catalog : List DbcCatalogMessage → GraphCall
  batch : GraphBatch → GraphCall
  start_over : GraphCall
  disconnect : GraphCall

pub step : GraphStore → GraphCall → GraphStore
unfolding clear_samples
step s (pause next) = set_paused s next
step s (window sec) = set_window_sec s sec
step s (rate hz) = set_hz s hz
step s clear = clear_samples s
step s (bus id) = set_active_bus s id
step s (select keys) = set_selected s keys
step s (toggle key) = toggle_selected s key
step s (catalog messages) = apply_dbc_catalog s messages
step s (batch b) = append_batch s b
step s start_over = reset s
step s disconnect = reset_live s

pub run : GraphStore → List GraphCall → GraphStore
unfolding step
run s [] = s
run s (call ∷ calls) = run (step s call) calls
