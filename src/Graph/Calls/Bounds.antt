-- ===== src/Graph/Calls/Bounds.antt =====
-- The caps on series and samples over the methods of `GraphStore` of shared/graphStore.ts.
use vanilla_bus.Prelude.{
  ◌≤◌, List, [], ◌∷◌, ◌++◌, Option, Text, arith, contains, Bool-cases, Option-cases, inl, inr,
}
use vanilla_bus.Prelude.Assoc.{lookup}
use vanilla_bus.Graph.Window.{graph_series_max}
use vanilla_bus.Graph.Store.{
  GraphStore, start, set_paused, set_window_sec, set_hz, set_active_bus, same_bus,
  apply_dbc_catalog, set_selected, toggle_selected, ensure_color, select_keys,
}
use vanilla_bus.Graph.Ingest.{reset, reset_live}
use vanilla_bus.Graph.Ingest.Bounds.{
  IsBounded, trim_all-IsBounded, clear_samples-IsBounded, append_batch-IsBounded,
}
use vanilla_bus.Graph.Calls.{
  GraphCall, pause, window, rate, clear, bus, select, toggle, catalog, batch, start_over,
  disconnect, step, run,
}

no_series : 0 ≤ graph_series_max
no_series = omega arith

pub start-IsBounded : IsBounded start
unfolding start
start-IsBounded = record { few = omega arith; short = tt }

ensure_color-IsBounded :
    (s : GraphStore) (key : Text) → IsBounded s → IsBounded (ensure_color s key).0
unfolding ensure_color
ensure_color-IsBounded s key h = elim (Option-cases (lookup key s.colors)) [
  | inl e ↦ rw (e, ensure_color) (record { few = h.few; short = h.short })
  | inr (color, e) ↦ rw (e, ensure_color) h
]

select_keys-IsBounded :
    (s : GraphStore) (keys seen : List Text) → IsBounded s → IsBounded (select_keys s keys seen)
unfolding select_keys
select_keys-IsBounded s [] seen h = h
select_keys-IsBounded s (key ∷ keys) seen h = elim (Bool-cases (contains key seen)) [
  | inl e ↦ rw e (select_keys-IsBounded s keys seen h)
  | inr e ↦ rw e (
      select_keys-IsBounded (ensure_color (record s { selected = s.selected ++ key ∷ [] }) key).0
        keys (key ∷ seen) (ensure_color-IsBounded _ key (record { few = h.few; short = h.short })))
]

toggle_selected-IsBounded :
    (s : GraphStore) (key : Text) → IsBounded s → IsBounded (toggle_selected s key)
unfolding toggle_selected
toggle_selected-IsBounded s key h = elim (Bool-cases (contains key s.selected)) [
  | inl e ↦ rw e (record { few = h.few; short = h.short })
  | inr e ↦ rw e (ensure_color-IsBounded _ key (record { few = h.few; short = h.short }))
]

set_active_bus-IsBounded :
    (s : GraphStore) (id : Option Text) → IsBounded s → IsBounded (set_active_bus s id)
unfolding set_active_bus
set_active_bus-IsBounded s id h =
    let cleared = clear_samples-IsBounded (record s { active_bus_id = id }) h.few in
    elim (Bool-cases (same_bus s.active_bus_id id)) [
      | inl e ↦ rw e h
      | inr e ↦ rw e (record { few = cleared.few; short = cleared.short })
    ]

-- Each method of the store keeps it within its caps, if it was within them: at most 256 series, and
-- in each of them no more samples than the window and the sample rate of that moment allow.
pub step-IsBounded : (s : GraphStore) (call : GraphCall) → IsBounded s → IsBounded (step s call)
unfolding step set_paused set_window_sec set_hz set_selected apply_dbc_catalog reset reset_live
step-IsBounded s (pause next) h = record { few = h.few; short = h.short }
step-IsBounded s (window sec) h = trim_all-IsBounded _ h.few
step-IsBounded s (rate hz) h = trim_all-IsBounded _ h.few
step-IsBounded s clear h = clear_samples-IsBounded s h.few
step-IsBounded s (bus id) h = set_active_bus-IsBounded s id h
step-IsBounded s (select keys) h =
    select_keys-IsBounded _ keys [] (record { few = h.few; short = h.short })
step-IsBounded s (toggle key) h = toggle_selected-IsBounded s key h
step-IsBounded s (catalog messages) h = record { few = h.few; short = h.short }
step-IsBounded s (batch b) h = append_batch-IsBounded s b h
step-IsBounded s start_over h = record { few = no_series; short = tt }
step-IsBounded s disconnect h = record { few = no_series; short = tt }

run-IsBounded : (s : GraphStore) (calls : List GraphCall) → IsBounded s → IsBounded (run s calls)
unfolding run
run-IsBounded s [] h = h
run-IsBounded s (call ∷ calls) h = run-IsBounded (step s call) calls (step-IsBounded s call h)

-- After any sequence of calls a new store holds at most 256 series, and in each of them no more
-- samples than the window and the sample rate of that moment allow.
pub run-start-IsBounded : (calls : List GraphCall) → IsBounded (run start calls)
run-start-IsBounded calls = run-IsBounded start calls start-IsBounded
