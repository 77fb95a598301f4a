-- ===== src/Graph/View.antt =====
-- electron/renderer/src/graph/useGraphModel.ts: the React state and refs of the Graph view as one
-- record around the store, a callback as a step.
pub mod Kept
pub mod Agrees
use vanilla_bus.Prelude.{
  ℕ, ◌+◌, Bool, true, false, List, [], ◌∷◌, Option, none, some, Text, codes, length, ◌==◌,
  if◌then◌else◌,
}
use vanilla_bus.Engine.Types.{DbcCatalogMessage, DbcCatalogSignal}
use vanilla_bus.Persist.{PersistedGraphPrefs}
use vanilla_bus.Graph.Store.{
  GraphStore, GraphBatch, start, set_paused, set_window_sec, clear_samples, same_bus,
  set_active_bus, apply_dbc_catalog, set_selected, toggle_selected,
}
use vanilla_bus.Graph.Ingest.{append_batch, reset_live}

-- `demo_timer` says whether the timer of the demo is set; the phase of the demo is left out.
pub record GraphView : Type 0 where
  pub store : GraphStore
  pub paused_ref : Bool
  pub demo_timer : Bool
  pub generation : ℕ
  pub paused : Bool
  pub window_sec : ℕ
  pub selected : List Text
  pub demo_running : Bool
  pub active_bus_id : Option Text

abbrev pub fresh_view : GraphView
fresh_view = record {
  store = start;
  paused_ref = false;
  demo_timer = false;
  generation = 0;
  paused = false;
  window_sec = start.window_sec;
  selected = [];
  demo_running = false;
  active_bus_id = none;
}

abbrev pub publish : GraphView → GraphView
publish v = record v {
  generation = v.generation + 1;
  selected = v.store.selected;
  window_sec = v.store.window_sec;
  paused = v.store.paused;
}

abbrev pub with_store : GraphStore → GraphView → GraphView
with_store store v = record v { store = store }

unfoldable pub note_batch : GraphBatch → GraphView → GraphView
note_batch batch v =
    let next = with_store (append_batch v.store batch) v in
    if v.paused_ref then next else publish next

unfoldable pub choose_bus : Option Text → GraphView → GraphView
choose_bus bus_id v =
    if same_bus v.store.active_bus_id bus_id
    then v
    else let store = set_active_bus v.store bus_id in
      publish (record v { store = store; active_bus_id = store.active_bus_id })

abbrev pub stop_demo : GraphView → GraphView
stop_demo v = record v { demo_timer = false; demo_running = false }

abbrev pub reset_view : GraphView → GraphView
reset_view v = publish (record (stop_demo v) { store = reset_live v.store; active_bus_id = none })

abbrev pub hydrate_prefs : PersistedGraphPrefs → GraphView → GraphView
hydrate_prefs prefs v =
    publish (with_store (set_selected (set_window_sec v.store prefs.window_sec) prefs.selected) v)

abbrev pub demo_signal : Text → Text → DbcCatalogSignal
demo_signal name unit = record { name = name; unit = unit; min = none; max = none; initial = none }

abbrev pub demo_catalog : List DbcCatalogMessage
demo_catalog =
    record {
      name = codes "EngineStatus";
      can_id = 256;
      signals =
          demo_signal (codes "EngineSpeed") (codes "rpm")
          ∷ demo_signal (codes "EngineTemp") (codes "degC")
          ∷ demo_signal (codes "OilPressure") (codes "kPa")
          ∷ [];
    }
    ∷ record {
      name = codes "VehicleSpeed";
      can_id = 257;
      signals = demo_signal (codes "Speed") (codes "km/h") ∷ [];
    }
    ∷ []

abbrev pub demo_selected : List Text
demo_selected =
    codes "EngineStatus.EngineSpeed"
    ∷ codes "EngineStatus.EngineTemp"
    ∷ codes "VehicleSpeed.Speed"
    ∷ []

-- the store of a demo that begins
unfoldable pub demo_store : GraphStore → GraphStore
demo_store s =
    let known = apply_dbc_catalog (set_active_bus s (some (codes "demo"))) demo_catalog in
    if length known.selected == 0 then set_selected known demo_selected else known

unfoldable pub start_demo : GraphView → GraphView
start_demo v =
    if v.demo_timer
    then v
    else publish (record v {
      store = demo_store v.store;
      active_bus_id = some (codes "demo");
      demo_timer = true;
      demo_running = true;
    })

-- a callback of the view, or the timer of the demo with the batch that it builds
pub data ViewEvent : Type 0 where
  batches ticks : GraphBatch → ViewEvent
  pauses : Bool → ViewEvent
  windows : ℕ → ViewEvent
  toggles : Text → ViewEvent
  chooses : Option Text → ViewEvent
  catalogs : List DbcCatalogMessage → ViewEvent
  clears resets starts_demo stops_demo : ViewEvent
  hydrates : PersistedGraphPrefs → ViewEvent

unfoldable pub step : GraphView → ViewEvent → GraphView
step v (batches batch) = note_batch batch v
step v (ticks batch) = if v.demo_timer then note_batch batch v else v
step v (pauses next) = publish (record v { paused_ref = next; store = set_paused v.store next })
step v (windows sec) = publish (with_store (set_window_sec v.store sec) v)
step v (toggles key) = publish (with_store (toggle_selected v.store key) v)
step v (chooses bus_id) = choose_bus bus_id v
step v (catalogs messages) = publish (with_store (apply_dbc_catalog v.store messages) v)
step v clears = publish (with_store (clear_samples v.store) v)
step v resets = reset_view v
step v starts_demo = start_demo v
step v stops_demo = stop_demo v
step v (hydrates prefs) = hydrate_prefs prefs v

unfoldable pub run : GraphView → List ViewEvent → GraphView
run v [] = v
run v (event ∷ events) = run (step v event) events
