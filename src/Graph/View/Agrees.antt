-- ===== src/Graph/View/Agrees.antt =====
-- electron/renderer/src/graph/useGraphModel.ts: what the view shows is what the store has.
use vanilla_bus.Prelude.{
  ◌≡◌, refl, sym, ◌∙◌, Bool, true, false, List, [], ◌∷◌, Option, none, some, Text, codes,
  if◌then◌else◌,
}
use vanilla_bus.Graph.Store.{
  GraphStore, GraphBatch, start, set_paused, set_window_sec, clear_samples, same_bus,
  set_active_bus, set_selected, toggle_selected,
}
use vanilla_bus.Graph.Ingest.{append_batch, reset_live}
use vanilla_bus.Graph.Ingest.Settings.{append_batch-SameSettings}
use vanilla_bus.Graph.View.Kept.{
  Kept, Kept-then, set_window_sec-Kept, set_selected-Kept, toggle_selected-Kept,
  apply_dbc_catalog-Kept, set_active_bus-paused, demo_store-Kept,
}
use vanilla_bus.Graph.View.{
  GraphView, fresh_view, publish, with_store, note_batch, choose_bus, demo_store, start_demo,
  ViewEvent, batches, ticks, pauses, windows, toggles, chooses, catalogs, clears, resets,
  starts_demo, stops_demo, hydrates, step, run,
}

-- What the view shows is what the store has; the demo is shown exactly while its timer runs.
pub record Agrees (v : GraphView) : Type 0 where
  pub paused_ref : v.paused_ref ≡ v.store.paused
  pub paused : v.paused ≡ v.store.paused
  pub window : v.window_sec ≡ v.store.window_sec
  pub selected : v.selected ≡ v.store.selected
  pub bus : v.active_bus_id ≡ v.store.active_bus_id
  pub demo : v.demo_running ≡ v.demo_timer

-- a step that shows the store anew
shown :
    (v : GraphView) (store : GraphStore)
    → Agrees v
    → Kept v.store store
    → Agrees (publish (with_store store v))
shown v store a (paused, bus) = record {
  paused_ref = a.paused_ref ∙ sym paused;
  paused = refl;
  window = refl;
  selected = refl;
  bus = a.bus ∙ sym bus;
  demo = a.demo;
}

note_batch-Agrees : (v : GraphView) (batch : GraphBatch) → Agrees v → Agrees (note_batch batch v)
unfolding note_batch
note_batch-Agrees v batch a = split v.paused_ref
  where
    split :
        (b : Bool)
        → Agrees (
            if b
            then with_store (append_batch v.store batch) v
            else publish (with_store (append_batch v.store batch) v))
    split true =
        let k = append_batch-SameSettings v.store batch in
        record {
          paused_ref = a.paused_ref ∙ sym k.paused;
          paused = a.paused ∙ sym k.paused;
          window = a.window ∙ sym k.window;
          selected = a.selected ∙ sym k.selected;
          bus = a.bus ∙ sym k.bus;
          demo = a.demo;
        }
    split false =
        let k = append_batch-SameSettings v.store batch in
        shown v (append_batch v.store batch) a (k.paused, k.bus)

-- a step that shows the store anew, with the bus that it sets
shown_bus :
    (v : GraphView) (store : GraphStore) (bus : Option Text) (demo : Bool)
    → Agrees v
    → store.paused ≡ v.store.paused
    → bus ≡ store.active_bus_id
    → Agrees (
        publish
          (record v { store = store; active_bus_id = bus; demo_timer = demo; demo_running = demo }))
shown_bus v store bus demo a paused same_one = record {
  paused_ref = a.paused_ref ∙ sym paused;
  paused = refl;
  window = refl;
  selected = refl;
  bus = same_one;
  demo = refl;
}

choose_bus-Agrees : (v : GraphView) (bus : Option Text) → Agrees v → Agrees (choose_bus bus v)
unfolding choose_bus
choose_bus-Agrees v bus a = split (same_bus v.store.active_bus_id bus)
  where
    split :
        (b : Bool)
        → Agrees (
            if b
            then v
            else publish (record v {
              store = set_active_bus v.store bus;
              active_bus_id = (set_active_bus v.store bus).active_bus_id;
            }))
    split true = a
    split false = record {
      paused_ref = a.paused_ref ∙ sym (set_active_bus-paused v.store bus);
      paused = refl;
      window = refl;
      selected = refl;
      bus = refl;
      demo = a.demo;
    }

start_demo-Agrees : (v : GraphView) → Agrees v → Agrees (start_demo v)
unfolding start_demo
start_demo-Agrees v a = split v.demo_timer
  where
    split :
        (b : Bool)
        → Agrees (
            if b
            then v
            else publish (record v {
              store = demo_store v.store;
              active_bus_id = some (codes "demo");
              demo_timer = true;
              demo_running = true;
            }))
    split true = a
    split false =
        let (paused, bus) = demo_store-Kept v.store in
        shown_bus v (demo_store v.store) (some (codes "demo")) true a paused (sym bus)

step-Agrees : (v : GraphView) (event : ViewEvent) → Agrees v → Agrees (step v event)
unfolding step clear_samples reset_live set_paused
step-Agrees v (batches batch) a = note_batch-Agrees v batch a
step-Agrees v (ticks batch) a = split v.demo_timer
  where
    split : (b : Bool) → Agrees (if b then note_batch batch v else v)
    split true = note_batch-Agrees v batch a
    split false = a
step-Agrees v (pauses next) a = record {
  paused_ref = refl;
  paused = refl;
  window = refl;
  selected = refl;
  bus = a.bus;
  demo = a.demo;
}
step-Agrees v (windows sec) a =
    shown v (set_window_sec v.store sec) a (set_window_sec-Kept v.store sec)
step-Agrees v (toggles key) a =
    shown v (toggle_selected v.store key) a (toggle_selected-Kept v.store key)
step-Agrees v (chooses bus) a = choose_bus-Agrees v bus a
step-Agrees v (catalogs messages) a = shown v _ a (apply_dbc_catalog-Kept v.store messages)
step-Agrees v clears a = shown v (clear_samples v.store) a (refl, refl)
step-Agrees v resets a = shown_bus v (reset_live v.store) none false a refl refl
step-Agrees v starts_demo a = start_demo-Agrees v a
step-Agrees v stops_demo a = record {
  paused_ref = a.paused_ref;
  paused = a.paused;
  window = a.window;
  selected = a.selected;
  bus = a.bus;
  demo = refl;
}
step-Agrees v (hydrates prefs) a =
    let sized = set_window_sec v.store prefs.window_sec in
    shown v (set_selected sized prefs.selected) a (
      Kept-then v.store sized (set_selected sized prefs.selected)
        (set_window_sec-Kept v.store prefs.window_sec) (set_selected-Kept sized prefs.selected))

run-Agrees_from : (v : GraphView) (events : List ViewEvent) → Agrees v → Agrees (run v events)
unfolding run
run-Agrees_from v [] a = a
run-Agrees_from v (event ∷ events) a = run-Agrees_from (step v event) events (step-Agrees v event a)

-- Whatever the user and the engine do, in whatever order: the pause, the window, the selection and
-- the bus that the Graph view shows are those of its store, also after batches that it does not show
-- while it is paused, and the demo is shown as running exactly while its timer is set.
pub run-Agrees : (events : List ViewEvent) → Agrees (run fresh_view events)
unfolding start
run-Agrees events = run-Agrees_from fresh_view events (record {
  paused_ref = refl;
  paused = refl;
  window = refl;
  selected = refl;
  bus = refl;
  demo = refl;
})
