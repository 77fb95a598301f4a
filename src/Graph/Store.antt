-- ===== src/Graph/Store.antt =====
-- `GraphStore` of shared/graphStore.ts: its state, and the methods that set it up. Time stamps are whole microseconds, as the engine sends them.
use vanilla_bus.Prelude.{
  ℕ, ◌+◌, Bool, true, false, ◌||◌, List, [], ◌∷◌, ◌++◌, Option, none, some, Text, contains,
  if◌then◌else◌,
}
use vanilla_bus.Prelude.Int.{ℤ, pos}
use vanilla_bus.Prelude.Strings.{same}
use vanilla_bus.Prelude.Assoc.{lookup, insert, has}
use vanilla_bus.Engine.Value.{Number}
use vanilla_bus.Engine.Types.{FrameDecode, DbcCatalogMessage}
use vanilla_bus.Graph.Window.{
  graph_default_window_sec, graph_default_hz, clamp_graph_hz, max_samples_for_window,
  window_start_us,
}
use vanilla_bus.Graph.Buffer.{SeriesBuffer, trim, clear}
use vanilla_bus.Graph.Catalog.{
  GraphCatalogEntry, catalog_entries_from_dbc, merge_catalog_entry, graph_series_color,
}

-- the fields of `FrameEvent` that the store reads
pub record GraphFrame : Type 0 where
  pub bus_id : Text
  pub ts_us : ℕ
  pub can_id : ℕ
  pub is_err : Bool
  pub decode : Option FrameDecode

pub record GraphBatch : Type 0 where
  pub frames : List GraphFrame
  pub dropped : ℤ

abbrev pub Series : Type 0
Series = List (Text × SeriesBuffer Number)

abbrev pub Catalog : Type 0
Catalog = List (Text × GraphCatalogEntry)

pub record GraphStore : Type 0 where
  pub window_sec : ℕ
  pub hz : ℕ
  pub paused : Bool
  pub engine_dropped : ℤ
  pub message_count : ℕ
  pub error_count : ℕ
  pub updated_us : Option ℕ
  pub active_bus_id : Option Text
  pub recent_ts : List ℕ
  pub series : Series
  pub catalog : Catalog
  pub selected : List Text
  pub colors : List (Text × Text)
  pub color_index : ℕ
  pub now_us : ℕ
  pub paused_now_us : Option ℕ

unfoldable pub start : GraphStore
start = record {
  window_sec = graph_default_window_sec;
  hz = graph_default_hz;
  paused = false;
  engine_dropped = pos 0;
  message_count = 0;
  error_count = 0;
  updated_us = none;
  active_bus_id = none;
  recent_ts = [];
  series = [];
  catalog = [];
  selected = [];
  colors = [];
  color_index = 0;
  now_us = 0;
  paused_now_us = none;
}

pub plot_now_of : Bool → Option ℕ → ℕ → ℕ
plot_now_of true (some paused_now_us) now_us = paused_now_us
plot_now_of true none now_us = now_us
plot_now_of false paused_now_us now_us = now_us

unfoldable pub plot_now_us : GraphStore → ℕ
unfolding plot_now_of
plot_now_us s = plot_now_of s.paused s.paused_now_us s.now_us

abbrev pub capacity_bound : GraphStore → ℕ
capacity_bound s = max_samples_for_window s.window_sec s.hz

-- a method on every buffer
abbrev pub each_buffer : (SeriesBuffer Number → SeriesBuffer Number) → Series → Series
each_buffer f [] = []
each_buffer f ((k, b) ∷ m) = (k, f b) ∷ each_buffer f m

unfoldable pub trim_all : GraphStore → GraphStore
unfolding plot_now_us
trim_all s = record s {
  series =
      each_buffer
        (λ b. trim b (window_start_us (plot_now_us s) s.window_sec) (some (capacity_bound s)))
        s.series;
}

-- `this.paused = next` comes first, so pausing twice keeps the first clock.
unfoldable pub set_paused : GraphStore → Bool → GraphStore
unfolding plot_now_us
set_paused s next =
    let noted = record s { paused = next } in
    record noted { paused_now_us = if next then some (plot_now_us noted) else none }

unfoldable pub set_window_sec : GraphStore → ℕ → GraphStore
unfolding trim_all
set_window_sec s next = trim_all (record s { window_sec = next })

unfoldable pub set_hz : GraphStore → Option ℤ → GraphStore
unfolding trim_all
set_hz s next = trim_all (record s { hz = clamp_graph_hz next })

unfoldable pub clear_samples : GraphStore → GraphStore
clear_samples s = record s {
  series = each_buffer clear s.series;
  message_count = 0;
  error_count = 0;
  updated_us = none;
  recent_ts = [];
}

abbrev pub same_bus : Option Text → Option Text → Bool
same_bus none none = true
same_bus (some a) (some b) = same a b
same_bus _ _ = false

unfoldable pub set_active_bus : GraphStore → Option Text → GraphStore
unfolding clear_samples
set_active_bus s bus_id =
    if same_bus s.active_bus_id bus_id
    then s
    else record (clear_samples (record s { active_bus_id = bus_id })) {
      catalog = [];
      selected = [];
    }

-- the two loops of `applyDbcCatalog`
pub merge_incoming : Catalog → List GraphCatalogEntry → Catalog → Catalog
merge_incoming old [] next = next
merge_incoming old (entry ∷ entries) next =
    merge_incoming old entries
      (insert entry.key (merge_catalog_entry (lookup entry.key old) entry) next)

pub keep_known : List Text → Catalog → Catalog → Catalog
keep_known selected [] next = next
keep_known selected ((key, entry) ∷ old) next = keep_known selected old (
    if has key next
    then next
    else if entry.seen || contains key selected
    then insert key entry next
    else next)

unfoldable pub apply_dbc_catalog : GraphStore → List DbcCatalogMessage → GraphStore
unfolding merge_incoming keep_known
apply_dbc_catalog s messages = record s {
  catalog =
      keep_known s.selected s.catalog
        (merge_incoming s.catalog (catalog_entries_from_dbc messages) []);
}

-- The store with the colour in place, and the colour. (No colour is the empty string.)
unfoldable pub ensure_color : GraphStore → Text → GraphStore × Text
ensure_color s key = elim (lookup key s.colors) [
  | some color ↦ (s, color)
  | none ↦
      let color = graph_series_color s.color_index in
      (record s { color_index = s.color_index + 1; colors = insert key color s.colors }, color)
]

-- the loop of `setSelected`; `seen` holds the keys that are selected so far
unfoldable pub select_keys : GraphStore → List Text → List Text → GraphStore
unfolding ensure_color
select_keys s [] seen = s
select_keys s (key ∷ keys) seen =
    let skip = select_keys s keys seen in
    let take_in =
      select_keys (ensure_color (record s { selected = s.selected ++ key ∷ [] }) key).0 keys
        (key ∷ seen) in
    if contains key seen then skip else take_in

unfoldable pub set_selected : GraphStore → List Text → GraphStore
unfolding select_keys
set_selected s keys = select_keys (record s { selected = [] }) keys []

-- `splice` at the first place of the key
abbrev pub without : Text → List Text → List Text
without key [] = []
without key (k ∷ ks) = elim (same k key) [ true ↦ ks | false ↦ k ∷ without key ks ]

unfoldable pub toggle_selected : GraphStore → Text → GraphStore
unfolding ensure_color
toggle_selected s key =
    if contains key s.selected
    then record s { selected = without key s.selected }
    else (ensure_color (record s { selected = s.selected ++ key ∷ [] }) key).0
