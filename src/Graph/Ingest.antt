-- ===== src/Graph/Ingest.antt =====
-- `GraphStore.appendBatch` of shared/graphStore.ts with all that it calls, and the resets.
pub mod Bounds
pub mod Selected
pub mod Settings
use vanilla_bus.Prelude.{
  ℕ, ◌+◌, Bool, true, false, not, ◌&&◌, ◌||◌, List, [], ◌∷◌, ◌++◌, reverse, Option, none, some,
  Text, max, length, contains, leb, ◌==◌, if◌then◌else◌,
}
use vanilla_bus.Prelude.Int.{ℤ, pos, sub_ℕ, ltb_ℤ}
use vanilla_bus.Prelude.Strings.{same}
use vanilla_bus.Prelude.Assoc.{lookup, insert, remove, has}
use vanilla_bus.Engine.Value.{Number}
use vanilla_bus.Engine.Types.{FrameDecode}
use vanilla_bus.Graph.Window.{
  graph_default_window_sec, graph_default_hz, graph_catalog_max, graph_series_max,
  graph_sample_interval_us,
}
use vanilla_bus.Graph.Buffer.{SeriesBuffer, append}
use vanilla_bus.Graph.Catalog.{
  GraphCatalogEntry, catalog_entries_from_decode, merge_catalog_entry, numeric_decode_signals,
  graph_signal_key,
}
use vanilla_bus.Graph.Store.{
  GraphStore, GraphFrame, GraphBatch, Series, Catalog, trim_all, clear_samples, start,
}

-- the first key that the test picks, in insertion order
abbrev pub find_key {ℓ} : {V : Type ℓ} → (Text → V → Bool) → List (Text × V) → Option Text
find_key p [] = none
find_key p ((k, v) ∷ m) = elim (p k v) [ true ↦ some k | false ↦ find_key p m ]

abbrev pub remove_found {ℓ} : {V : Type ℓ} → Option Text → List (Text × V) → List (Text × V)
remove_found none m = m
remove_found (some key) m = remove key m

unfoldable pub evict_idle_series : List Text → Series → Series
evict_idle_series selected series =
    remove_found (find_key (λ key _. not (contains key selected)) series) series

unfoldable pub evict_idle_catalog : List Text → Catalog → Catalog
evict_idle_catalog selected catalog =
    elim (find_key (λ key entry. not (contains key selected) && not entry.seen) catalog) [
      | some key ↦ remove key catalog
      | none ↦ remove_found (find_key (λ key _. not (contains key selected)) catalog) catalog
    ]

-- a full map gives up an idle entry for a new key
pub make_room_in_catalog : List Text → Text → Catalog → Catalog
unfolding evict_idle_catalog
make_room_in_catalog selected key catalog =
    if not (has key catalog) && leb graph_catalog_max (length catalog)
    then evict_idle_catalog selected catalog
    else catalog

-- one round of the loop over `catalogEntriesFromDecode`
pub note_entry : List Text → Catalog → GraphCatalogEntry → Catalog
unfolding make_room_in_catalog
note_entry selected catalog entry =
    let roomy = make_room_in_catalog selected entry.key catalog in
    if not (has entry.key roomy) && leb graph_catalog_max (length roomy)
    then roomy
    else insert entry.key (merge_catalog_entry (lookup entry.key roomy) entry) roomy

pub note_entries : List Text → Catalog → List GraphCatalogEntry → Catalog
note_entries selected catalog [] = catalog
note_entries selected catalog (entry ∷ entries) =
    note_entries selected (note_entry selected catalog entry) entries

-- one round of the loop over `numericDecodeSignals`; a buffer that is there is changed in place
pub plot_signal : List Text → ℕ → ℕ → Text → Number → Series → Series
unfolding evict_idle_series
plot_signal selected interval_us ts_us key value series = elim (lookup key series) [
  | some buffer ↦ insert key (append buffer ts_us value interval_us) series
  | none ↦
      let roomy =
        if leb graph_series_max (length series)
        then evict_idle_series selected series
        else series in
      if leb graph_series_max (length roomy)
      then roomy
      else insert key
          (append (record { samples = []; bin_start_us = none }) ts_us value interval_us) roomy
]

pub plot_signals : List Text → ℕ → ℕ → Text → List (Text × Number) → Series → Series
plot_signals selected interval_us ts_us message [] series = series
plot_signals selected interval_us ts_us message ((name, value) ∷ signals) series =
    plot_signals selected interval_us ts_us message signals
      (plot_signal selected interval_us ts_us (graph_signal_key message name) value series)

-- the `while` loop over `recentTs`
abbrev pub forget_before : ℤ → List ℕ → List ℕ
forget_before cutoff [] = []
forget_before cutoff (t ∷ ts) = elim (ltb_ℤ (pos t) cutoff) [
  | true ↦ forget_before cutoff ts
  | false ↦ t ∷ ts
]

-- the second half of `ingestFrame`
pub note_decode : GraphStore → GraphFrame → Option FrameDecode → GraphStore
unfolding note_entries plot_signals
note_decode s frame none = s
note_decode s frame (some decode) = record s {
  catalog = note_entries s.selected s.catalog (catalog_entries_from_decode frame.can_id decode);
  series =
      plot_signals s.selected (graph_sample_interval_us s.hz) frame.ts_us decode.name
        (numeric_decode_signals decode) s.series;
}

pub count_frame : GraphStore → GraphFrame → GraphStore
count_frame s frame = record s {
  message_count = s.message_count + 1;
  error_count = if frame.is_err then s.error_count + 1 else s.error_count;
  now_us = max s.now_us frame.ts_us;
  updated_us = some frame.ts_us;
  recent_ts = forget_before (sub_ℕ frame.ts_us 1000000) (s.recent_ts ++ frame.ts_us ∷ []);
}

-- `this.activeBusId !== null && frame.busId !== this.activeBusId`
abbrev pub is_other_bus : Option Text → Text → Bool
is_other_bus none bus_id = false
is_other_bus (some active) bus_id = not (same bus_id active)

pub ingest_frame : GraphStore → GraphFrame → GraphStore
unfolding note_decode count_frame
ingest_frame s frame =
    if is_other_bus s.active_bus_id frame.bus_id
    then s
    else note_decode (count_frame s frame) frame frame.decode

pub ingest_frames : GraphStore → List GraphFrame → GraphStore
ingest_frames s [] = s
ingest_frames s (frame ∷ frames) = ingest_frames (ingest_frame s frame) frames

pub append_batch : GraphStore → GraphBatch → GraphStore
unfolding ingest_frames
append_batch s batch =
    let noted = record s { engine_dropped = batch.dropped } in
    if s.paused || length batch.frames == 0
    then noted
    else trim_all (ingest_frames noted batch.frames)

-- the loop of `liveRate` from the newest time stamp back; `ts` is newest first
pub count_since : ℤ → List ℕ → ℕ → ℕ
count_since cutoff [] count = count
count_since cutoff (t ∷ ts) count = elim (ltb_ℤ (pos t) cutoff) [
  | true ↦ count
  | false ↦ count_since cutoff ts (count + 1)
]

pub live_rate_of : List ℕ → Option ℕ
unfolding count_since
live_rate_of [] = none
live_rate_of (newest ∷ ts) = some (count_since (sub_ℕ newest 1000000) (newest ∷ ts) 0)

pub live_rate : GraphStore → Option ℕ
unfolding live_rate_of
live_rate s = live_rate_of (reverse s.recent_ts)

unfoldable pub reset : GraphStore → GraphStore
unfolding clear_samples
reset s = clear_samples (record s {
  paused = false;
  paused_now_us = none;
  window_sec = graph_default_window_sec;
  hz = graph_default_hz;
  engine_dropped = pos 0;
  active_bus_id = none;
  series = [];
  catalog = [];
  selected = [];
  colors = [];
  color_index = 0;
  now_us = 0;
})

unfoldable pub reset_live : GraphStore → GraphStore
unfolding clear_samples
reset_live s = clear_samples (record s {
  engine_dropped = pos 0;
  active_bus_id = none;
  series = [];
  catalog = [];
  now_us = 0;
})
