-- ===== src/Graph/Ingest/Bounds.antt =====
-- The caps on `appendBatch` of shared/graphStore.ts.
use vanilla_bus.Prelude.{
  ℕ, suc, ◌-◌, ◌≤◌, ◌≡◌, refl, ap, not, ◌&&◌, ◌||◌, List, [], ◌∷◌, Option, none, some, Text, max,
  arith, length, All, contains, Bool-cases, Option-cases, inl, inr, ◌==◌, length-drop,
}
use vanilla_bus.Prelude.Int.{ℤ}
use vanilla_bus.Prelude.Assoc.{lookup, length-insert, length-remove_le, lookup-has}
use vanilla_bus.Engine.Value.{Number}
use vanilla_bus.Engine.Types.{FrameDecode}
use vanilla_bus.Graph.Window.{
  graph_catalog_max, graph_series_max, graph_sample_interval_us, window_start_us,
}
use vanilla_bus.Graph.Buffer.{SeriesBuffer, drop_before, trim, clear, append}
use vanilla_bus.Graph.Catalog.{
  GraphCatalogEntry, merge_catalog_entry, catalog_entries_from_decode, numeric_decode_signals,
}
use vanilla_bus.Graph.Store.{
  GraphStore, GraphFrame, GraphBatch, Series, Catalog, start, plot_now_us, capacity_bound,
  each_buffer, trim_all, clear_samples,
}
use vanilla_bus.Graph.Ingest.{
  find_key, remove_found, evict_idle_series, evict_idle_catalog, make_room_in_catalog, note_entry,
  note_entries, plot_signal, plot_signals, note_decode, count_frame, ingest_frame, ingest_frames,
  is_other_bus, append_batch,
}

length-remove_found :
    {V : Type 0} (key : Option Text) (m : List (Text × V)) → length (remove_found key m) ≤ length m
length-remove_found none m = omega arith
length-remove_found (some key) m = length-remove_le key m

length-evict_idle_series :
    (selected : List Text) (series : Series)
    → length (evict_idle_series selected series) ≤ length series
unfolding evict_idle_series
length-evict_idle_series selected series =
    length-remove_found (find_key (λ key _. not (contains key selected)) series) series

length-evict_idle_catalog :
    (selected : List Text) (catalog : Catalog)
    → length (evict_idle_catalog selected catalog) ≤ length catalog
unfolding evict_idle_catalog
length-evict_idle_catalog selected catalog =
    elim (Option-cases
      (find_key (λ key entry. not (contains key selected) && not entry.seen) catalog)) [
        | inl e ↦
            rw (e, evict_idle_catalog)
              (length-remove_found (find_key (λ key _. not (contains key selected)) catalog)
                catalog)
        | inr (key, e) ↦ rw (e, evict_idle_catalog) (length-remove_le key catalog)
      ]

length-make_room :
    (selected : List Text) (key : Text) (catalog : Catalog)
    → length (make_room_in_catalog selected key catalog) ≤ length catalog
unfolding make_room_in_catalog
length-make_room selected key catalog = ground (arith, length-evict_idle_catalog selected catalog)

-- Live decoding never takes the catalog past its cap: it grows only while it is smaller.
length-note_entry :
    (selected : List Text) (catalog : Catalog) (entry : GraphCatalogEntry)
    → length (note_entry selected catalog entry) ≤ max graph_catalog_max (length catalog)
unfolding note_entry
length-note_entry selected catalog entry =
    let roomy = make_room_in_catalog selected entry.key catalog in
    let smaller = length-make_room selected entry.key catalog in
    let inserted =
      length-insert entry.key (merge_catalog_entry (lookup entry.key roomy) entry) roomy in
    ground (arith, smaller, inserted)

length-note_entries :
    (selected : List Text) (catalog : Catalog) (entries : List GraphCatalogEntry)
    → length (note_entries selected catalog entries) ≤ max graph_catalog_max (length catalog)
unfolding note_entries
length-note_entries selected catalog [] = omega arith
length-note_entries selected catalog (entry ∷ entries) = omega (
  arith,
  length-note_entries selected (note_entry selected catalog entry) entries,
  length-note_entry selected catalog entry,
)

length-plot_signal :
    (selected : List Text) (interval ts : ℕ) (key : Text) (value : Number) (series : Series)
    → length series ≤ graph_series_max
    → length (plot_signal selected interval ts key value series) ≤ graph_series_max
unfolding plot_signal
length-plot_signal selected interval ts key value series h =
    elim (Option-cases (lookup key series)) [
      | inl fresh ↦
          let evicted = length-evict_idle_series selected series in
          let fresh_buffer : SeriesBuffer Number =
            append (record { samples = []; bin_start_us = none }) ts value interval in
          rw (fresh, plot_signal)
            (ground (
              arith,
              evicted,
              length-insert key fresh_buffer series,
              length-insert key fresh_buffer (evict_idle_series selected series),
            ))
      | inr (buffer, known) ↦
          rw (known, plot_signal)
            (ground (
              arith,
              length-insert key (append buffer ts value interval) series,
              lookup-has key series buffer known,
            ))
    ]

length-plot_signals :
    (selected : List Text) (interval ts : ℕ) (message : Text) (signals : List (Text × Number))
    (series : Series)
    → length series ≤ graph_series_max
    → length (plot_signals selected interval ts message signals series) ≤ graph_series_max
unfolding plot_signals
length-plot_signals selected interval ts message [] series h = h
length-plot_signals selected interval ts message ((name, value) ∷ signals) series h =
    length-plot_signals selected interval ts message signals _
      (length-plot_signal selected interval ts _ value series h)

abbrev Fits : ℕ → Series → Type 0
Fits bound = All (λ e. length e.1.samples ≤ bound)

length-each_buffer :
    (f : SeriesBuffer Number → SeriesBuffer Number) (series : Series)
    → length (each_buffer f series) ≡ length series
length-each_buffer f [] = refl
length-each_buffer f ((k, b) ∷ m) = ap suc (length-each_buffer f m)

-- A method that leaves few samples in any buffer leaves few in all.
each_buffer-Fits :
    (bound : ℕ) (f : SeriesBuffer Number → SeriesBuffer Number) (series : Series)
    → ((b : SeriesBuffer Number) → length (f b).samples ≤ bound)
    → Fits bound (each_buffer f series)
each_buffer-Fits bound f [] h = tt
each_buffer-Fits bound f ((k, b) ∷ m) h = (h b, each_buffer-Fits bound f m h)

length-trim :
    (b : SeriesBuffer Number) (start : ℤ) (most : ℕ)
    → length (trim b start (some most)).samples ≤ most
unfolding trim
length-trim b start most =
    let kept = drop_before start b.samples in ground (arith, length-drop (length kept - most) kept)

length-clear : (bound : ℕ) (b : SeriesBuffer Number) → length (clear b).samples ≤ bound
unfolding clear
length-clear bound b = omega arith

-- At most 256 series, and in each no more samples than `capacityBound` allows.
pub record IsBounded (s : GraphStore) : Type 0 where
  pub few : length s.series ≤ graph_series_max
  pub short : Fits (capacity_bound s) s.series

pub trim_all-IsBounded :
    (s : GraphStore) → length s.series ≤ graph_series_max → IsBounded (trim_all s)
unfolding trim_all
trim_all-IsBounded s h = record {
  few = omega (
    arith,
    length-each_buffer
        (λ b. trim b (window_start_us (plot_now_us s) s.window_sec) (some (capacity_bound s)))
        s.series,
  );
  short = each_buffer-Fits (capacity_bound s) _ s.series (λ b. length-trim b _ (capacity_bound s));
}

pub clear_samples-IsBounded :
    (s : GraphStore) → length s.series ≤ graph_series_max → IsBounded (clear_samples s)
unfolding clear_samples
clear_samples-IsBounded s h = record {
  few = omega (arith, length-each_buffer clear s.series);
  short = each_buffer-Fits (capacity_bound s) clear s.series (length-clear (capacity_bound s));
}

-- Within the caps a state moves between two batches: few series, and a catalog that only grows
-- past 512 by what a DBC has put there.
pub IsRoomy : ℕ → GraphStore → Type 0
IsRoomy most s =
    (length s.series ≤ graph_series_max) × (length s.catalog ≤ max graph_catalog_max most)

note_decode-IsRoomy :
    (most : ℕ) (s : GraphStore) (frame : GraphFrame) (decode : Option FrameDecode)
    → IsRoomy most s
    → IsRoomy most (note_decode s frame decode)
unfolding note_decode IsRoomy
note_decode-IsRoomy most s frame none h = h
note_decode-IsRoomy most s frame (some decode) (few, small) = (
  length-plot_signals s.selected (graph_sample_interval_us s.hz) frame.ts_us decode.name
      (numeric_decode_signals decode) s.series few,
  omega (
    arith,
    small,
    length-note_entries s.selected s.catalog (catalog_entries_from_decode frame.can_id decode),
  ),
)

count_frame-IsRoomy :
    (most : ℕ) (s : GraphStore) (frame : GraphFrame)
    → IsRoomy most s
    → IsRoomy most (count_frame s frame)
unfolding count_frame IsRoomy
count_frame-IsRoomy most s frame h = h

ingest_frame-IsRoomy :
    (most : ℕ) (s : GraphStore) (frame : GraphFrame)
    → IsRoomy most s
    → IsRoomy most (ingest_frame s frame)
unfolding ingest_frame
ingest_frame-IsRoomy most s frame h =
    elim (Bool-cases (is_other_bus s.active_bus_id frame.bus_id)) [
      | inl e ↦ rw e h
      | inr e ↦ rw e (
          note_decode-IsRoomy most (count_frame s frame) frame frame.decode
            (count_frame-IsRoomy most s frame h))
    ]

ingest_frames-IsRoomy :
    (most : ℕ) (s : GraphStore) (frames : List GraphFrame)
    → IsRoomy most s
    → IsRoomy most (ingest_frames s frames)
unfolding ingest_frames
ingest_frames-IsRoomy most s [] h = h
ingest_frames-IsRoomy most s (frame ∷ frames) h =
    ingest_frames-IsRoomy most (ingest_frame s frame) frames (ingest_frame-IsRoomy most s frame h)

-- Whatever the engine sends, a batch leaves a bounded store bounded.
pub append_batch-IsBounded :
    (s : GraphStore) (batch : GraphBatch) → IsBounded s → IsBounded (append_batch s batch)
unfolding append_batch IsRoomy
append_batch-IsBounded s batch h =
    let noted = record s { engine_dropped = batch.dropped } in
    elim (Bool-cases (s.paused || length batch.frames == 0)) [
      | inl e ↦ rw e (record { few = h.few; short = h.short })
      | inr e ↦ rw e (
          trim_all-IsBounded (ingest_frames noted batch.frames)
            (ingest_frames-IsRoomy (length s.catalog) noted batch.frames (h.few, omega arith)).0)
    ]

-- On a bounded store a batch, whatever is in it, leaves the catalog at no more than 512 entries, or
-- at no more than it had where it had more.
pub length-append_batch :
    (s : GraphStore) (batch : GraphBatch)
    → IsBounded s
    → length (append_batch s batch).catalog ≤ max graph_catalog_max (length s.catalog)
unfolding append_batch IsRoomy trim_all
length-append_batch s batch h =
    let noted = record s { engine_dropped = batch.dropped } in
    elim (Bool-cases (s.paused || length batch.frames == 0)) [
      | inl e ↦ rw e (omega arith)
      | inr e ↦
          rw e (ingest_frames-IsRoomy (length s.catalog) noted batch.frames (h.few, omega arith)).1
    ]
