-- ===== src/Graph/Ingest/Selected.antt =====
-- shared/graphStore.ts: the evictions of `appendBatch` against the selected signals.
use vanilla_bus.Prelude.{
  ℕ, ◌≡◌, refl, ap, ◌∙◌, true, false, not, ◌||◌, List, [], ◌∷◌, Option, none, some, Text, arith,
  length, contains, ◌==◌, Bool-cases, Option-cases, inl, inr,
}
use vanilla_bus.Prelude.Strings.{same, same_iff}
use vanilla_bus.Prelude.Assoc.{lookup, has, has-insert, has-remove_ne}
use vanilla_bus.Engine.Value.{Number}
use vanilla_bus.Engine.Types.{FrameDecode}
use vanilla_bus.Graph.Window.{graph_sample_interval_us}
use vanilla_bus.Graph.Buffer.{SeriesBuffer, append}
use vanilla_bus.Graph.Catalog.{graph_signal_key, numeric_decode_signals}
use vanilla_bus.Graph.Store.{GraphStore, GraphFrame, GraphBatch, Series, each_buffer, trim_all}
use vanilla_bus.Graph.Ingest.{
  find_key, evict_idle_series, plot_signal, plot_signals, note_decode, count_frame, is_other_bus,
  ingest_frame, ingest_frames, append_batch,
}

-- what is found among the keys that are not selected is not selected
find_key_idle :
    (selected : List Text) (series : Series) (k : Text)
    → find_key (λ key _. not (contains key selected)) series ≡ some k
    → contains k selected ≡ false
find_key_idle selected [] k h = ground arith
find_key_idle selected ((j, b) ∷ m) k h = ground (arith, find_key_idle selected m k)

has-evict_idle_series :
    (selected : List Text) (key : Text) (series : Series)
    → contains key selected ≡ true
    → has key series ≡ true
    → has key (evict_idle_series selected series) ≡ true
unfolding evict_idle_series
has-evict_idle_series selected key series s h =
    elim (Option-cases (find_key (λ k _. not (contains k selected)) series)) [
      | inl e ↦ rw (e, evict_idle_series) h
      | inr (k, e) ↦
          let idle = find_key_idle selected series k e in
          let other : same k key ≡ false = elim (Bool-cases (same k key)) [
            | inl eq ↦
                let both = ap (λ x. contains x selected) ((same_iff k key).0 eq) in
                absurd (ground (arith, both))
            | inr ne ↦ ne
          ] in
          rw (e, evict_idle_series) (has-remove_ne k key series other ∙ h)
    ]

has-plot_signal :
    (selected : List Text) (interval ts : ℕ) (j : Text) (value : Number) (key : Text)
    (series : Series)
    → contains key selected ≡ true
    → has key series ≡ true
    → has key (plot_signal selected interval ts j value series) ≡ true
unfolding plot_signal
has-plot_signal selected interval ts j value key series s h =
    let fresh : SeriesBuffer Number =
      append (record { samples = []; bin_start_us = none }) ts value interval in
    let kept = has-evict_idle_series selected key series s h in
    elim (Option-cases (lookup j series)) [
      | inl new ↦
          rw (new, plot_signal)
            (ground (
              arith,
              kept,
              has-insert j key fresh series,
              has-insert j key fresh (evict_idle_series selected series),
            ))
      | inr (buffer, old) ↦
          rw (old, plot_signal)
            (ground (arith, has-insert j key (append buffer ts value interval) series))
    ]

has-plot_signals :
    (selected : List Text) (interval ts : ℕ) (message : Text) (signals : List (Text × Number))
    (key : Text) (series : Series)
    → contains key selected ≡ true
    → has key series ≡ true
    → has key (plot_signals selected interval ts message signals series) ≡ true
unfolding plot_signals
has-plot_signals selected interval ts message [] key series s h = h
has-plot_signals selected interval ts message ((name, value) ∷ signals) key series s h =
    has-plot_signals selected interval ts message signals key _ s
      (has-plot_signal selected interval ts (graph_signal_key message name) value key series s h)

-- a signal that is selected and has a series
unfoldable pub IsPlotted : Text → GraphStore → Type 0
IsPlotted key s = (contains key s.selected ≡ true) × (has key s.series ≡ true)

note_decode-IsPlotted :
    (key : Text) (s : GraphStore) (frame : GraphFrame) (decode : Option FrameDecode)
    → IsPlotted key s
    → IsPlotted key (note_decode s frame decode)
unfolding note_decode IsPlotted
note_decode-IsPlotted key s frame none h = h
note_decode-IsPlotted key s frame (some decode) (chosen, there) = (
  chosen,
  has-plot_signals s.selected (graph_sample_interval_us s.hz) frame.ts_us decode.name
      (numeric_decode_signals decode) key s.series chosen there,
)

count_frame-IsPlotted :
    (key : Text) (s : GraphStore) (frame : GraphFrame)
    → IsPlotted key s
    → IsPlotted key (count_frame s frame)
unfolding count_frame IsPlotted
count_frame-IsPlotted key s frame h = h

ingest_frames-IsPlotted :
    (key : Text) (s : GraphStore) (frames : List GraphFrame)
    → IsPlotted key s
    → IsPlotted key (ingest_frames s frames)
unfolding ingest_frames ingest_frame
ingest_frames-IsPlotted key s [] h = h
ingest_frames-IsPlotted key s (frame ∷ frames) h =
    let next : IsPlotted key (ingest_frame s frame) =
      elim (Bool-cases (is_other_bus s.active_bus_id frame.bus_id)) [
        | inl e ↦ rw e h
        | inr e ↦ rw e (
            note_decode-IsPlotted key (count_frame s frame) frame frame.decode
              (count_frame-IsPlotted key s frame h))
      ] in
    ingest_frames-IsPlotted key (ingest_frame s frame) frames next

has-each_buffer :
    (key : Text) (f : SeriesBuffer Number → SeriesBuffer Number) (series : Series)
    → has key (each_buffer f series) ≡ has key series
has-each_buffer key f [] = refl
has-each_buffer key f ((k, b) ∷ m) = ap (λ t. same k key || t) (has-each_buffer key f m)

-- Whatever a batch holds, a signal that is selected and has a series still is and has after it: no
-- eviction takes the series of a selected signal.
pub append_batch-IsPlotted :
    (s : GraphStore) (batch : GraphBatch) (key : Text)
    → IsPlotted key s
    → IsPlotted key (append_batch s batch)
unfolding append_batch IsPlotted trim_all
append_batch-IsPlotted s batch key (chosen, there) =
    let noted = record s { engine_dropped = batch.dropped } in
    elim (Bool-cases (s.paused || length batch.frames == 0)) [
      | inl e ↦ rw e (chosen, there)
      | inr e ↦
          let after = ingest_frames-IsPlotted key noted batch.frames (chosen, there) in
          rw e (after.0, has-each_buffer key _ (ingest_frames noted batch.frames).series ∙ after.1)
    ]
