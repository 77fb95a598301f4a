-- ===== src/Graph/Ingest/Settings.antt =====
-- GraphStore of shared/graphStore.ts: a batch changes none of the user's settings.
use vanilla_bus.Prelude.{
  ◌≡◌, refl, ◌∙◌, ◌||◌, List, [], ◌∷◌, Option, none, some, ◌==◌, length, Bool-cases, inl, inr,
}
use vanilla_bus.Engine.Types.{FrameDecode}
use vanilla_bus.Graph.Store.{GraphStore, GraphFrame, GraphBatch, trim_all}
use vanilla_bus.Graph.Ingest.{
  note_decode, count_frame, is_other_bus, ingest_frame, ingest_frames, append_batch,
}

-- what the user set: the same in the second store
pub record SameSettings (s t : GraphStore) : Type 0 where
  pub paused : t.paused ≡ s.paused
  pub bus : t.active_bus_id ≡ s.active_bus_id
  pub window : t.window_sec ≡ s.window_sec
  pub selected : t.selected ≡ s.selected

pub same_settings : (s : GraphStore) → SameSettings s s
same_settings s = record { paused = refl; bus = refl; window = refl; selected = refl }

then_same : (s t u : GraphStore) → SameSettings s t → SameSettings t u → SameSettings s u
then_same s t u a b = record {
  paused = b.paused ∙ a.paused;
  bus = b.bus ∙ a.bus;
  window = b.window ∙ a.window;
  selected = b.selected ∙ a.selected;
}

note_decode-SameSettings :
    (s : GraphStore) (frame : GraphFrame) (decode : Option FrameDecode)
    → SameSettings s (note_decode s frame decode)
unfolding note_decode
note_decode-SameSettings s frame none = same_settings s
note_decode-SameSettings s frame (some decode) = record {
  paused = refl;
  bus = refl;
  window = refl;
  selected = refl;
}

count_frame-SameSettings :
    (s : GraphStore) (frame : GraphFrame) → SameSettings s (count_frame s frame)
unfolding count_frame
count_frame-SameSettings s frame = record {
  paused = refl;
  bus = refl;
  window = refl;
  selected = refl;
}

ingest_frame-SameSettings :
    (s : GraphStore) (frame : GraphFrame) → SameSettings s (ingest_frame s frame)
unfolding ingest_frame
ingest_frame-SameSettings s frame = elim (Bool-cases (is_other_bus s.active_bus_id frame.bus_id)) [
  | inl e ↦ rw (e, ingest_frame) (same_settings s)
  | inr e ↦
      rw (e, ingest_frame)
        (then_same s (count_frame s frame) _ (count_frame-SameSettings s frame)
          (note_decode-SameSettings (count_frame s frame) frame frame.decode))
]

ingest_frames-SameSettings :
    (s : GraphStore) (frames : List GraphFrame) → SameSettings s (ingest_frames s frames)
unfolding ingest_frames
ingest_frames-SameSettings s [] = same_settings s
ingest_frames-SameSettings s (frame ∷ frames) =
    then_same s (ingest_frame s frame) _ (ingest_frame-SameSettings s frame)
      (ingest_frames-SameSettings (ingest_frame s frame) frames)

trim_all-SameSettings : (s : GraphStore) → SameSettings s (trim_all s)
unfolding trim_all
trim_all-SameSettings s = record { paused = refl; bus = refl; window = refl; selected = refl }

pub append_batch-SameSettings :
    (s : GraphStore) (batch : GraphBatch) → SameSettings s (append_batch s batch)
unfolding append_batch
append_batch-SameSettings s batch =
    let noted : GraphStore = record s { engine_dropped = batch.dropped } in
    let same_noted : SameSettings s noted = record {
      paused = refl;
      bus = refl;
      window = refl;
      selected = refl;
    } in
    elim (Bool-cases (s.paused || length batch.frames == 0)) [
      | inl e ↦ rw (e, append_batch) same_noted
      | inr e ↦
          rw (e, append_batch)
            (then_same s noted _ same_noted (
              then_same noted (ingest_frames noted batch.frames) _
                (ingest_frames-SameSettings noted batch.frames)
                (trim_all-SameSettings (ingest_frames noted batch.frames))))
    ]
