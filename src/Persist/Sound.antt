-- ===== src/Persist/Sound.antt =====
-- shared/persist.ts: `sanitizePersist` on any value.
use vanilla_bus.Prelude.{◌≤◌, ◌≡◌, refl, true, [], codes, arith, length}
use vanilla_bus.Prelude.Assoc.{IsDistinct, keys}
use vanilla_bus.Engine.Value.{Value, undefined, null, boolean, number, string, array, object, get}
use vanilla_bus.Engine.Parse.{items_or_empty}
use vanilla_bus.Graph.Window.{is_graph_window_sec}
use vanilla_bus.Persist.{
  persist_max_filter, persist_max_path, persist_max_iface, persist_max_hex, persist_max_signal_keys,
  PersistedGraphPrefs, PersistedRawDraft, PersistedDbcDraft, PersistSnapshot, default_persist,
}
use vanilla_bus.Persist.Sanitize.{
  sanitize_trace, sanitize_graph, sanitize_raw_draft, entries_or_empty, sanitize_dbc_draft,
  sanitize_persist,
}
use vanilla_bus.Persist.Bounds.{
  length-clamp_string, IsPeriod, clamp_int-IsPeriod, IsHints, collect_hints-IsHints,
}
use vanilla_bus.Persist.Loops.{
  IsSelected, IsJobs, window_sec_of_lem, collect_selected-IsSelected, collect_values-IsValues,
  collect_jobs-IsJobs,
}

pub record IsRawDraft (draft : PersistedRawDraft) : Type 0 where
  pub bus : length draft.bus_name ≤ persist_max_iface
  pub id : length draft.id_hex ≤ 24
  pub short : length draft.data_hex ≤ persist_max_hex
  pub period : IsPeriod draft.period_ms

pub record IsDbcDraft (draft : PersistedDbcDraft) : Type 0 where
  pub message : length draft.message ≤ 96
  pub few : length draft.values ≤ persist_max_signal_keys
  pub once : IsDistinct (keys draft.values)
  pub period : IsPeriod draft.period_ms

pub record IsSnapshot (s : PersistSnapshot) : Type 0 where
  pub bus : length s.last_bus_name ≤ persist_max_iface
  pub path : length s.last_dbc_path ≤ persist_max_path
  pub buses : IsHints s.buses
  pub filter : length s.trace.filter ≤ persist_max_filter
  pub window : is_graph_window_sec s.graph.window_sec ≡ true
  pub selected : IsSelected s.graph.selected
  pub raw : IsRawDraft s.tx_raw
  pub dbc : IsDbcDraft s.tx_dbc
  pub jobs : IsJobs s.cyclic_jobs

-- Parts that are no objects are replaced by these.
pub default_persist-IsSnapshot : IsSnapshot default_persist
unfolding is_graph_window_sec
default_persist-IsSnapshot = record {
  bus = omega arith;
  path = omega arith;
  buses = record { few = omega arith; once = tt; each = tt };
  filter = omega arith;
  window = refl;
  selected = record { few = omega arith; once = tt; each = tt };
  raw = record { bus = omega arith; id = omega arith; short = omega arith; period = omega arith };
  dbc = record { message = omega arith; few = omega arith; once = tt; period = omega arith };
  jobs = record { few = omega arith; each = tt };
}

-- The parts of a snapshot, for any value of each.
length-sanitize_trace : (v : Value) → length (sanitize_trace v).filter ≤ persist_max_filter
unfolding sanitize_trace
length-sanitize_trace (object fs) =
    length-clamp_string (get (codes "filter") fs) persist_max_filter [] (omega arith)
length-sanitize_trace undefined = omega arith
length-sanitize_trace null = omega arith
length-sanitize_trace (boolean b) = omega arith
length-sanitize_trace (number n) = omega arith
length-sanitize_trace (string s) = omega arith
length-sanitize_trace (array vs) = omega arith

IsGraph : PersistedGraphPrefs → Type 0
IsGraph prefs = (is_graph_window_sec prefs.window_sec ≡ true) × IsSelected prefs.selected

sanitize_graph-IsGraph : (v : Value) → IsGraph (sanitize_graph v)
unfolding sanitize_graph IsGraph
sanitize_graph-IsGraph (object fs) = (
  window_sec_of_lem (get (codes "windowSec") fs),
  collect_selected-IsSelected (items_or_empty (get (codes "selected") fs)) [] (omega arith)
      default_persist-IsSnapshot.selected,
)
sanitize_graph-IsGraph undefined =
    (default_persist-IsSnapshot.window, default_persist-IsSnapshot.selected)
sanitize_graph-IsGraph null =
    (default_persist-IsSnapshot.window, default_persist-IsSnapshot.selected)
sanitize_graph-IsGraph (boolean b) =
    (default_persist-IsSnapshot.window, default_persist-IsSnapshot.selected)
sanitize_graph-IsGraph (number n) =
    (default_persist-IsSnapshot.window, default_persist-IsSnapshot.selected)
sanitize_graph-IsGraph (string s) =
    (default_persist-IsSnapshot.window, default_persist-IsSnapshot.selected)
sanitize_graph-IsGraph (array vs) =
    (default_persist-IsSnapshot.window, default_persist-IsSnapshot.selected)

sanitize_raw_draft-IsRawDraft : (v : Value) → IsRawDraft (sanitize_raw_draft v)
unfolding sanitize_raw_draft
sanitize_raw_draft-IsRawDraft (object fs) = record {
  bus = length-clamp_string (get (codes "busName") fs) persist_max_iface _ (omega arith);
  id = length-clamp_string (get (codes "idHex") fs) 24 _ (omega arith);
  short = length-clamp_string (get (codes "dataHex") fs) persist_max_hex _ (omega arith);
  period = clamp_int-IsPeriod (get (codes "periodMs") fs);
}
sanitize_raw_draft-IsRawDraft undefined = default_persist-IsSnapshot.raw
sanitize_raw_draft-IsRawDraft null = default_persist-IsSnapshot.raw
sanitize_raw_draft-IsRawDraft (boolean b) = default_persist-IsSnapshot.raw
sanitize_raw_draft-IsRawDraft (number n) = default_persist-IsSnapshot.raw
sanitize_raw_draft-IsRawDraft (string s) = default_persist-IsSnapshot.raw
sanitize_raw_draft-IsRawDraft (array vs) = default_persist-IsSnapshot.raw

sanitize_dbc_draft-IsDbcDraft : (v : Value) → IsDbcDraft (sanitize_dbc_draft v)
unfolding sanitize_dbc_draft
sanitize_dbc_draft-IsDbcDraft (object fs) =
    let values =
      collect_values-IsValues (entries_or_empty (get (codes "values") fs)) [] (omega arith)
        (omega arith, tt) in
    record {
      message = length-clamp_string (get (codes "message") fs) 96 [] (omega arith);
      few = values.0;
      once = values.1;
      period = clamp_int-IsPeriod (get (codes "periodMs") fs);
    }
sanitize_dbc_draft-IsDbcDraft undefined = default_persist-IsSnapshot.dbc
sanitize_dbc_draft-IsDbcDraft null = default_persist-IsSnapshot.dbc
sanitize_dbc_draft-IsDbcDraft (boolean b) = default_persist-IsSnapshot.dbc
sanitize_dbc_draft-IsDbcDraft (number n) = default_persist-IsSnapshot.dbc
sanitize_dbc_draft-IsDbcDraft (string s) = default_persist-IsSnapshot.dbc
sanitize_dbc_draft-IsDbcDraft (array vs) = default_persist-IsSnapshot.dbc

-- Whatever the file held, the snapshot that `sanitizePersist` returns keeps every bound: at most 16
-- remembered buses, each name once, not empty and within 32 units, each path within 512; a filter
-- within 200; a window that the UI offers; at most 32 selected signals, each once; drafts and at
-- most 32 jobs with bounded texts and a period of 1 ms to one hour.
pub sanitize_persist-IsSnapshot : (v : Value) → IsSnapshot (sanitize_persist v)
unfolding sanitize_persist IsGraph
sanitize_persist-IsSnapshot (object fs) =
    let start = default_persist-IsSnapshot in
    let graph = sanitize_graph-IsGraph (get (codes "graph") fs) in
    record {
      bus = length-clamp_string (get (codes "lastBusName") fs) persist_max_iface _ (omega arith);
      path = length-clamp_string (get (codes "lastDbcPath") fs) persist_max_path _ (omega arith);
      buses =
          collect_hints-IsHints (items_or_empty (get (codes "buses") fs)) [] (omega arith)
            start.buses;
      filter = length-sanitize_trace (get (codes "trace") fs);
      window = graph.0;
      selected = graph.1;
      raw = sanitize_raw_draft-IsRawDraft (get (codes "txRaw") fs);
      dbc = sanitize_dbc_draft-IsDbcDraft (get (codes "txDbc") fs);
      jobs =
          collect_jobs-IsJobs (items_or_empty (get (codes "cyclicJobs") fs)) [] (omega arith)
            start.jobs;
    }
sanitize_persist-IsSnapshot undefined = default_persist-IsSnapshot
sanitize_persist-IsSnapshot null = default_persist-IsSnapshot
sanitize_persist-IsSnapshot (boolean b) = default_persist-IsSnapshot
sanitize_persist-IsSnapshot (number n) = default_persist-IsSnapshot
sanitize_persist-IsSnapshot (string s) = default_persist-IsSnapshot
sanitize_persist-IsSnapshot (array vs) = default_persist-IsSnapshot
