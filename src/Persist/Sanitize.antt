-- ===== src/Persist/Sanitize.antt =====
-- `sanitizePersist` of shared/persist.ts with all that it calls.
use vanilla_bus.Prelude.{
  ℕ, Bool, true, false, not, ◌&&◌, ◌||◌, List, [], ◌∷◌, ◌++◌, Option, none, some, Text, codes, min,
  max, length, take, contains, ltb, leb, ◌==◌, if◌then◌else◌,
}
use vanilla_bus.Prelude.Int.{pos, negsuc}
use vanilla_bus.Prelude.Strings.{same, trim}
use vanilla_bus.Engine.Value.{
  Value, boolean, number, string, object, Fields, integral, entries, get, natural,
}
use vanilla_bus.Engine.Parse.{assign, items_or_empty}
use vanilla_bus.Graph.Window.{is_graph_window_sec, graph_default_window_sec}
use vanilla_bus.Persist.{
  persist_max_buses, persist_max_selected, persist_max_jobs, persist_max_filter, persist_max_path,
  persist_max_iface, persist_max_hex, persist_max_signal_keys, PersistedBusHint,
  PersistedTracePrefs, PersistedGraphPrefs, PersistedSendMode, oneshot, cyclic, PersistedRawDraft,
  PersistedDbcDraft, PersistedJobType, raw_job, dbc_job, PersistedCyclicJob, PersistSnapshot,
  default_persist,
}

-- `clampString` past its first test, on the trimmed string
unfoldable pub clamp_trimmed : Text → ℕ → Text → Text
clamp_trimmed trimmed most fallback =
    if length trimmed == 0
    then fallback
    else if ltb most (length trimmed)
    then take most trimmed
    else trimmed

abbrev pub clamp_string : Value → ℕ → Text → Text
clamp_string (string s) most fallback = clamp_trimmed (trim s) most fallback
clamp_string _ most fallback = fallback

abbrev pub some_nonempty : Text → Option Text
some_nonempty [] = none
some_nonempty (c ∷ s) = some (c ∷ s)

abbrev pub optional_path : Value → Option Text
optional_path value = some_nonempty (clamp_string value persist_max_path [])

-- `min` and `max` are positive wherever the code calls it.
unfoldable pub clamp_int : Value → ℕ → ℕ → ℕ → ℕ
clamp_int (number (integral (pos n))) low high fallback = min high (max low n)
clamp_int (number (integral (negsuc n))) low high fallback = min high low
clamp_int _ low high fallback = fallback

abbrev pub as_bool : Value → Bool → Bool
as_bool (boolean b) fallback = b
as_bool _ fallback = fallback

-- `some` where the string is not empty
unfoldable pub bus_hint : Text → Value → Option PersistedBusHint
bus_hint [] path = none
bus_hint (c ∷ s) path = some (record { name = c ∷ s; dbc_path = optional_path path })

unfoldable pub sanitize_bus_hint : Value → Option PersistedBusHint
unfolding bus_hint
sanitize_bus_hint (object record_) =
    bus_hint (clamp_string (get (codes "name") record_) persist_max_iface [])
      (get (codes "dbcPath") record_)
sanitize_bus_hint _ = none

unfoldable pub sanitize_trace : Value → PersistedTracePrefs
sanitize_trace (object record_) = record {
  filter = clamp_string (get (codes "filter") record_) persist_max_filter [];
  paused = as_bool (get (codes "paused") record_) false;
  scroll_lock = as_bool (get (codes "scrollLock") record_) true;
}
sanitize_trace _ = default_persist.trace

unfoldable pub window_sec_of : Value → ℕ
window_sec_of (number (integral (pos n))) =
    if is_graph_window_sec n then n else graph_default_window_sec
window_sec_of _ = graph_default_window_sec

-- the loop over `record.selected`
unfoldable pub collect_selected : List Value → List Text → List Text
collect_selected [] selected = selected
collect_selected (item ∷ items) selected =
    let key = clamp_string item 96 [] in
    let skip = length key == 0 || contains key selected in
    let next = if skip then selected else selected ++ key ∷ [] in
    let rest = collect_selected items next in
    if not skip && leb persist_max_selected (length next) then next else rest

unfoldable pub sanitize_graph : Value → PersistedGraphPrefs
unfolding window_sec_of collect_selected
sanitize_graph (object record_) = record {
  window_sec = window_sec_of (get (codes "windowSec") record_);
  selected = collect_selected (items_or_empty (get (codes "selected") record_)) [];
}
sanitize_graph _ = default_persist.graph

unfoldable pub mode_of : Value → PersistedSendMode
mode_of (string s) = if same s (codes "cyclic") then cyclic else oneshot
mode_of _ = oneshot

unfoldable pub sanitize_raw_draft : Value → PersistedRawDraft
unfolding mode_of
sanitize_raw_draft (object record_) = record {
  bus_name =
      clamp_string (get (codes "busName") record_) persist_max_iface
        default_persist.tx_raw.bus_name;
  id_hex = clamp_string (get (codes "idHex") record_) 24 default_persist.tx_raw.id_hex;
  data_hex =
      clamp_string (get (codes "dataHex") record_) persist_max_hex default_persist.tx_raw.data_hex;
  mode = mode_of (get (codes "mode") record_);
  period_ms = clamp_int (get (codes "periodMs") record_) 1 3600000 100;
  is_eff = as_bool (get (codes "isEff") record_) false;
  is_rtr = as_bool (get (codes "isRtr") record_) false;
  is_fd = as_bool (get (codes "isFd") record_) false;
}
sanitize_raw_draft _ = default_persist.tx_raw

-- the loop over `Object.entries(record.values)`
unfoldable pub collect_values : List (Text × Value) → List (Text × Text) → List (Text × Text)
collect_values [] values = values
collect_values ((key, value) ∷ fields) values =
    let name = clamp_string (string key) 64 [] in
    let skip = length name == 0 in
    let next = if skip then values else assign name (clamp_string value 64 []) values in
    let rest = collect_values fields next in
    if not skip && leb persist_max_signal_keys (length next) then next else rest

abbrev pub entries_or_empty : Value → List (Text × Value)
entries_or_empty (object fs) = entries fs
entries_or_empty _ = []

unfoldable pub sanitize_dbc_draft : Value → PersistedDbcDraft
unfolding collect_values
sanitize_dbc_draft (object record_) = record {
  message = clamp_string (get (codes "message") record_) 96 [];
  values = collect_values (entries_or_empty (get (codes "values") record_)) [];
  period_ms = clamp_int (get (codes "periodMs") record_) 1 3600000 100;
}
sanitize_dbc_draft _ = default_persist.tx_dbc

unfoldable pub job_type : Value → Option PersistedJobType
job_type (string s) =
    if same s (codes "DBC")
    then some dbc_job
    else if same s (codes "Raw")
    then some raw_job
    else none
job_type _ = none

-- the rest of `sanitizeJob`, once the three required fields are read
unfoldable pub job_of :
    Fields → Option PersistedJobType → Text → Option ℕ → Option PersistedCyclicJob
job_of record_ (some kind) (c ∷ s) (some can_id) = some (record {
  type_ = kind;
  if_name = c ∷ s;
  can_id = can_id;
  is_eff = as_bool (get (codes "isEff") record_) (ltb 2047 can_id);
  bytes = clamp_string (get (codes "data") record_) persist_max_hex [];
  message = some_nonempty (clamp_string (get (codes "message") record_) 96 []);
  period_ms = clamp_int (get (codes "periodMs") record_) 1 3600000 100;
})
job_of record_ _ _ _ = none

unfoldable pub sanitize_job : Value → Option PersistedCyclicJob
unfolding job_type job_of
sanitize_job (object record_) =
    job_of record_ (job_type (get (codes "type") record_))
      (clamp_string (get (codes "ifName") record_) persist_max_iface [])
      (natural (get (codes "canId") record_))
sanitize_job _ = none

abbrev pub names : List PersistedBusHint → List Text
names [] = []
names (hint ∷ hints) = hint.name ∷ names hints

-- one round of the loop over `record.buses`
unfoldable pub note_hint : Option PersistedBusHint → List PersistedBusHint → List PersistedBusHint
note_hint none buses = buses
note_hint (some hint) buses = if contains hint.name (names buses) then buses else buses ++ hint ∷ []

-- The loop. It stops right after a round that made the list full; a list that is full stays as it is.
unfoldable pub collect_hints : List Value → List PersistedBusHint → List PersistedBusHint
unfolding note_hint
collect_hints [] buses = buses
collect_hints (item ∷ items) buses =
    let next = note_hint (sanitize_bus_hint item) buses in
    let rest = collect_hints items next in
    if leb persist_max_buses (length next) then next else rest

unfoldable pub note_job :
    Option PersistedCyclicJob → List PersistedCyclicJob → List PersistedCyclicJob
note_job none jobs = jobs
note_job (some job) jobs = jobs ++ job ∷ []

-- the loop over `record.cyclicJobs`, in the same way
unfoldable pub collect_jobs : List Value → List PersistedCyclicJob → List PersistedCyclicJob
unfolding note_job
collect_jobs [] jobs = jobs
collect_jobs (item ∷ items) jobs =
    let next = note_job (sanitize_job item) jobs in
    let rest = collect_jobs items next in if leb persist_max_jobs (length next) then next else rest

unfoldable pub sanitize_persist : Value → PersistSnapshot
unfolding collect_hints collect_jobs
sanitize_persist (object record_) = record {
  last_bus_name =
      clamp_string (get (codes "lastBusName") record_) persist_max_iface
        default_persist.last_bus_name;
  last_dbc_path =
      clamp_string (get (codes "lastDbcPath") record_) persist_max_path
        default_persist.last_dbc_path;
  buses = collect_hints (items_or_empty (get (codes "buses") record_)) [];
  trace = sanitize_trace (get (codes "trace") record_);
  graph = sanitize_graph (get (codes "graph") record_);
  tx_raw = sanitize_raw_draft (get (codes "txRaw") record_);
  tx_dbc = sanitize_dbc_draft (get (codes "txDbc") record_);
  cyclic_jobs = collect_jobs (items_or_empty (get (codes "cyclicJobs") record_)) [];
}
sanitize_persist _ = default_persist
