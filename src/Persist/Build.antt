-- ===== src/Persist/Build.antt =====
-- `jobsToDefinitions` and `buildPersistSnapshot` of shared/persist.ts.
use vanilla_bus.Prelude.{
  List, [], ◌∷◌, ◌++◌, Option, none, some, Text, codes, length, leb, ◌==◌, if◌then◌else◌,
}
use vanilla_bus.Prelude.Int.{pos}
use vanilla_bus.Prelude.Strings.{trim}
use vanilla_bus.Engine.Value.{
  Value, null, boolean, number, string, array, object, Items, nil, item, Fields, end, field,
  integral,
}
use vanilla_bus.Persist.{
  persist_max_jobs, PersistedBusHint, PersistedTracePrefs, PersistedGraphPrefs, PersistedSendMode,
  oneshot, cyclic, PersistedRawDraft, PersistedDbcDraft, PersistedJobType, raw_job, dbc_job,
  PersistedCyclicJob, PersistSnapshot,
}
use vanilla_bus.Persist.Sanitize.{sanitize_job, sanitize_persist}
use vanilla_bus.Persist.Hints.{upsert_bus_hint}

abbrev pub items_of : List Value → Items
items_of [] = nil
items_of (v ∷ vs) = item v (items_of vs)

-- a snapshot's parts as the objects that they are
abbrev pub of_path : Option Text → Value
of_path none = null
of_path (some path) = string path

abbrev pub of_hints : List PersistedBusHint → List Value
of_hints [] = []
of_hints (hint ∷ hints) =
    object (
      field (codes "name") (string hint.name) (field (codes "dbcPath") (of_path hint.dbc_path) end))
    ∷ of_hints hints

abbrev pub of_trace : PersistedTracePrefs → Value
of_trace prefs = object (
    field (codes "filter") (string prefs.filter) (
      field (codes "paused") (boolean prefs.paused)
        (field (codes "scrollLock") (boolean prefs.scroll_lock) end)))

abbrev pub of_texts : List Text → List Value
of_texts [] = []
of_texts (s ∷ ss) = string s ∷ of_texts ss

abbrev pub of_graph : PersistedGraphPrefs → Value
of_graph prefs = object (
    field (codes "windowSec") (number (integral (pos prefs.window_sec)))
      (field (codes "selected") (array (items_of (of_texts prefs.selected))) end))

abbrev pub of_mode : PersistedSendMode → Text
of_mode oneshot = codes "oneshot"
of_mode cyclic = codes "cyclic"

abbrev pub of_raw_draft : PersistedRawDraft → Value
of_raw_draft draft = object (
    field (codes "busName") (string draft.bus_name) (
      field (codes "idHex") (string draft.id_hex) (
        field (codes "dataHex") (string draft.data_hex) (
          field (codes "mode") (string (of_mode draft.mode)) (
            field (codes "periodMs") (number (integral (pos draft.period_ms))) (
              field (codes "isEff") (boolean draft.is_eff) (
                field (codes "isRtr") (boolean draft.is_rtr)
                  (field (codes "isFd") (boolean draft.is_fd) end))))))))

abbrev pub of_values : List (Text × Text) → Fields
of_values [] = end
of_values ((key, value) ∷ values) = field key (string value) (of_values values)

abbrev pub of_dbc_draft : PersistedDbcDraft → Value
of_dbc_draft draft = object (
    field (codes "message") (string draft.message) (
      field (codes "values") (object (of_values draft.values))
        (field (codes "periodMs") (number (integral (pos draft.period_ms))) end)))

abbrev pub of_job_type : PersistedJobType → Text
of_job_type raw_job = codes "Raw"
of_job_type dbc_job = codes "DBC"

-- A job without a message has no such field: `JSON.stringify` leaves a field that is `undefined` out,
-- and to `sanitizeJob` the two are the same.
abbrev pub message_field : Option Text → Fields → Fields
message_field none rest = rest
message_field (some message) rest = field (codes "message") (string message) rest

abbrev pub of_job : PersistedCyclicJob → Value
of_job job = object (
    field (codes "type") (string (of_job_type job.type_)) (
      field (codes "ifName") (string job.if_name) (
        field (codes "canId") (number (integral (pos job.can_id))) (
          field (codes "isEff") (boolean job.is_eff) (
            field (codes "data") (string job.bytes) (
              message_field job.message
                (field (codes "periodMs") (number (integral (pos job.period_ms))) end)))))))

abbrev pub of_jobs : List PersistedCyclicJob → List Value
of_jobs [] = []
of_jobs (job ∷ jobs) = of_job job ∷ of_jobs jobs

pub push_job : Option PersistedCyclicJob → List PersistedCyclicJob → List PersistedCyclicJob
push_job none jobs = jobs
push_job (some job) jobs = jobs ++ job ∷ []

-- the loop of `jobsToDefinitions`
pub definitions_from : List PersistedCyclicJob → List PersistedCyclicJob → List PersistedCyclicJob
unfolding push_job
definitions_from [] definitions = definitions
definitions_from (job ∷ jobs) definitions =
    let next = push_job (sanitize_job (of_job job)) definitions in
    let rest = definitions_from jobs next in
    if leb persist_max_jobs (length next) then next else rest

pub jobs_to_definitions : List PersistedCyclicJob → List PersistedCyclicJob
unfolding definitions_from
jobs_to_definitions jobs = definitions_from jobs []

pub record PersistBuildInput : Type 0 where
  pub last_bus_name : Text
  pub last_dbc_path : Text
  pub buses : List PersistedBusHint
  pub opened : List PersistedBusHint
  pub trace : PersistedTracePrefs
  pub graph : PersistedGraphPrefs
  pub tx_raw : PersistedRawDraft
  pub tx_dbc : PersistedDbcDraft
  pub cyclic_jobs : List PersistedCyclicJob

-- the loop over `input.opened`; no list is the empty list
pub upsert_opened : List PersistedBusHint → List PersistedBusHint → List PersistedBusHint
unfolding upsert_bus_hint
upsert_opened buses [] = buses
upsert_opened buses (hint ∷ opened) =
    upsert_opened (upsert_bus_hint buses hint.name (some hint.dbc_path)) opened

-- the buses that `buildPersistSnapshot` passes on
pub build_buses : PersistBuildInput → List PersistedBusHint
unfolding upsert_opened
build_buses input =
    let buses = upsert_opened input.buses input.opened in
    if length (trim input.last_bus_name) == 0
    then buses
    else upsert_bus_hint buses input.last_bus_name none

-- The whole snapshot as the object that it is. In this order `JSON.stringify` writes it too.
unfoldable pub of_snapshot : PersistSnapshot → Value
of_snapshot s = object (
    field (codes "version") (number (integral (pos 1))) (
      field (codes "lastBusName") (string s.last_bus_name) (
        field (codes "lastDbcPath") (string s.last_dbc_path) (
          field (codes "buses") (array (items_of (of_hints s.buses))) (
            field (codes "trace") (of_trace s.trace) (
              field (codes "graph") (of_graph s.graph) (
                field (codes "txRaw") (of_raw_draft s.tx_raw) (
                  field (codes "txDbc") (of_dbc_draft s.tx_dbc) (
                    field (codes "cyclicJobs") (array (items_of (of_jobs s.cyclic_jobs)))
                      end)))))))))

-- the argument of `sanitizePersist`, before it is checked
unfoldable pub built : PersistBuildInput → PersistSnapshot
unfolding build_buses
built input = record {
  last_bus_name = input.last_bus_name;
  last_dbc_path = input.last_dbc_path;
  buses = build_buses input;
  trace = input.trace;
  graph = input.graph;
  tx_raw = input.tx_raw;
  tx_dbc = input.tx_dbc;
  cyclic_jobs = input.cyclic_jobs;
}

unfoldable pub build_persist_snapshot : PersistBuildInput → PersistSnapshot
unfolding of_snapshot built
build_persist_snapshot input = sanitize_persist (of_snapshot (built input))
