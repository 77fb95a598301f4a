-- ===== src/Persist/Hints.antt =====
-- The functions of shared/persist.ts on the remembered buses.
pub mod Upsert
pub mod Lookup
pub mod Merge
use vanilla_bus.Prelude.{
  ℕ, ◌-◌, Bool, true, false, not, ◌&&◌, ◌||◌, List, [], ◌∷◌, ◌++◌, Option, none, some, Text, codes,
  length, take, contains, leb, ◌==◌, if◌then◌else◌,
}
use vanilla_bus.Prelude.Int.{pos}
use vanilla_bus.Prelude.Strings.{same, trim}
use vanilla_bus.Engine.Value.{
  Value, undefined, null, boolean, number, string, array, object, Items, nil, item, Fields, end,
  field, integral,
}
use vanilla_bus.Trace.Format.{to_string}
use vanilla_bus.Persist.{
  persist_max_buses, persist_max_iface, persist_max_jobs, PersistedBusHint, PersistedTracePrefs,
  PersistedGraphPrefs, PersistedSendMode, oneshot, cyclic, PersistedRawDraft, PersistedDbcDraft,
  PersistedJobType, raw_job, dbc_job, PersistedCyclicJob, PersistSnapshot, default_persist,
}
use vanilla_bus.Persist.Sanitize.{
  clamp_trimmed, optional_path, names, sanitize_job, sanitize_persist,
}

-- `buses.find((item) => item.name === name)`
abbrev pub find_hint : Text → List PersistedBusHint → Option PersistedBusHint
find_hint name [] = none
find_hint name (hint ∷ hints) = elim (same hint.name name) [
  | true ↦ some hint
  | false ↦ find_hint name hints
]

abbrev pub other_hints : Text → List PersistedBusHint → List PersistedBusHint
other_hints name [] = []
other_hints name (hint ∷ hints) = elim (same hint.name name) [
  | true ↦ other_hints name hints
  | false ↦ hint ∷ other_hints name hints
]

abbrev pub path_of : Option PersistedBusHint → Option Text
path_of none = none
path_of (some hint) = hint.dbc_path

-- `undefined` is `none`, `null` is `some none`.
abbrev pub next_path : Option (Option Text) → Option PersistedBusHint → Option Text
next_path none existing = path_of existing
next_path (some none) existing = optional_path null
next_path (some (some path)) existing = optional_path (string path)

pub upsert_clean : List PersistedBusHint → Text → Option (Option Text) → List PersistedBusHint
upsert_clean buses [] dbc_path = buses
upsert_clean buses (c ∷ s) dbc_path =
    let hint : PersistedBusHint = record {
      name = c ∷ s;
      dbc_path = next_path dbc_path (find_hint (c ∷ s) buses);
    } in
    take persist_max_buses (hint ∷ other_hints (c ∷ s) buses)

unfoldable pub upsert_bus_hint :
    List PersistedBusHint → Text → Option (Option Text) → List PersistedBusHint
unfolding upsert_clean
upsert_bus_hint buses name dbc_path =
    upsert_clean buses (clamp_trimmed (trim name) persist_max_iface []) dbc_path

-- `s || fallback`
abbrev pub or_text : Text → Text → Text
or_text [] fallback = fallback
or_text (c ∷ s) fallback = c ∷ s

abbrev pub path_or : Option Text → Text → Text
path_or none fallback = fallback
path_or (some path) fallback = or_text path fallback

pub dbc_path_for_bus : PersistSnapshot → Text → Text
dbc_path_for_bus snapshot bus_name =
    path_or (path_of (find_hint bus_name snapshot.buses))
      (or_text snapshot.last_dbc_path default_persist.last_dbc_path)

-- the local `push` of `mergeRememberedNames`
pub push_name : List Text → Text → List Text
push_name seen name =
    if length (trim name) == 0 || contains (trim name) seen then seen else seen ++ trim name ∷ []

pub push_names : List Text → List Text → List Text
unfolding push_name
push_names seen [] = seen
push_names seen (name ∷ later) = push_names (push_name seen name) later

pub merge_remembered_names : List Text → List PersistedBusHint → Text → List Text
unfolding push_names
merge_remembered_names listed remembered selected_bus =
    push_name (push_names (push_names [] listed) (names remembered)) selected_bus

pub is_remembered_name : List PersistedBusHint → Text → Bool
is_remembered_name remembered name = contains name (names remembered)

unfoldable pub cyclic_job_definition_id : ℕ → Text
cyclic_job_definition_id index = codes "remembered-" ++ to_string 10 index

-- `item.dbcPath.split(/[\\/]/).pop()`, with the segment so far
abbrev pub last_segment : Text → Text → Text
last_segment segment [] = segment
last_segment segment (c ∷ s) = elim (c == 47 || c == 92) [
  | true ↦ last_segment [] s
  | false ↦ last_segment (segment ++ c ∷ []) s
]

abbrev pub labelled : Text → Text → Text
labelled name [] = name
labelled name (c ∷ s) = name ++ codes " (" ++ c ∷ s ++ codes ")"

abbrev pub hint_label : PersistedBusHint → Text
hint_label hint = labelled hint.name (last_segment [] (path_or hint.dbc_path []))

abbrev pub labels : List PersistedBusHint → List Text
labels [] = []
labels (hint ∷ hints) = hint_label hint ∷ labels hints

-- `texts.join(', ')`
abbrev pub join : List Text → Text
join [] = []
join (s ∷ []) = s
join (s ∷ t ∷ texts) = s ++ codes ", " ++ join (t ∷ texts)

pub restore_text_of : Text → List PersistedBusHint → Text
restore_text_of last_bus_name [] =
    codes "Remembered "
    ++ last_bus_name
    ++ codes ". Not connected — click Connect when the iface is UP."
restore_text_of last_bus_name (hint ∷ hints) =
    codes "Remembered "
    ++ join (labels (hint ∷ hints))
    ++ codes ". Not auto-connected — click Connect when the iface is UP."

pub remembered_restore_text : PersistSnapshot → Text
unfolding restore_text_of
remembered_restore_text snapshot = restore_text_of snapshot.last_bus_name snapshot.buses

abbrev pub listed_names : Text → List PersistedBusHint → Text
listed_names last_bus_name [] = last_bus_name
listed_names last_bus_name (hint ∷ hints) = join (names (hint ∷ hints))

pub remembered_empty_list_text : PersistSnapshot → Text
remembered_empty_list_text snapshot =
    codes "No SocketCAN interfaces up. Remembered "
    ++ listed_names snapshot.last_bus_name snapshot.buses
    ++ codes ". Bring the iface up with sudo ./scripts/setup-vcan.sh, then Connect."
