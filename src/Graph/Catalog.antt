-- ===== src/Graph/Catalog.antt =====
-- shared/graphKeys.ts and shared/graphCatalog.ts: the signals that the Graph view offers.
use vanilla_bus.Prelude.{
  ℕ, ◌%◌, Bool, true, false, ◌||◌, List, [], ◌∷◌, ◌++◌, map, Option, none, some, Text, codes,
  length, filter, get_or, ◌==◌, if◌then◌else◌,
}
use vanilla_bus.Prelude.Int.{pos}
use vanilla_bus.Prelude.Strings.{trim, to_lower_case, includes}
use vanilla_bus.Prelude.Assoc.{lookup, insert}
use vanilla_bus.Engine.Value.{Number, integral, is_finite}
use vanilla_bus.Engine.Types.{
  SignalValue, num, str, bool, FrameDecode, DbcCatalogSignal, DbcCatalogMessage,
}
use vanilla_bus.Trace.Format.{to_string}

-- `${messageName}.${signalName}`
unfoldable pub graph_signal_key : Text → Text → Text
graph_signal_key message_name signal_name = message_name ++ b'.' ∷ signal_name

abbrev pub graph_series_colors : List Text
graph_series_colors =
    codes "#40c4ff"
    ∷ codes "#ffab40"
    ∷ codes "#ab47bc"
    ∷ codes "#66bb6a"
    ∷ codes "#ef5350"
    ∷ codes "#26c6da"
    ∷ codes "#ffee58"
    ∷ codes "#8d6e63"
    ∷ []

unfoldable pub graph_series_color : ℕ → Text
graph_series_color index =
    get_or graph_series_colors (index % length graph_series_colors) (codes "#40c4ff")

pub record GraphCatalogEntry : Type 0 where
  pub key : Text
  pub message_name : Text
  pub can_id : ℕ
  pub signal_name : Text
  pub unit : Text
  pub seen : Bool

pub record GraphCatalogGroup : Type 0 where
  pub message_name : Text
  pub can_id : ℕ
  pub signals : List GraphCatalogEntry

abbrev pub dbc_entry : DbcCatalogMessage → DbcCatalogSignal → GraphCatalogEntry
dbc_entry message signal = record {
  key = graph_signal_key message.name signal.name;
  message_name = message.name;
  can_id = message.can_id;
  signal_name = signal.name;
  unit = signal.unit;
  seen = false;
}

pub catalog_entries_from_dbc : List DbcCatalogMessage → List GraphCatalogEntry
catalog_entries_from_dbc [] = []
catalog_entries_from_dbc (message ∷ messages) =
    map (dbc_entry message) message.signals ++ catalog_entries_from_dbc messages

abbrev pub text_or_empty : Option Text → Text
text_or_empty none = []
text_or_empty (some s) = s

abbrev pub decode_entry : ℕ → FrameDecode → Text → GraphCatalogEntry
decode_entry can_id decode signal_name = record {
  key = graph_signal_key decode.name signal_name;
  message_name = decode.name;
  can_id = can_id;
  signal_name = signal_name;
  unit = text_or_empty (lookup signal_name decode.units);
  seen = true;
}

pub catalog_entries_from_decode : ℕ → FrameDecode → List GraphCatalogEntry
catalog_entries_from_decode can_id decode = map (λ s. decode_entry can_id decode s.0) decode.signals

-- `a || b` on strings and on numbers
abbrev pub text_or : Text → Text → Text
text_or [] b = b
text_or (c ∷ a) b = c ∷ a

abbrev pub number_or : ℕ → ℕ → ℕ
number_or a b = if a == 0 then b else a

unfoldable pub merge_catalog_entry :
    Option GraphCatalogEntry → GraphCatalogEntry → GraphCatalogEntry
merge_catalog_entry none incoming = incoming
merge_catalog_entry (some existing) incoming = record {
  key = existing.key;
  message_name = text_or incoming.message_name existing.message_name;
  can_id = number_or incoming.can_id existing.can_id;
  signal_name = text_or incoming.signal_name existing.signal_name;
  unit = text_or incoming.unit existing.unit;
  seen = existing.seen || incoming.seen;
}

-- `${entry.canId}:${entry.messageName}`
pub group_id : GraphCatalogEntry → Text
group_id entry = to_string 10 entry.can_id ++ b':' ∷ entry.message_name

-- the map from identifiers to groups; its keys are `order`
pub group_entries :
    List GraphCatalogEntry
    → List (Text × List GraphCatalogEntry)
    → List (Text × List GraphCatalogEntry)
unfolding group_id
group_entries [] groups = groups
group_entries (entry ∷ entries) groups =
    group_entries entries (elim (lookup (group_id entry) groups) [
      | none ↦ insert (group_id entry) (entry ∷ []) groups
      | some signals ↦ insert (group_id entry) (signals ++ entry ∷ []) groups
    ])

pub group_of : Text × List GraphCatalogEntry → GraphCatalogGroup
group_of (id, []) = record { message_name = id; can_id = 0; signals = [] }
group_of (id, first ∷ signals) = record {
  message_name = first.message_name;
  can_id = first.can_id;
  signals = first ∷ signals;
}

pub group_catalog_by_message : List GraphCatalogEntry → List GraphCatalogGroup
unfolding group_entries group_of
group_catalog_by_message entries = map group_of (group_entries entries [])

pub entry_matches : Text → GraphCatalogEntry → Bool
entry_matches needle entry =
    includes (to_lower_case entry.message_name) needle
    || includes (to_lower_case entry.signal_name) needle
    || includes (to_lower_case entry.key) needle
    || includes (codes "0x" ++ to_string 16 entry.can_id) needle

pub filter_catalog : List GraphCatalogEntry → Text → List GraphCatalogEntry
unfolding entry_matches
filter_catalog entries query =
    let needle = to_lower_case (trim query) in
    if length needle == 0 then entries else filter (entry_matches needle) entries

-- the number that is plotted for a signal's value, if it has one
abbrev pub plotted : SignalValue → Option Number
plotted (num n) = if is_finite n then some n else none
plotted (str s) = none
plotted (bool true) = some (integral (pos 1))
plotted (bool false) = some (integral (pos 0))

unfoldable pub numeric_signals : List (Text × SignalValue) → List (Text × Number)
numeric_signals [] = []
numeric_signals ((name, value) ∷ signals) =
    let rest = numeric_signals signals in
    elim (plotted value) [ none ↦ rest | some n ↦ (name, n) ∷ rest ]

abbrev pub numeric_decode_signals : FrameDecode → List (Text × Number)
numeric_decode_signals decode = numeric_signals decode.signals
