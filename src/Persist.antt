-- ===== src/Persist.antt =====
-- shared/persist.ts: the snapshot of the user interface that is written under userData. The order of
-- the keys of a `Record` is that of the assignments.
pub mod Sanitize
pub mod Hints
pub mod Build
pub mod Bounds
pub mod Loops
pub mod Sound
pub mod RoundTrip
pub mod Restore
pub mod Samples
mod Tests
use vanilla_bus.Prelude.{ℕ, Bool, true, false, List, [], Option, none, Text, codes}
use vanilla_bus.Graph.Window.{graph_default_window_sec}

abbrev pub persist_max_buses : ℕ
persist_max_buses = 16

abbrev pub persist_max_selected : ℕ
persist_max_selected = 32

abbrev pub persist_max_jobs : ℕ
persist_max_jobs = 32

abbrev pub persist_max_filter : ℕ
persist_max_filter = 200

abbrev pub persist_max_path : ℕ
persist_max_path = 512

abbrev pub persist_max_iface : ℕ
persist_max_iface = 32

abbrev pub persist_max_hex : ℕ
persist_max_hex = 160

abbrev pub persist_max_signal_keys : ℕ
persist_max_signal_keys = 64

pub record PersistedBusHint : Type 0 where
  pub name : Text
  pub dbc_path : Option Text

pub record PersistedTracePrefs : Type 0 where
  pub filter : Text
  pub paused : Bool
  pub scroll_lock : Bool

pub record PersistedGraphPrefs : Type 0 where
  pub window_sec : ℕ
  pub selected : List Text

pub data PersistedSendMode : Type 0 where
  oneshot cyclic : PersistedSendMode

pub record PersistedRawDraft : Type 0 where
  pub bus_name : Text
  pub id_hex : Text
  pub data_hex : Text
  pub mode : PersistedSendMode
  pub period_ms : ℕ
  pub is_eff : Bool
  pub is_rtr : Bool
  pub is_fd : Bool

pub record PersistedDbcDraft : Type 0 where
  pub message : Text
  pub values : List (Text × Text)
  pub period_ms : ℕ

pub data PersistedJobType : Type 0 where
  raw_job dbc_job : PersistedJobType

pub record PersistedCyclicJob : Type 0 where
  pub type_ : PersistedJobType
  pub if_name : Text
  pub can_id : ℕ
  pub is_eff : Bool
  pub bytes : Text
  pub message : Option Text
  pub period_ms : ℕ

-- `version` is always 1
pub record PersistSnapshot : Type 0 where
  pub last_bus_name : Text
  pub last_dbc_path : Text
  pub buses : List PersistedBusHint
  pub trace : PersistedTracePrefs
  pub graph : PersistedGraphPrefs
  pub tx_raw : PersistedRawDraft
  pub tx_dbc : PersistedDbcDraft
  pub cyclic_jobs : List PersistedCyclicJob

abbrev pub default_persist : PersistSnapshot
default_persist = record {
  last_bus_name = codes "vcan0";
  last_dbc_path = codes "fixtures/dbc/sample.dbc";
  buses = [];
  trace = record { filter = []; paused = false; scroll_lock = true };
  graph = record { window_sec = graph_default_window_sec; selected = [] };
  tx_raw = record {
    bus_name = codes "vcan0";
    id_hex = codes "0x7E0";
    data_hex = codes "02 10 0C 00 00 00 00 00";
    mode = oneshot;
    period_ms = 100;
    is_eff = false;
    is_rtr = false;
    is_fd = false;
  };
  tx_dbc = record { message = []; values = []; period_ms = 100 };
  cyclic_jobs = [];
}
