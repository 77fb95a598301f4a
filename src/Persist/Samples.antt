-- ===== src/Persist/Samples.antt =====
-- A snapshot with two remembered buses and two cyclic jobs, for the runs of shared/persist.ts and
-- electron/main/userStore.ts.
use vanilla_bus.Prelude.{false, refl, List, [], ◌∷◌, none, some, codes, arith}
use vanilla_bus.Prelude.Strings.{same, trim}
use vanilla_bus.Persist.{
  PersistedBusHint, PersistSnapshot, PersistedCyclicJob, raw_job, dbc_job, default_persist,
}
use vanilla_bus.Persist.Bounds.{IsHints}
use vanilla_bus.Persist.Sound.{IsSnapshot, default_persist-IsSnapshot}
use vanilla_bus.Persist.Restore.{IsTidy}
use vanilla_bus.Graph.Window.{is_graph_window_sec}

abbrev pub two_buses : List PersistedBusHint
two_buses =
    record { name = codes "vcan0"; dbc_path = some (codes "a.dbc") }
    ∷ record { name = codes "can1"; dbc_path = none }
    ∷ []

pub two_buses-IsHints : IsHints two_buses
unfolding same
two_buses-IsHints = record {
  few = omega arith;
  once = (refl, (refl, tt));
  each = (
    record { named = (omega arith, omega arith); path = (omega arith, omega arith) },
    (record { named = (omega arith, omega arith); path = tt }, tt),
  );
}

-- a job without a message
abbrev heartbeat : PersistedCyclicJob
heartbeat = record {
  type_ = raw_job;
  if_name = codes "vcan0";
  can_id = 1792;
  is_eff = false;
  bytes = codes "0a0b";
  message = none;
  period_ms = 100;
}

abbrev lamps : PersistedCyclicJob
lamps = record heartbeat { type_ = dbc_job; can_id = 1793; message = some (codes "LAMPS") }

abbrev pub saved : PersistSnapshot
saved = record default_persist {
  buses = two_buses;
  graph = record { window_sec = 10; selected = codes "ENGINE.speed" ∷ [] };
  cyclic_jobs = heartbeat ∷ lamps ∷ [];
}

pub saved-IsSnapshot : IsSnapshot saved
unfolding is_graph_window_sec
saved-IsSnapshot = record {
  bus = default_persist-IsSnapshot.bus;
  path = default_persist-IsSnapshot.path;
  buses = two_buses-IsHints;
  filter = default_persist-IsSnapshot.filter;
  window = refl;
  selected = record {
    few = omega arith;
    once = (refl, tt);
    each = ((omega arith, omega arith), tt);
  };
  raw = default_persist-IsSnapshot.raw;
  dbc = default_persist-IsSnapshot.dbc;
  jobs = record {
    few = omega arith;
    each = (
      record {
        interface = (omega arith, omega arith);
        short = omega arith;
        message = tt;
        period = omega arith;
      },
      (
        record {
          interface = (omega arith, omega arith);
          short = omega arith;
          message = (omega arith, omega arith);
          period = omega arith;
        },
        tt,
      ),
    );
  };
}

pub saved-IsTidy : IsTidy saved
unfolding trim
saved-IsTidy = record {
  bus = (refl, (omega arith, omega arith));
  path = (refl, (omega arith, omega arith));
  hints = ((refl, refl), ((refl, tt), tt));
  filter = refl;
  selected = (refl, tt);
  raw_bus = (refl, (omega arith, omega arith));
  raw_id = (refl, (omega arith, omega arith));
  raw_bytes = (refl, (omega arith, omega arith));
  message = refl;
  values = tt;
  jobs = (
    record { interface = refl; bytes_text = refl; message = tt },
    (record { interface = refl; bytes_text = refl; message = refl }, tt),
  );
}
