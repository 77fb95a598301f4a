-- ===== src/Transmit/State.antt =====
-- useTransmitModel.ts of electron/renderer/src/transmit: the types of the state of the Transmit view.
use vanilla_bus.Prelude.{ℕ, Bool, false, List, [], Option, none, Text, codes}
use vanilla_bus.Engine.Value.{Number}
use vanilla_bus.Persist.{PersistedRawDraft, PersistedDbcDraft, PersistedJobType, oneshot}

pub data CyclicJobStatus : Type 0 where
  running stopped : CyclicJobStatus

-- `CyclicJobRow`
pub record CyclicJob : Type 0 where
  pub job_id : Text
  pub type_ : PersistedJobType
  pub bus_id : Text
  pub if_name : Text
  pub can_id : ℕ
  pub is_eff : Bool
  pub payload : Text
  pub message : Option Text
  pub period_ms : ℕ
  pub status : CyclicJobStatus

pub record LastTx : Type 0 where
  pub ts_us : Number
  pub can_id : ℕ
  pub is_eff : Bool

pub record TransmitStats : Type 0 where
  pub tx_count : ℕ
  pub errors : ℕ
  pub last_tx : Option LastTx

abbrev pub empty_stats : TransmitStats
empty_stats = record { tx_count = 0; errors = 0; last_tx = none }

-- The drafts have the shape of the ones that are kept on disk.
pub record TransmitModel : Type 0 where
  pub draft : PersistedRawDraft
  pub dbc_draft : PersistedDbcDraft
  pub jobs : List CyclicJob
  pub stats : TransmitStats
  pub last_raw_job_id : Option Text
  pub last_dbc_job_id : Option Text

abbrev pub fresh_model : TransmitModel
fresh_model = record {
  draft = record {
    bus_name = codes "vcan0";
    id_hex = codes "0x7E0";
    data_hex = codes "02 10 0C 00 00 00 00 00";
    mode = oneshot;
    period_ms = 100;
    is_eff = false;
    is_rtr = false;
    is_fd = false;
  };
  dbc_draft = record { message = []; values = []; period_ms = 100 };
  jobs = [];
  stats = empty_stats;
  last_raw_job_id = none;
  last_dbc_job_id = none;
}
