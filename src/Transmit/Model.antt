-- ===== src/Transmit/Model.antt =====
-- useTransmitModel.ts of electron/renderer/src/transmit: the state of the Transmit view as one record
-- (Transmit.State), a callback as a step. A callback that calls the engine steps when the call is answered; `none` is
-- the answer of a window without the engine's API.

use vanilla_bus.Prelude.{
  ℕ, ◌+◌, ◌*◌, Bool, true, false, ◌&&◌, List, [], ◌∷◌, ◌++◌, map, filter, length, find?, Option,
  none, some, Text, codes, ltb, if◌then◌else◌,
}
use vanilla_bus.Prelude.Int.{pos}
use vanilla_bus.Prelude.Strings.{same}
use vanilla_bus.Engine.Value.{integral}
use vanilla_bus.Engine.Types.{FrameEvent, FrameDir, rx, tx, RxBatch}
use vanilla_bus.Client.State.{RequestError}
use vanilla_bus.Bridge.Types.{TxSendRequest, raw, dbc}
use vanilla_bus.Persist.{
  PersistedRawDraft, PersistedDbcDraft, PersistedJobType, raw_job, dbc_job, PersistedCyclicJob,
}
use vanilla_bus.Persist.Hints.{cyclic_job_definition_id}
use vanilla_bus.Transmit.State.{
  CyclicJobStatus, running, stopped, CyclicJob, LastTx, empty_stats, TransmitModel,
}

unfoldable pub sync_selected_bus : Text → TransmitModel → TransmitModel
sync_selected_bus [] m = m
sync_selected_bus (c ∷ name) m =
    if same m.draft.bus_name (c ∷ name)
    then m
    else record m { draft = record m.draft { bus_name = c ∷ name } }

abbrev pub note_error : TransmitModel → TransmitModel
note_error m = record m { stats = record m.stats { errors = m.stats.errors + 1 } }

-- the answer to a call: the API is missing, an error, or what the call asked for
pub data Reply {ℓ} (A : Type ℓ) : Type ℓ where
  no_api : Reply A
  failed : RequestError → Reply A
  answered : A → Reply A

abbrev pub is_extended : Option Bool → ℕ → Bool
is_extended none can_id = ltb 2047 can_id
is_extended (some b) can_id = b

-- `isTxRawSendRequest` tells the requests apart
abbrev pub note_sent : TxSendRequest → ℕ → TransmitModel → TransmitModel
note_sent (dbc r) now m = m
note_sent (raw r) now m = record m {
  stats = record m.stats {
    last_tx = some (record {
      ts_us = integral (pos (now * 1000));
      can_id = r.can_id;
      is_eff = is_extended r.is_eff r.can_id;
    });
  };
}

unfoldable pub send_once : TxSendRequest → ℕ → Reply (Unit {0}) → TransmitModel → TransmitModel
send_once request now no_api m = note_error m
send_once request now (failed error) m = note_error m
send_once request now (answered ok) m = note_sent request now m

abbrev pub set_last : PersistedJobType → Text → TransmitModel → TransmitModel
set_last raw_job job_id m = record m { last_raw_job_id = some job_id }
set_last dbc_job job_id m = record m { last_dbc_job_id = some job_id }

-- `meta` is a row of which the id and the status are not read
unfoldable pub start_cyclic : CyclicJob → Reply Text → TransmitModel → TransmitModel
start_cyclic meta no_api m = note_error m
start_cyclic meta (failed error) m = note_error m
start_cyclic meta (answered job_id) m =
    set_last meta.type_ job_id
      (record m { jobs = m.jobs ++ record meta { job_id = job_id; status = running } ∷ [] })

abbrev pub stop_if : (CyclicJob → Bool) → List CyclicJob → List CyclicJob
stop_if p jobs = map (λ job. if p job then record job { status = stopped } else job) jobs

abbrev pub stopped_job : Text → TransmitModel → TransmitModel
stopped_job job_id m = record m { jobs = stop_if (λ job. same job.job_id job_id) m.jobs }

unfoldable pub stop_job : Text → Reply (Unit {0}) → TransmitModel → TransmitModel
stop_job job_id no_api m = note_error m
stop_job job_id (answered ok) m = stopped_job job_id m
stop_job job_id (failed error) m =
    if same error.code (codes "job_not_found")
    then stopped_job job_id (note_error m)
    else note_error m

abbrev pub is_running : CyclicJobStatus → Bool
is_running running = true
is_running stopped = false

-- `stopLastRaw` and `stopLastDbc`: the job that they call `stopJob` for
unfoldable pub last_target : Option Text → List CyclicJob → Option CyclicJob
last_target none jobs = none
last_target (some job_id) jobs = find? (λ job. same job.job_id job_id && is_running job.status) jobs

abbrev pub is_tx : FrameDir → Bool
is_tx tx = true
is_tx rx = false

abbrev pub tx_frames : RxBatch → List FrameEvent
tx_frames batch = filter (λ (frame : FrameEvent). is_tx frame.dir) batch.frames

abbrev pub last_tx_from_frame : FrameEvent → LastTx
last_tx_from_frame frame = record {
  ts_us = frame.ts_us;
  can_id = frame.can_id;
  is_eff = frame.is_eff;
}

-- the last frame, where there is one
abbrev pub last_of : List FrameEvent → Option FrameEvent
last_of [] = none
last_of (f ∷ []) = some f
last_of (f ∷ g ∷ fs) = last_of (g ∷ fs)

abbrev pub note_frames : List FrameEvent → Option FrameEvent → TransmitModel → TransmitModel
note_frames frames none m = m
note_frames frames (some last) m = record m {
  stats = record m.stats {
    tx_count = m.stats.tx_count + length frames;
    last_tx = some (last_tx_from_frame last);
  };
}

unfoldable pub note_batch : RxBatch → TransmitModel → TransmitModel
note_batch batch m = note_frames (tx_frames batch) (last_of (tx_frames batch)) m

unfoldable pub mark_bus_closed : Text → TransmitModel → TransmitModel
mark_bus_closed bus_id m = record m { jobs = stop_if (λ job. same job.bus_id bus_id) m.jobs }

-- from the row with this index on
abbrev pub reset_job : ℕ → CyclicJob → CyclicJob
reset_job index job = record job {
  job_id = (if is_running job.status then cyclic_job_definition_id index else job.job_id);
  status = stopped;
}

unfoldable pub reset_from : ℕ → List CyclicJob → List CyclicJob
reset_from index [] = []
reset_from index (job ∷ jobs) = reset_job index job ∷ reset_from (index + 1) jobs

abbrev pub forget : TransmitModel → TransmitModel
forget m = record m { stats = empty_stats; last_raw_job_id = none; last_dbc_job_id = none }

unfoldable pub reset : TransmitModel → TransmitModel
reset m = forget (record m { jobs = reset_from 0 m.jobs })

abbrev pub remembered_job : ℕ → PersistedCyclicJob → CyclicJob
remembered_job index job = record {
  job_id = cyclic_job_definition_id index;
  type_ = job.type_;
  bus_id = [];
  if_name = job.if_name;
  can_id = job.can_id;
  is_eff = job.is_eff;
  payload = job.bytes;
  message = job.message;
  period_ms = job.period_ms;
  status = stopped;
}

unfoldable pub remembered_from : ℕ → List PersistedCyclicJob → List CyclicJob
remembered_from index [] = []
remembered_from index (job ∷ jobs) = remembered_job index job ∷ remembered_from (index + 1) jobs

unfoldable pub hydrate_prefs :
    PersistedRawDraft → PersistedDbcDraft → List PersistedCyclicJob → TransmitModel → TransmitModel
hydrate_prefs draft dbc_draft jobs m =
    forget (record m { draft = draft; dbc_draft = dbc_draft; jobs = remembered_from 0 jobs })

-- what happens to the view
pub data TransmitEvent : Type 0 where
  drafts : PersistedRawDraft → TransmitEvent
  dbc_drafts : PersistedDbcDraft → TransmitEvent
  selects : Text → TransmitEvent
  sends : TxSendRequest → ℕ → Reply (Unit {0}) → TransmitEvent
  starts : CyclicJob → Reply Text → TransmitEvent
  stops : Text → Reply (Unit {0}) → TransmitEvent
  batch_comes : RxBatch → TransmitEvent
  bus_closes : Text → TransmitEvent
  resets : TransmitEvent
  hydrates : PersistedRawDraft → PersistedDbcDraft → List PersistedCyclicJob → TransmitEvent

unfoldable pub step : TransmitModel → TransmitEvent → TransmitModel
step m (drafts draft) = record m { draft = draft }
step m (dbc_drafts draft) = record m { dbc_draft = draft }
step m (selects name) = sync_selected_bus name m
step m (sends request now reply) = send_once request now reply m
step m (starts meta reply) = start_cyclic meta reply m
step m (stops job_id reply) = stop_job job_id reply m
step m (batch_comes batch) = note_batch batch m
step m (bus_closes bus_id) = mark_bus_closed bus_id m
step m resets = reset m
step m (hydrates draft dbc_draft jobs) = hydrate_prefs draft dbc_draft jobs m
