-- ===== src/Transmit/Shown.antt =====
-- useTransmitModel.ts of electron/renderer/src/transmit: the rows of the Transmit view have
-- different ids, whatever happens.
use vanilla_bus.Prelude.{
  ℕ, ◌≡◌, refl, List, [], ◌∷◌, ◌++◌, Option, none, some, Text, codes, arith, Bool-cases, inl, inr,
}
use vanilla_bus.Prelude.Strings.{same}
use vanilla_bus.Engine.Types.{FrameEvent}
use vanilla_bus.Persist.{PersistedJobType, raw_job, dbc_job}
use vanilla_bus.Bridge.Types.{TxSendRequest, raw, dbc}
use vanilla_bus.Transmit.State.{running, CyclicJob, TransmitModel, fresh_model}
use vanilla_bus.Transmit.Model.{
  Reply, no_api, failed, answered, step, TransmitEvent, drafts, dbc_drafts, selects, sends, starts,
  stops, batch_comes, bus_closes, resets, hydrates, sync_selected_bus, send_once, start_cyclic,
  set_last, stop_job, note_batch, mark_bus_closed, reset, hydrate_prefs, note_frames, tx_frames,
  last_of,
}
use vanilla_bus.Transmit.Jobs.{
  job_ids, IsNew, AreIds, job_ids-stop_if, start-AreIds, reset_from-AreIds, remembered_from-AreIds,
}

-- An answer that starts a job brings a new id.
abbrev pub IsFresh : TransmitEvent → TransmitModel → Type 0
IsFresh (starts meta (answered job_id)) m = IsNew job_id (job_ids m.jobs)
IsFresh _ m = Unit {0}

stop_job-ids :
    (id : Text) (reply : Reply (Unit {0})) (m : TransmitModel)
    → job_ids (stop_job id reply m).jobs ≡ job_ids m.jobs
unfolding stop_job
stop_job-ids id no_api m = refl
stop_job-ids id (answered ok) m = job_ids-stop_if (λ job. same job.job_id id) m.jobs
stop_job-ids id (failed error) m = elim (Bool-cases (same error.code (codes "job_not_found"))) [
  | inl e ↦ rw (e, stop_job) (job_ids-stop_if (λ job. same job.job_id id) m.jobs)
  | inr e ↦ rw (e, stop_job) refl
]

send_once-jobs :
    (request : TxSendRequest) (now : ℕ) (reply : Reply (Unit {0})) (m : TransmitModel)
    → (send_once request now reply m).jobs ≡ m.jobs
unfolding send_once
send_once-jobs (raw r) now (answered ok) m = refl
send_once-jobs (dbc r) now (answered ok) m = refl
send_once-jobs request now no_api m = refl
send_once-jobs request now (failed error) m = refl

note_frames-jobs :
    (frames : List FrameEvent) (last : Option FrameEvent) (m : TransmitModel)
    → (note_frames frames last m).jobs ≡ m.jobs
note_frames-jobs frames none m = refl
note_frames-jobs frames (some last) m = refl

set_last-jobs :
    (t : PersistedJobType) (id : Text) (m : TransmitModel) → (set_last t id m).jobs ≡ m.jobs
set_last-jobs raw_job id m = refl
set_last-jobs dbc_job id m = refl

sync_selected_bus-jobs :
    (name : Text) (m : TransmitModel) → (sync_selected_bus name m).jobs ≡ m.jobs
unfolding sync_selected_bus
sync_selected_bus-jobs [] m = refl
sync_selected_bus-jobs (c ∷ name) m = ground arith

step-AreIds :
    (m : TransmitModel) (event : TransmitEvent)
    → AreIds (job_ids m.jobs)
    → IsFresh event m
    → AreIds (job_ids (step m event).jobs)
unfolding step start_cyclic note_batch mark_bus_closed reset hydrate_prefs
step-AreIds m (drafts draft) h new = h
step-AreIds m (dbc_drafts draft) h new = h
step-AreIds m (selects name) h new = rw (sync_selected_bus-jobs name m) h
step-AreIds m (sends request now reply) h new = rw (send_once-jobs request now reply m) h
step-AreIds m (starts meta no_api) h new = h
step-AreIds m (starts meta (failed error)) h new = h
step-AreIds m (starts meta (answered job_id)) h new =
    let row : CyclicJob = record meta { job_id = job_id; status = running } in
    rw (set_last-jobs meta.type_ job_id (record m { jobs = m.jobs ++ row ∷ [] }))
      (start-AreIds m.jobs row h new)
step-AreIds m (stops id reply) h new = rw (stop_job-ids id reply m) h
step-AreIds m (batch_comes batch) h new =
    rw (note_frames-jobs (tx_frames batch) (last_of (tx_frames batch)) m) h
step-AreIds m (bus_closes bus_id) h new =
    rw (job_ids-stop_if (λ job. same job.bus_id bus_id) m.jobs) h
step-AreIds m resets h new = reset_from-AreIds 0 m.jobs h.0 h.1
step-AreIds m (hydrates draft dbc_draft jobs) h new = remembered_from-AreIds 0 jobs

-- what the view can come to show
pub data Shown : TransmitModel → Type 0 where
  at_first : Shown fresh_model
  later :
      {m : TransmitModel} (event : TransmitEvent) → Shown m → IsFresh event m → Shown (step m event)

-- Whatever happens to the view, as long as the engine gives each cyclic job an id that no row has and
-- that is none of the view's own: no two rows have the same id, and a row with an id of the view's
-- own, `remembered-` with a number, is the row with that number.
pub Shown-AreIds : {m : TransmitModel} → Shown m → AreIds (job_ids m.jobs)
Shown-AreIds at_first = (tt, tt)
Shown-AreIds (later {m} event shown new) = step-AreIds m event (Shown-AreIds shown) new
