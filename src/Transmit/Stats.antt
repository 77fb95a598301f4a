-- ===== src/Transmit/Stats.antt =====
-- useTransmitModel.ts of electron/renderer/src/transmit: what the counters of the Transmit view count.
use vanilla_bus.Prelude.{
  ℕ, ◌+◌, ◌≡◌, refl, ap, ◌∙◌, Bool, true, false, not, List, [], ◌∷◌, ◌++◌, length, some, Text,
  codes, arith, filter, if◌then◌else◌, Bool-cases, inl, inr, all,
}
use vanilla_bus.Prelude.Strings.{same}
use vanilla_bus.Engine.Types.{FrameEvent, FrameDir, rx, tx}
use vanilla_bus.Persist.{PersistedJobType, raw_job, dbc_job}
use vanilla_bus.Bridge.Types.{TxSendRequest, raw, dbc}
use vanilla_bus.Transmit.State.{TransmitModel, running}
use vanilla_bus.Transmit.Model.{
  Reply, no_api, failed, answered, step, TransmitEvent, drafts, dbc_drafts, selects, sends, starts,
  stops, batch_comes, bus_closes, resets, hydrates, sync_selected_bus, send_once, start_cyclic,
  set_last, stop_job, note_batch, mark_bus_closed, reset, hydrate_prefs, note_frames, tx_frames,
  is_tx, last_of,
}

unfoldable pub run : TransmitModel → List TransmitEvent → TransmitModel
run m [] = m
run m (event ∷ events) = run (step m event) events

abbrev pub is_reset : TransmitEvent → Bool
is_reset resets = true
is_reset (hydrates draft dbc_draft jobs) = true
is_reset _ = false

-- a call that had no answer or an error
abbrev pub fails {ℓ} : {A : Type ℓ} → Reply A → ℕ
fails no_api = 1
fails (failed error) = 1
fails (answered a) = 0

abbrev pub errors_of : TransmitEvent → ℕ
errors_of (sends request now reply) = fails reply
errors_of (starts meta reply) = fails reply
errors_of (stops job_id reply) = fails reply
errors_of _ = 0

abbrev transmitted : FrameDir → ℕ
transmitted tx = 1
transmitted rx = 0

-- the frames of a batch that were sent, one by one
abbrev pub sent_of : List FrameEvent → ℕ
sent_of [] = 0
sent_of (frame ∷ frames) = transmitted frame.dir + sent_of frames

abbrev pub frames_of : TransmitEvent → ℕ
frames_of (batch_comes batch) = sent_of batch.frames
frames_of _ = 0

abbrev pub total : (TransmitEvent → ℕ) → List TransmitEvent → ℕ
total f [] = 0
total f (event ∷ events) = f event + total f events

-- the counters after a step that does not reset
abbrev Adds : TransmitModel → TransmitModel → ℕ → ℕ → Type 0
Adds m n frames errors =
    (n.stats.tx_count ≡ m.stats.tx_count + frames) × (n.stats.errors ≡ m.stats.errors + errors)

stop_job-Adds :
    (id : Text) (reply : Reply (Unit {0})) (m : TransmitModel)
    → Adds m (stop_job id reply m) 0 (fails reply)
unfolding stop_job
stop_job-Adds id no_api m = (omega arith, omega arith)
stop_job-Adds id (answered ok) m = (omega arith, omega arith)
stop_job-Adds id (failed error) m = elim (Bool-cases (same error.code (codes "job_not_found"))) [
  | inl e ↦ rw (e, stop_job) (omega arith, omega arith)
  | inr e ↦ rw (e, stop_job) (omega arith, omega arith)
]

send_once-Adds :
    (request : TxSendRequest) (now : ℕ) (reply : Reply (Unit {0})) (m : TransmitModel)
    → Adds m (send_once request now reply m) 0 (fails reply)
unfolding send_once
send_once-Adds (raw r) now (answered ok) m = (omega arith, omega arith)
send_once-Adds (dbc r) now (answered ok) m = (omega arith, omega arith)
send_once-Adds request now no_api m = (omega arith, omega arith)
send_once-Adds request now (failed error) m = (omega arith, omega arith)

set_last-Adds :
    (t : PersistedJobType) (id : Text) (m : TransmitModel) → Adds m (set_last t id m) 0 0
set_last-Adds raw_job id m = (omega arith, omega arith)
set_last-Adds dbc_job id m = (omega arith, omega arith)

note_frames-Adds :
    (frames : List FrameEvent) (m : TransmitModel)
    → Adds m (note_frames frames (last_of frames) m) (length frames) 0
note_frames-Adds [] m = (omega arith, omega arith)
note_frames-Adds (f ∷ fs) m = let (last, e) = last_there f fs in rw e (omega arith, omega arith)
  where
    last_there :
        (f : FrameEvent) (fs : List FrameEvent) → (g : FrameEvent) × (last_of (f ∷ fs) ≡ some g)
    last_there f [] = (f, refl)
    last_there f (g ∷ fs) = last_there g fs

transmitted_cases : (d : FrameDir) → transmitted d ≡ (if is_tx d then 1 else 0)
transmitted_cases tx = refl
transmitted_cases rx = refl

length-tx_frames :
    (frames : List FrameEvent)
    → length (filter (λ (frame : FrameEvent). is_tx frame.dir) frames) ≡ sent_of frames
length-tx_frames [] = refl
length-tx_frames (frame ∷ frames) =
    ground (arith, length-tx_frames frames, transmitted_cases frame.dir)

sync_selected_bus-Adds : (name : Text) (m : TransmitModel) → Adds m (sync_selected_bus name m) 0 0
unfolding sync_selected_bus
sync_selected_bus-Adds [] m = (omega arith, omega arith)
sync_selected_bus-Adds (c ∷ name) m = (ground arith, ground arith)

step-Adds :
    (m : TransmitModel) (event : TransmitEvent)
    → is_reset event ≡ false
    → Adds m (step m event) (frames_of event) (errors_of event)
unfolding step start_cyclic note_batch mark_bus_closed
step-Adds m (drafts draft) h = (omega arith, omega arith)
step-Adds m (dbc_drafts draft) h = (omega arith, omega arith)
step-Adds m (selects name) h = sync_selected_bus-Adds name m
step-Adds m (sends request now reply) h = send_once-Adds request now reply m
step-Adds m (starts meta no_api) h = (omega arith, omega arith)
step-Adds m (starts meta (failed error)) h = (omega arith, omega arith)
step-Adds m (starts meta (answered job_id)) h =
    set_last-Adds meta.type_ job_id
      (record m { jobs = m.jobs ++ record meta { job_id = job_id; status = running } ∷ [] })
step-Adds m (stops id reply) h = stop_job-Adds id reply m
step-Adds m (batch_comes batch) h =
    rw (← length-tx_frames batch.frames) (note_frames-Adds (tx_frames batch) m)
step-Adds m (bus_closes bus_id) h = (omega arith, omega arith)
step-Adds m resets h = cc
step-Adds m (hydrates draft dbc_draft jobs) h = cc

run-Adds :
    (m : TransmitModel) (events : List TransmitEvent)
    → all (λ e. not (is_reset e)) events ≡ true
    → Adds m (run m events) (total frames_of events) (total errors_of events)
unfolding run
run-Adds m [] h = (omega arith, omega arith)
run-Adds m (event ∷ events) h =
    let (frames, errors) = step-Adds m event (ground arith) in
    let (more_frames, more_errors) = run-Adds (step m event) events (ground arith) in
    (omega (arith, frames, more_frames), omega (arith, errors, more_errors))

run-append : (m : TransmitModel) (xs ys : List TransmitEvent) → run m (xs ++ ys) ≡ run (run m xs) ys
unfolding run
run-append m [] ys = refl
run-append m (x ∷ xs) ys = run-append (step m x) xs ys

abbrev IsZeroed : TransmitModel → Type 0
IsZeroed m = (m.stats.tx_count ≡ 0) × (m.stats.errors ≡ 0)

step-IsZeroed :
    (m : TransmitModel) (event : TransmitEvent) → is_reset event ≡ true → IsZeroed (step m event)
unfolding step reset hydrate_prefs
step-IsZeroed m resets h = (refl, refl)
step-IsZeroed m (hydrates draft dbc_draft jobs) h = (refl, refl)
step-IsZeroed m _ h = cc

-- From a reset or a restored snapshot on, whatever came before it and until the next one, the view
-- counts the frames of all batches whose direction is `tx`, and every call that failed or had no
-- API, once each.
pub run-counts :
    (m : TransmitModel) (earlier later : List TransmitEvent) (event : TransmitEvent)
    → is_reset event ≡ true
    → all (λ e. not (is_reset e)) later ≡ true
    → (let n = run m (earlier ++ event ∷ later) in
        (n.stats.tx_count ≡ total frames_of later) × (n.stats.errors ≡ total errors_of later))
unfolding run
run-counts m earlier later event h k =
    let start = step (run m earlier) event in
    let (no_frames, no_errors) = step-IsZeroed (run m earlier) event h in
    let (frames, errors) = run-Adds start later k in
    let split = run-append m earlier (event ∷ later) in
    (
      ap (λ n. n.stats.tx_count) split ∙ omega (arith, frames, no_frames),
      ap (λ n. n.stats.errors) split ∙ omega (arith, errors, no_errors),
    )
