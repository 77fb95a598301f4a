-- ===== src/Persist/Loops.antt =====
-- shared/persist.ts: the loops of `sanitizePersist`, each on any values.
use vanilla_bus.Prelude.{
  ℕ, ◌≤◌, ◌<◌, ◌≡◌, refl, true, not, ◌&&◌, ◌||◌, List, [], ◌∷◌, ◌++◌, Option, none, some, Text,
  codes, arith, length, length-append, contains, leb, ◌==◌, if◌then◌else◌, All, All-append,
  Bool-cases, inl, inr,
}
use vanilla_bus.Prelude.Int.{pos, negsuc}
use vanilla_bus.Prelude.Strings.{same}
use vanilla_bus.Prelude.Assoc.{IsDistinct, IsDistinct-snoc, keys, insert-IsDistinct, length-insert}
use vanilla_bus.Engine.Value.{
  Value, undefined, null, boolean, number, string, array, object, integral, fractional, nan,
  infinite, Fields, get, natural,
}
use vanilla_bus.Engine.Parse.{assign}
use vanilla_bus.Graph.Window.{is_graph_window_sec}
use vanilla_bus.Persist.{
  persist_max_selected, persist_max_jobs, persist_max_iface, persist_max_hex,
  persist_max_signal_keys, PersistedJobType, PersistedCyclicJob,
}
use vanilla_bus.Persist.Sanitize.{
  clamp_string, window_sec_of, collect_selected, collect_values, job_type, job_of, sanitize_job,
  note_job, collect_jobs,
}
use vanilla_bus.Persist.Bounds.{
  length-clamp_string, clamp_int-IsPeriod, IsName, some_nonempty-IsOptional, IsJob, Fine,
}

pub record IsSelected (keys_ : List Text) : Type 0 where
  pub few : length keys_ ≤ persist_max_selected
  pub once : IsDistinct keys_
  pub each : All (IsName 96) keys_

pub record IsJobs (jobs : List PersistedCyclicJob) : Type 0 where
  pub few : length jobs ≤ persist_max_jobs
  pub each : All IsJob jobs

pub window_sec_of_lem : (v : Value) → is_graph_window_sec (window_sec_of v) ≡ true
unfolding window_sec_of is_graph_window_sec
window_sec_of_lem (number (integral (pos n))) = ground arith
window_sec_of_lem (number (integral (negsuc n))) = refl
window_sec_of_lem (number (fractional z k)) = refl
window_sec_of_lem (number nan) = refl
window_sec_of_lem (number (infinite b)) = refl
window_sec_of_lem undefined = refl
window_sec_of_lem null = refl
window_sec_of_lem (boolean b) = refl
window_sec_of_lem (string s) = refl
window_sec_of_lem (array vs) = refl
window_sec_of_lem (object fs) = refl

select_next :
    (key : Text) (selected : List Text)
    → length key ≤ 96
    → length selected < persist_max_selected
    → IsSelected selected
    → IsSelected
        (if length key == 0 || contains key selected then selected else selected ++ key ∷ [])
select_next key selected short room h =
    elim (Bool-cases (length key == 0 || contains key selected)) [
      | inl e ↦ rw e h
      | inr e ↦ rw e (record {
        few = omega (arith, length-append selected (key ∷ []));
        once = IsDistinct-snoc selected key h.once (ground arith);
        each = All-append (IsName 96) selected (key ∷ []) h.each ((ground arith, short), tt);
      })
    ]

pub collect_selected-IsSelected :
    (vs : List Value) (selected : List Text)
    → length selected < persist_max_selected
    → IsSelected selected
    → IsSelected (collect_selected vs selected)
unfolding collect_selected
collect_selected-IsSelected [] selected room h = h
collect_selected-IsSelected (v ∷ vs) selected room h =
    let key = clamp_string v 96 [] in
    let skip = length key == 0 || contains key selected in
    let next = if skip then selected else selected ++ key ∷ [] in
    let good = select_next key selected (length-clamp_string v 96 [] (omega arith)) room h in
    elim (Bool-cases (not skip && leb persist_max_selected (length next))) [
      | inl e ↦ rw e good
      | inr e ↦ rw e (collect_selected-IsSelected vs next (ground arith) good)
    ]

abbrev pub IsValues : List (Text × Text) → Type 0
IsValues values = (length values ≤ persist_max_signal_keys) × IsDistinct (keys values)

assign-IsValues :
    (name value : Text) (values : List (Text × Text))
    → length values < persist_max_signal_keys
    → IsValues values
    → IsValues (assign name value values)
unfolding assign
assign-IsValues name value values room (few, once) =
    elim (Bool-cases (same name (codes "__proto__"))) [
      | inl e ↦ rw e (few, once)
      | inr e ↦ rw e (
        ground (arith, length-insert name value values),
        insert-IsDistinct name value values once,
      )
    ]

value_next :
    (name value : Text) (values : List (Text × Text))
    → length values < persist_max_signal_keys
    → IsValues values
    → IsValues (if length name == 0 then values else assign name value values)
value_next name value values room h = elim (Bool-cases (length name == 0)) [
  | inl e ↦ rw e h
  | inr e ↦ rw e (assign-IsValues name value values room h)
]

pub collect_values-IsValues :
    (fs : List (Text × Value)) (values : List (Text × Text))
    → length values < persist_max_signal_keys
    → IsValues values
    → IsValues (collect_values fs values)
unfolding collect_values
collect_values-IsValues [] values room h = h
collect_values-IsValues ((key, v) ∷ fs) values room h =
    let name = clamp_string (string key) 64 [] in
    let skip = length name == 0 in
    let next = if skip then values else assign name (clamp_string v 64 []) values in
    let good = value_next name (clamp_string v 64 []) values room h in
    elim (Bool-cases (not skip && leb persist_max_signal_keys (length next))) [
      | inl e ↦ rw e good
      | inr e ↦ rw e (collect_values-IsValues fs next (ground arith) good)
    ]

job_of-Fine :
    (fs : Fields) (kind : Option PersistedJobType) (s : Text) (id : Option ℕ)
    → length s ≤ persist_max_iface
    → Fine IsJob (job_of fs kind s id)
unfolding job_of
job_of-Fine fs none s id h = tt
job_of-Fine fs (some kind) [] id h = tt
job_of-Fine fs (some kind) (c ∷ s) none h = tt
job_of-Fine fs (some kind) (c ∷ s) (some id) h = record {
  interface = (omega arith, h);
  short = length-clamp_string (get (codes "data") fs) persist_max_hex [] (omega arith);
  message =
      some_nonempty-IsOptional 96 (clamp_string (get (codes "message") fs) 96 [])
        (length-clamp_string (get (codes "message") fs) 96 [] (omega arith));
  period = clamp_int-IsPeriod (get (codes "periodMs") fs);
}

pub sanitize_job-Fine : (v : Value) → Fine IsJob (sanitize_job v)
unfolding sanitize_job
sanitize_job-Fine (object fs) =
    job_of-Fine fs (job_type (get (codes "type") fs))
      (clamp_string (get (codes "ifName") fs) persist_max_iface [])
      (natural (get (codes "canId") fs))
      (length-clamp_string (get (codes "ifName") fs) persist_max_iface [] (omega arith))
sanitize_job-Fine undefined = tt
sanitize_job-Fine null = tt
sanitize_job-Fine (boolean b) = tt
sanitize_job-Fine (number n) = tt
sanitize_job-Fine (string s) = tt
sanitize_job-Fine (array vs) = tt

note_job-IsJobs :
    (job : Option PersistedCyclicJob) (jobs : List PersistedCyclicJob)
    → Fine IsJob job
    → length jobs < persist_max_jobs
    → IsJobs jobs
    → IsJobs (note_job job jobs)
unfolding note_job
note_job-IsJobs none jobs fine room h = h
note_job-IsJobs (some job) jobs fine room h = record {
  few = omega (arith, length-append jobs (job ∷ []));
  each = All-append IsJob jobs (job ∷ []) h.each (fine, tt);
}

pub collect_jobs-IsJobs :
    (vs : List Value) (jobs : List PersistedCyclicJob)
    → length jobs < persist_max_jobs
    → IsJobs jobs
    → IsJobs (collect_jobs vs jobs)
unfolding collect_jobs
collect_jobs-IsJobs [] jobs room h = h
collect_jobs-IsJobs (v ∷ vs) jobs room h =
    let next = note_job (sanitize_job v) jobs in
    let good = note_job-IsJobs (sanitize_job v) jobs (sanitize_job-Fine v) room h in
    elim (Bool-cases (leb persist_max_jobs (length next))) [
      | inl e ↦ rw e good
      | inr e ↦ rw e (collect_jobs-IsJobs vs next (ground arith) good)
    ]
