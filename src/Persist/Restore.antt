-- ===== src/Persist/Restore.antt =====
-- shared/persist.ts: a whole snapshot that is written as an object and sanitized again.
use vanilla_bus.Prelude.{
  ℕ, ◌+◌, ◌≤◌, ◌<◌, ◌≡◌, refl, sym, ◌∙◌, List, [], ◌∷◌, ◌++◌, Option, none, some, Text, codes,
  arith, length, length-append, ltb, leb, append_assoc, append-nil, All, Bool-cases, inl, inr,
}
use vanilla_bus.Prelude.Int.{pos}
use vanilla_bus.Prelude.Strings.{same}
use vanilla_bus.Engine.Value.{Value, undefined, string, number, integral, Fields, end, field, get}
use vanilla_bus.Persist.{
  persist_max_jobs, persist_max_path, persist_max_iface, persist_max_hex, persist_max_filter,
  PersistedTracePrefs, PersistedJobType, PersistedSendMode, raw_job, dbc_job, oneshot, cyclic,
  PersistedCyclicJob, PersistSnapshot,
}
use vanilla_bus.Persist.Sanitize.{
  clamp_string, clamp_int, as_bool, some_nonempty, mode_of, job_type, job_of, sanitize_job,
  note_job, collect_jobs, window_sec_of, sanitize_trace, sanitize_graph, sanitize_raw_draft,
  sanitize_dbc_draft, sanitize_persist,
}
use vanilla_bus.Persist.Build.{
  of_hints, of_trace, of_graph, of_mode, of_raw_draft, of_texts, of_dbc_draft, of_job_type,
  message_field, of_job, of_jobs, of_snapshot,
}
use vanilla_bus.Persist.Bounds.{IsName, IsOptional, IsPeriod, IsJob}
use vanilla_bus.Persist.Sound.{IsSnapshot}
use vanilla_bus.Persist.RoundTrip.{
  IsTrimmed, IsTrimmedOptional, IsTrimmedHint, IsText, IsValue, clamp_string_kept,
  clamp_string_text, items-items_of, collect_hints_kept, collect_selected_kept, collect_values_kept,
  nil_of-length,
}

clamp_int_kept : (n : ℕ) → IsPeriod n → clamp_int (number (integral (pos n))) 1 3600000 100 ≡ n
unfolding clamp_int
clamp_int_kept n (low, high) = omega arith

-- what `sanitizeJob` reads of the two last fields
abbrev message_value : Option Text → Value
message_value none = undefined
message_value (some message) = string message

get-message_field :
    (m : Option Text) (period : Value)
    → get (codes "message") (message_field m (field (codes "periodMs") period end))
      ≡ message_value m
unfolding get same
get-message_field none period = refl
get-message_field (some message) period = refl

get_past-message_field :
    (m : Option Text) (period : Value)
    → get (codes "periodMs") (message_field m (field (codes "periodMs") period end)) ≡ period
unfolding get same
get_past-message_field none period = refl
get_past-message_field (some message) period = refl

message_kept :
    (m : Option Text)
    → IsTrimmedOptional m
    → IsOptional 96 m
    → some_nonempty (clamp_string (message_value m) 96 []) ≡ m
message_kept none t h = refl
message_kept (some []) t h = absurd (omega arith)
message_kept (some (c ∷ s)) t h = rw (clamp_string_kept (c ∷ s) 96 [] t h) refl

job_type_kept : (t : PersistedJobType) → job_type (string (of_job_type t)) ≡ some t
unfolding job_type same
job_type_kept raw_job = refl
job_type_kept dbc_job = refl

mode_kept : (m : PersistedSendMode) → mode_of (string (of_mode m)) ≡ m
unfolding mode_of same
mode_kept oneshot = refl
mode_kept cyclic = refl

-- a job without white space at the ends of its texts
pub record IsTrimmedJob (job : PersistedCyclicJob) : Type 0 where
  pub interface : IsTrimmed job.if_name
  pub bytes_text : IsTrimmed job.bytes
  pub message : IsTrimmedOptional job.message

job_made :
    (fs : Fields) (kind : PersistedJobType) (s : Text) (id : ℕ)
    → 0 < length s
    → job_of fs (some kind) s (some id)
      ≡ some (record {
        type_ = kind;
        if_name = s;
        can_id = id;
        is_eff = as_bool (get (codes "isEff") fs) (ltb 2047 id);
        bytes = clamp_string (get (codes "data") fs) persist_max_hex [];
        message = some_nonempty (clamp_string (get (codes "message") fs) 96 []);
        period_ms = clamp_int (get (codes "periodMs") fs) 1 3600000 100;
      })
unfolding job_of
job_made fs kind [] id h = absurd (omega arith)
job_made fs kind (c ∷ s) id h = refl

sanitize_job_kept :
    (job : PersistedCyclicJob) → IsJob job → IsTrimmedJob job → sanitize_job (of_job job) ≡ some job
unfolding sanitize_job get same
sanitize_job_kept job h t =
    rw
      (
        job_type_kept job.type_,
        clamp_string_kept job.if_name persist_max_iface [] t.interface h.interface,
        job_made _ job.type_ job.if_name job.can_id h.interface.0,
        clamp_string_text job.bytes persist_max_hex (t.bytes_text, h.short),
        get-message_field job.message (number (integral (pos job.period_ms))),
        get_past-message_field job.message (number (integral (pos job.period_ms))),
        message_kept job.message t.message h.message,
        clamp_int_kept job.period_ms h.period,
      )
      refl

collect_jobs_kept :
    (jobs out : List PersistedCyclicJob)
    → All IsJob jobs
    → All IsTrimmedJob jobs
    → length out + length jobs ≤ persist_max_jobs
    → collect_jobs (of_jobs jobs) out ≡ out ++ jobs
unfolding collect_jobs note_job
collect_jobs_kept [] out h t room = sym (append-nil out)
collect_jobs_kept (job ∷ jobs) out (h, hs) (t, ts) room =
    let next = out ++ job ∷ [] in
    let longer = length-append out (job ∷ []) in
    rw (sanitize_job_kept job h t, collect_jobs)
      (elim (Bool-cases (leb persist_max_jobs (length next))) [
        | inl e ↦ rw (e, nil_of-length jobs (ground (arith, e, longer))) refl
        | inr e ↦ rw e (
            collect_jobs_kept jobs next hs ts (omega (arith, longer))
            ∙ append_assoc out (job ∷ []) jobs)
      ])

-- A snapshot as the application leaves it: no text has white space at its ends, and the texts that
-- have a default are not empty.
pub record IsTidy (s : PersistSnapshot) : Type 0 where
  pub bus : IsTrimmed s.last_bus_name × IsName persist_max_iface s.last_bus_name
  pub path : IsTrimmed s.last_dbc_path × IsName persist_max_path s.last_dbc_path
  pub hints : All IsTrimmedHint s.buses
  pub filter : IsTrimmed s.trace.filter
  pub selected : All IsTrimmed s.graph.selected
  pub raw_bus : IsTrimmed s.tx_raw.bus_name × IsName persist_max_iface s.tx_raw.bus_name
  pub raw_id : IsTrimmed s.tx_raw.id_hex × IsName 24 s.tx_raw.id_hex
  pub raw_bytes : IsTrimmed s.tx_raw.data_hex × IsName persist_max_hex s.tx_raw.data_hex
  pub message : IsTrimmed s.tx_dbc.message
  pub values : All (λ e. IsValue e.0 e.1) s.tx_dbc.values
  pub jobs : All IsTrimmedJob s.cyclic_jobs

sanitize_trace_kept :
    (p : PersistedTracePrefs) → IsText persist_max_filter p.filter → sanitize_trace (of_trace p) ≡ p
unfolding sanitize_trace get same
sanitize_trace_kept p h = rw (clamp_string_text p.filter persist_max_filter h) refl

sanitize_graph_kept :
    (s : PersistSnapshot) → IsSnapshot s → IsTidy s → sanitize_graph (of_graph s.graph) ≡ s.graph
unfolding sanitize_graph window_sec_of get same
sanitize_graph_kept s h t =
    rw
      (
        h.window,
        items-items_of (of_texts s.graph.selected),
        collect_selected_kept s.graph.selected [] h.selected.each t.selected h.selected.once
            (omega (arith, h.selected.few)),
      )
      refl

sanitize_raw_draft_kept :
    (s : PersistSnapshot)
    → IsSnapshot s
    → IsTidy s
    → sanitize_raw_draft (of_raw_draft s.tx_raw) ≡ s.tx_raw
unfolding sanitize_raw_draft get same
sanitize_raw_draft_kept s h t =
    rw
      (
        clamp_string_kept s.tx_raw.bus_name persist_max_iface (codes "vcan0") t.raw_bus.0
            t.raw_bus.1,
        clamp_string_kept s.tx_raw.id_hex 24 (codes "0x7E0") t.raw_id.0 t.raw_id.1,
        clamp_string_kept s.tx_raw.data_hex persist_max_hex (codes "02 10 0C 00 00 00 00 00")
            t.raw_bytes.0 t.raw_bytes.1,
        mode_kept s.tx_raw.mode,
        clamp_int_kept s.tx_raw.period_ms h.raw.period,
      )
      refl

sanitize_dbc_draft_kept :
    (s : PersistSnapshot)
    → IsSnapshot s
    → IsTidy s
    → sanitize_dbc_draft (of_dbc_draft s.tx_dbc) ≡ s.tx_dbc
unfolding sanitize_dbc_draft get same
sanitize_dbc_draft_kept s h t =
    rw
      (
        clamp_string_text s.tx_dbc.message 96 (t.message, h.dbc.message),
        collect_values_kept s.tx_dbc.values [] t.values h.dbc.once (omega (arith, h.dbc.few)),
        clamp_int_kept s.tx_dbc.period_ms h.dbc.period,
      )
      refl

-- A snapshot within the bounds, in which no text has white space at its ends and no text that has a
-- default is empty, comes back as it was when it is written as an object and sanitized again.
pub sanitize_persist-of_snapshot :
    (s : PersistSnapshot) → IsSnapshot s → IsTidy s → sanitize_persist (of_snapshot s) ≡ s
unfolding sanitize_persist of_snapshot get same
sanitize_persist-of_snapshot s h t =
    rw
      (
        clamp_string_kept s.last_bus_name persist_max_iface (codes "vcan0") t.bus.0 t.bus.1,
        clamp_string_kept s.last_dbc_path persist_max_path (codes "fixtures/dbc/sample.dbc")
            t.path.0 t.path.1,
        items-items_of (of_hints s.buses),
        collect_hints_kept s.buses [] h.buses.each t.hints h.buses.once
            (omega (arith, h.buses.few)),
        sanitize_trace_kept s.trace (t.filter, h.filter),
        sanitize_graph_kept s h t,
        sanitize_raw_draft_kept s h t,
        sanitize_dbc_draft_kept s h t,
        items-items_of (of_jobs s.cyclic_jobs),
        collect_jobs_kept s.cyclic_jobs [] h.jobs.each t.jobs (omega (arith, h.jobs.few)),
      )
      refl
