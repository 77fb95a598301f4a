-- ===== src/Transmit/Tests.antt =====
-- Runs of the parsers and of the Transmit view.
use vanilla_bus.Prelude.{ℕ, ◌≡◌, refl, true, false, codes, arith, ap, ◌<◌}
use vanilla_bus.Prelude.Strings.{same, trim, starts_with}
use vanilla_bus.Transmit.{
  ok, HexData, parse_int_from, without_prefix, check_id, parse_can_id_hex, check_data,
  parse_data_hex,
}
use vanilla_bus.Prelude.Int.{pos}
use vanilla_bus.Engine.Value.{integral}
use vanilla_bus.Engine.Types.{FrameEvent, FrameDir, rx, tx, RxBatch}
use vanilla_bus.Transmit.RoundTrip.{parse_can_id_hex-format_can_id_prefixed}
use vanilla_bus.Trace.Format.{format_can_id_prefixed}
use vanilla_bus.Transmit.Laws.{IsHexData, parse_data_hex-IsHexData}
use vanilla_bus.Trace.Format.{to_string}
use vanilla_bus.Prelude.{List, [], ◌∷◌, ◌++◌, ◌≢◌, none, Text}
use vanilla_bus.Persist.{raw_job}
use vanilla_bus.Client.State.{RequestError}
use vanilla_bus.Persist.Hints.{cyclic_job_definition_id}
use vanilla_bus.Transmit.State.{CyclicJob, TransmitModel, fresh_model, stopped}
use vanilla_bus.Transmit.Model.{
  no_api, failed, answered, TransmitEvent, starts, stops, batch_comes, resets, step, start_cyclic,
  reset, reset_from,
}
use vanilla_bus.Transmit.Jobs.{job_ids, AreIds}
use vanilla_bus.Transmit.Shown.{Shown, at_first, later, Shown-AreIds}
use vanilla_bus.Transmit.Stats.{run, run-counts, total, frames_of, errors_of}

-- an identifier with fewer digits than the eight of an extended one
parse_can_id_hex-format_can_id_prefixed_example :
    parse_can_id_hex (format_can_id_prefixed 0x1abc true)
    ≡ ok (record { value = 0x1abc; is_eff_hint = true })
parse_can_id_hex-format_can_id_prefixed_example =
    parse_can_id_hex-format_can_id_prefixed 0x1abc true (omega arith)

parse_engine_id :
    parse_can_id_hex (codes " 0X7e0 ") ≡ ok (record { value = 2016; is_eff_hint = false })
unfolding parse_can_id_hex trim without_prefix starts_with parse_int_from check_id
parse_engine_id = refl

abbrev two_bytes : HexData
two_bytes = record { hex = codes "02ff"; bytes = 2 }

parse_two_bytes : parse_data_hex (codes "02 FF") ≡ ok two_bytes
unfolding parse_data_hex trim without_prefix starts_with check_data
parse_two_bytes = refl

parse_data_hex-IsHexData_example : IsHexData two_bytes
parse_data_hex-IsHexData_example =
    parse_data_hex-IsHexData (codes "02 FF") two_bytes parse_two_bytes

abbrev meta : CyclicJob
meta = record {
  job_id = [];
  type_ = raw_job;
  bus_id = codes "b1";
  if_name = codes "vcan0";
  can_id = 291;
  is_eff = false;
  payload = codes "01";
  message = none;
  period_ms = 10;
  status = stopped;
}

not_own : (c : ℕ) (k : ℕ) → (c < 114) → (c ∷ []) ≢ cyclic_job_definition_id k
unfolding cyclic_job_definition_id
not_own c k h e = absurd (omega (arith, h, ap (head_or 0) e))
  where
    head_or : ℕ → Text → ℕ
    head_or z [] = z
    head_or z (c ∷ s) = c

-- a job, a disconnect and another job
abbrev two_jobs : TransmitModel
two_jobs =
    step (step (step fresh_model (starts meta (answered (codes "1")))) resets)
      (starts meta (answered (codes "2")))

two_jobs-Shown : Shown two_jobs
unfolding step start_cyclic reset reset_from cyclic_job_definition_id same
two_jobs-Shown =
    later (starts meta (answered (codes "2")))
      (later resets
        (later (starts meta (answered (codes "1"))) at_first
          (refl, λ k. not_own 49 k (omega arith)))
        tt)
      (refl, λ k. not_own 50 k (omega arith))

Shown-AreIds_example : AreIds (job_ids two_jobs.jobs)
Shown-AreIds_example = Shown-AreIds two_jobs-Shown

-- the first job is now a remembered one
two_job_ids : job_ids two_jobs.jobs ≡ codes "remembered-0" ∷ codes "2" ∷ []
unfolding step start_cyclic reset reset_from cyclic_job_definition_id to_string
two_job_ids = refl

abbrev missing : RequestError
missing = record { code = codes "job_not_found"; message = [] }

abbrev seen : FrameDir → FrameEvent
seen d = record {
  bus_id = codes "b1";
  if_name = codes "vcan0";
  ts_us = integral (pos 1000);
  can_id = 291;
  dlc = 1;
  payload = codes "01";
  is_eff = false;
  is_fd = false;
  brs = false;
  is_rtr = false;
  is_err = false;
  dir = d;
  rate_ms = none;
  decode = none;
}

-- a frame that was received between two that were sent
abbrev mixed : RxBatch
mixed = record { frames = seen tx ∷ seen rx ∷ seen tx ∷ []; dropped = pos 0 }

abbrev calls : List TransmitEvent
calls =
    stops (codes "1") (failed missing)
    ∷ batch_comes mixed
    ∷ starts meta no_api
    ∷ starts meta (answered (codes "2"))
    ∷ []

-- two frames and two errors
counted : (total frames_of calls ≡ 2) × (total errors_of calls ≡ 2)
counted = (refl, refl)

run-counts_example :
    (let n = run fresh_model ((starts meta no_api ∷ []) ++ resets ∷ calls) in
      (n.stats.tx_count ≡ total frames_of calls) × (n.stats.errors ≡ total errors_of calls))
run-counts_example = run-counts fresh_model (starts meta no_api ∷ []) calls resets refl refl
