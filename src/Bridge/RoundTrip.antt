-- ===== src/Bridge/RoundTrip.antt =====
-- electron/main/ipc-bridge.ts and electron/main/engineSupervisor.ts: a request to transmit on its way
-- from the renderer to the engine.
use vanilla_bus.Prelude.{
  ℕ, zero, suc, ◌<◌, ◌≡◌, ◌≢◌, refl, sym, ap, ap₂, ◌∙◌, Bool, true, false, not, List, [], ◌∷◌, ◌++◌,
  Option, some, Text, codes, All, arith, length, ◌==◌, append-nil, append_assoc,
}
use mathlib.Core.Path.{subst}
use vanilla_bus.Prelude.Int.{ℤ, pos}
use vanilla_bus.Prelude.Strings.{same}
use vanilla_bus.Prelude.Assoc.{keys, IsDistinct}
use vanilla_bus.Engine.Value.{
  Value, boolean, string, object, Fields, end, field, get, nonempty_string, natural,
}
use vanilla_bus.Engine.Types.{SignalValue}
use vanilla_bus.Engine.Parse.RoundTrip.{
  fields_of, of_signal, of_signals, entries-fields_of, signal_value-of_signal, not-proto,
  later_fresh, keys_moved, assign_fresh, nonempty,
}
use vanilla_bus.Bridge.Types.{
  TxRawSendRequest, TxDbcSendRequest, TxSendRequest, raw, dbc, TxCyclicStartRequest, Checked, ok,
  refused,
}
use vanilla_bus.Bridge.Requests.{
  parse_optional_bool, tx_signals_from, dbc_request, request_on, request_of, parse_tx_send_request,
  period_of, with_period, parse_tx_cyclic_start_request,
}
use vanilla_bus.Bridge.Sound.{
  IsTxSignal, IsTxRequest, IsTxCyclic, tx_signals_from-cons, Lets, parse_tx_send_request-Lets,
}
use vanilla_bus.Supervisor.Payload.{
  an_integer, raw_payload, tx_payload, send_payload, cyclic_payload,
}
use vanilla_bus.Bridge.Options.{get-opt_field_other, read_bool, read_integer, IsApart, get-options}

tx_signals_from-of_signals :
    (m out : List (Text × SignalValue))
    → All (λ e. IsTxSignal e.0 e.1) m
    → IsDistinct (keys out ++ keys m)
    → tx_signals_from (of_signals m) out ≡ some (out ++ m)
unfolding tx_signals_from
tx_signals_from-of_signals [] out h d = ap some (sym (append-nil out))
tx_signals_from-of_signals (([], s) ∷ m) out h d = absurd (h.0.0 refl)
tx_signals_from-of_signals ((c ∷ k, s) ∷ m) out ((named, h), hs) d =
    tx_signals_from-cons c k (of_signal s) s (of_signals m) out (signal_value-of_signal (c ∷ k) s h)
    ∙ ap (tx_signals_from (of_signals m)) (
        assign_fresh SignalValue (c ∷ k) s out (not-proto (c ∷ k) s h)
          (later_fresh (keys out) (c ∷ k) (keys m) d))
    ∙ tx_signals_from-of_signals m (out ++ (c ∷ k, s) ∷ []) hs
        (keys_moved SignalValue out m (c ∷ k) s d)
    ∙ ap some (append_assoc out ((c ∷ k, s) ∷ []) m)

abbrev rebuilt :
    TxRawSendRequest
    → Option ℤ
    → Option Bool
    → Option Bool
    → Option Bool
    → Option Bool
    → Checked TxSendRequest
rebuilt r dlc eff rtr fd brs =
    ok (raw (record r { dlc = dlc; is_eff = eff; is_rtr = rtr; is_fd = fd; brs = brs }))

raw_payload-again :
    (r : TxRawSendRequest) (rest : Fields)
    → r.bus_id ≢ []
    → IsApart rest
    → parse_tx_send_request (object (raw_payload r rest)) ≡ ok (raw r)
unfolding get same
raw_payload-again r rest h (message, dlc, eff, rtr, fd, brs) =
    let P = raw_payload r rest in
    let no_message = get-options (codes "message") r rest refl refl refl refl refl ∙ message in
    let other = λ (k j : Text) (o : Option Bool) (more : Fields) (e : same j k ≡ false).
      get-opt_field_other k j boolean o more e in
    let dlc_eq = read_integer (codes "dlc") r.dlc _ (
      other (codes "dlc") (codes "is_eff") r.is_eff _ refl
      ∙ other (codes "dlc") (codes "is_rtr") r.is_rtr _ refl
      ∙ other (codes "dlc") (codes "is_fd") r.is_fd _ refl
      ∙ other (codes "dlc") (codes "brs") r.brs _ refl
      ∙ dlc) in
    let skip_dlc = λ (k : Text) (more : Fields) (e : same (codes "dlc") k ≡ false).
      get-opt_field_other k (codes "dlc") an_integer r.dlc more e in
    let eff_eq =
      ap parse_optional_bool (skip_dlc (codes "is_eff") _ refl)
      ∙ read_bool (codes "is_eff") r.is_eff _ (
          other (codes "is_eff") (codes "is_rtr") r.is_rtr _ refl
          ∙ other (codes "is_eff") (codes "is_fd") r.is_fd _ refl
          ∙ other (codes "is_eff") (codes "brs") r.brs _ refl
          ∙ eff) in
    let rtr_eq =
      ap parse_optional_bool
        (skip_dlc (codes "is_rtr") _ refl ∙ other (codes "is_rtr") (codes "is_eff") r.is_eff _ refl)
      ∙ read_bool (codes "is_rtr") r.is_rtr _ (
          other (codes "is_rtr") (codes "is_fd") r.is_fd _ refl
          ∙ other (codes "is_rtr") (codes "brs") r.brs _ refl
          ∙ rtr) in
    let fd_eq =
      ap parse_optional_bool (
        skip_dlc (codes "is_fd") _ refl
        ∙ other (codes "is_fd") (codes "is_eff") r.is_eff _ refl
        ∙ other (codes "is_fd") (codes "is_rtr") r.is_rtr _ refl)
      ∙ read_bool (codes "is_fd") r.is_fd _
          (other (codes "is_fd") (codes "brs") r.brs _ refl ∙ fd) in
    let brs_eq =
      ap parse_optional_bool (
        skip_dlc (codes "brs") _ refl
        ∙ other (codes "brs") (codes "is_eff") r.is_eff _ refl
        ∙ other (codes "brs") (codes "is_rtr") r.is_rtr _ refl
        ∙ other (codes "brs") (codes "is_fd") r.is_fd _ refl)
      ∙ read_bool (codes "brs") r.brs _ brs in
    ap (λ b. request_of b P) (nonempty r.bus_id h)
    ∙ ap (λ m. request_on r.bus_id (nonempty_string m) P) no_message
    ∙ ap
        (λ d.
          rebuilt r d (parse_optional_bool (get (codes "is_eff") P))
            (parse_optional_bool (get (codes "is_rtr") P))
            (parse_optional_bool (get (codes "is_fd") P))
            (parse_optional_bool (get (codes "brs") P)))
        dlc_eq
    ∙ ap₂
        (λ a b.
          rebuilt r r.dlc a b (parse_optional_bool (get (codes "is_fd") P))
            (parse_optional_bool (get (codes "brs") P)))
        eff_eq rtr_eq
    ∙ ap₂ (λ c d. rebuilt r r.dlc r.is_eff r.is_rtr c d) fd_eq brs_eq

has_length : (s : Text) → s ≢ [] → not (length s == 0) ≡ true
has_length [] h = absurd (h refl)
has_length (c ∷ s) h = ground arith

abbrev dbc_fields : TxDbcSendRequest → Fields → Fields
dbc_fields r rest = field (codes "busId") (string r.bus_id) (
    field (codes "message") (string r.message)
      (field (codes "signals") (object (fields_of (of_signals r.signals))) rest))

tx_payload-dbc :
    (r : TxDbcSendRequest) (rest : Fields)
    → r.message ≢ []
    → tx_payload (dbc r) rest ≡ dbc_fields r rest
tx_payload-dbc r rest h = rw (has_length r.message h) refl

dbc_payload-again :
    (r : TxDbcSendRequest) (rest : Fields)
    → IsTxRequest (dbc r)
    → parse_tx_send_request (object (tx_payload (dbc r) rest)) ≡ ok (dbc r)
unfolding get same
dbc_payload-again r rest (bus, message, fine, once) =
    let P = dbc_fields r rest in
    ap (λ fs. parse_tx_send_request (object fs)) (tx_payload-dbc r rest message)
    ∙ ap (λ b. request_of b P) (nonempty r.bus_id bus)
    ∙ ap (λ m. request_on r.bus_id m P) (nonempty r.message message)
    ∙ ap (dbc_request r.bus_id r.message) (
        ap (λ es. tx_signals_from es []) (entries-fields_of (of_signals r.signals))
        ∙ tx_signals_from-of_signals r.signals [] fine once)

tx_payload-again :
    (r : TxSendRequest) (rest : Fields)
    → IsTxRequest r
    → IsApart rest
    → parse_tx_send_request (object (tx_payload r rest)) ≡ ok r
tx_payload-again (raw r) rest h apart = raw_payload-again r rest h apart
tx_payload-again (dbc r) rest h apart = dbc_payload-again r rest h

-- the fields of a payload do not hide what stands behind it
get-tx_payload :
    (r : TxSendRequest) (rest : Fields)
    → IsTxRequest r
    → get (codes "period_ms") (tx_payload r rest) ≡ get (codes "period_ms") rest
unfolding get same
get-tx_payload (raw r) rest h = get-options (codes "period_ms") r rest refl refl refl refl refl
get-tx_payload (dbc r) rest h = ap (get (codes "period_ms")) (tx_payload-dbc r rest h.1)

cyclic_payload-again :
    (r : TxCyclicStartRequest)
    → IsTxCyclic r
    → parse_tx_cyclic_start_request (object (cyclic_payload r)) ≡ ok r
unfolding get same
cyclic_payload-again r (h, positive) =
    let rest = field (codes "period_ms") (an_integer (pos r.period_ms)) end in
    ap₂ (λ q v. with_period q (period_of (natural v)))
      (tx_payload-again r.request rest h (refl, refl, refl, refl, refl, refl))
      (get-tx_payload r.request rest h)
    ∙ ap (with_period (ok r.request)) (positive_period r.period_ms positive)
  where
    positive_period : (n : ℕ) → 0 < n → period_of (some n) ≡ some n
    positive_period zero p = absurd (omega arith)
    positive_period (suc n) p = refl

send_payload-again :
    (r : TxSendRequest) → IsTxRequest r → parse_tx_send_request (object (send_payload r)) ≡ ok r
unfolding get
send_payload-again r h = tx_payload-again r end h (refl, refl, refl, refl, refl, refl)

IsTxRequest-Lets :
    (c : Checked TxSendRequest) (r : TxSendRequest) → Lets IsTxRequest c → c ≡ ok r → IsTxRequest r
IsTxRequest-Lets (ok b) r h e = let same_request : b ≡ r = cc in subst IsTxRequest same_request h
IsTxRequest-Lets (refused error) r h e = cc

-- What the bridge lets through reaches the engine unchanged. Whatever the renderer sent: the payload
-- that the supervisor sends for the request that `parseTxSendRequest` made of it is one that
-- `parseTxSendRequest` reads as that same request; and with a period of at least 1 ms, the payload for
-- the cyclic request is one that `parseTxCyclicStartRequest` reads as that same request and period.
pub payload-again :
    (v : Value) (r : TxSendRequest) (period_ms : ℕ)
    → parse_tx_send_request v ≡ ok r
    → 0 < period_ms
    → (let cyclic : TxCyclicStartRequest = record { request = r; period_ms = period_ms } in
        (parse_tx_send_request (object (send_payload r)) ≡ ok r)
        × (parse_tx_cyclic_start_request (object (cyclic_payload cyclic)) ≡ ok cyclic))
payload-again v r period_ms e positive =
    let h = IsTxRequest-Lets (parse_tx_send_request v) r (parse_tx_send_request-Lets v) e in
    (
      send_payload-again r h,
      cyclic_payload-again (record { request = r; period_ms = period_ms }) (h, positive),
    )
