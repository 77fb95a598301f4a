-- ===== src/Bridge/Sound.antt =====
-- electron/main/ipc-bridge.ts: the requests to transmit that the validators let through.
use vanilla_bus.Prelude.{
  ℕ, zero, suc, ◌<◌, ◌≡◌, ◌≢◌, refl, sym, ◌∙◌, List, [], ◌∷◌, Option, none, some, Text, codes, All,
  arith, Option-cases, inl, inr,
}
use mathlib.Core.Path.{subst}
use mathlib.Core.Option.{some-injective}
use vanilla_bus.Prelude.Assoc.{keys, IsDistinct}
use vanilla_bus.Engine.Value.{
  Value, undefined, null, boolean, number, string, array, object, Fields, entries, get,
  nonempty_string,
}
use vanilla_bus.Engine.Types.{SignalValue}
use vanilla_bus.Engine.Parse.{assign, signal_value}
use vanilla_bus.Engine.Parse.Sound.{
  IsSignal, signal_value-IsSignal, assign_keeps, nonempty_string-ne,
}
use vanilla_bus.Bridge.Types.{TxSendRequest, raw, dbc, TxCyclicStartRequest, Checked, ok, refused}
use vanilla_bus.Bridge.Requests.{
  tx_signals_from, parse_tx_signals, dbc_request, raw_request, request_on, request_of,
  parse_tx_send_request, period_of, with_period, parse_tx_cyclic_start_request,
}

abbrev pub IsTxSignal : Text → SignalValue → Type 0
IsTxSignal k s = (k ≢ []) × IsSignal k s

-- A request that the engine can be asked for: a bus, and for a message of the DBC its name and
-- signals that have names, are finite and occur once.
abbrev pub IsTxRequest : TxSendRequest → Type 0
IsTxRequest (raw r) = r.bus_id ≢ []
IsTxRequest (dbc r) =
    (r.bus_id ≢ [])
    × (r.message ≢ [])
    × All (λ e. IsTxSignal e.0 e.1) r.signals
    × IsDistinct (keys r.signals)

abbrev pub IsTxCyclic : TxCyclicStartRequest → Type 0
IsTxCyclic r = IsTxRequest r.request × (0 < r.period_ms)

-- what a check lets through
abbrev pub Lets {ℓ} : {A : Type ℓ} → (A → Type 0) → Checked A → Type 0
Lets P (ok a) = P a
Lets P (refused error) = Unit {0}

abbrev AreSignals : List (Text × SignalValue) → Type 0
AreSignals m = All (λ e. IsTxSignal e.0 e.1) m × IsDistinct (keys m)

pub tx_signals_from-cons :
    (c : ℕ) (k : Text) (v : Value) (s : SignalValue) (fs : List (Text × Value))
    (out : List (Text × SignalValue))
    → signal_value v ≡ some s
    → tx_signals_from ((c ∷ k, v) ∷ fs) out ≡ tx_signals_from fs (assign (c ∷ k) s out)
unfolding tx_signals_from
tx_signals_from-cons c k v s fs out n = rw (n, tx_signals_from) refl

tx_signals_from-AreSignals :
    (fs : List (Text × Value)) (out : List (Text × SignalValue)) {m : List (Text × SignalValue)}
    → AreSignals out
    → tx_signals_from fs out ≡ some m
    → AreSignals m
unfolding tx_signals_from
tx_signals_from-AreSignals [] out h e = subst AreSignals (some-injective out _ e) h
tx_signals_from-AreSignals (([], v) ∷ fs) out h e = cc
tx_signals_from-AreSignals ((c ∷ k, v) ∷ fs) out {m} h e = elim (Option-cases (signal_value v)) [
  | inl n ↦ absurd (ground (arith, n))
  | inr (s, n) ↦
      tx_signals_from-AreSignals fs (assign (c ∷ k) s out)
        (assign_keeps IsTxSignal (c ∷ k) s out
          (λ j p q. (λ z. cc (sym q ∙ z), signal_value-IsSignal j v p n)) h)
        (sym (tx_signals_from-cons c k v s fs out n) ∙ e)
]

parse_tx_signals-AreSignals :
    (v : Value) {m : List (Text × SignalValue)} → parse_tx_signals v ≡ some m → AreSignals m
parse_tx_signals-AreSignals undefined {m} e = subst AreSignals (some-injective [] m e) (tt, tt)
parse_tx_signals-AreSignals null {m} e = subst AreSignals (some-injective [] m e) (tt, tt)
parse_tx_signals-AreSignals (object fs) e = tx_signals_from-AreSignals (entries fs) [] (tt, tt) e
parse_tx_signals-AreSignals (boolean b) e = cc
parse_tx_signals-AreSignals (number n) e = cc
parse_tx_signals-AreSignals (string s) e = cc
parse_tx_signals-AreSignals (array vs) e = cc

raw_request-Lets :
    (bus_id : Text) (fs : Fields) (can_id : Option ℕ) (payload : Option Text)
    → bus_id ≢ []
    → Lets IsTxRequest (raw_request bus_id fs can_id payload)
raw_request-Lets bus_id fs none payload h = tt
raw_request-Lets bus_id fs (some can_id) none h = tt
raw_request-Lets bus_id fs (some can_id) (some payload) h = h

dbc_request-Lets :
    (bus_id message : Text) (signals : Option (List (Text × SignalValue)))
    → bus_id ≢ []
    → message ≢ []
    → ((m : List (Text × SignalValue)) → signals ≡ some m → AreSignals m)
    → Lets IsTxRequest (dbc_request bus_id message signals)
dbc_request-Lets bus_id message none h k m = tt
dbc_request-Lets bus_id message (some signals) h k m =
    (h, k, (m signals refl).0, (m signals refl).1)

request_on-Lets :
    (bus_id : Text) (message : Option Text) (fs : Fields)
    → bus_id ≢ []
    → ((s : Text) → message ≡ some s → s ≢ [])
    → Lets IsTxRequest (request_on bus_id message fs)
request_on-Lets bus_id none fs h k = raw_request-Lets bus_id fs _ _ h
request_on-Lets bus_id (some message) fs h k =
    dbc_request-Lets bus_id message _ h (k message refl)
      (λ m e. parse_tx_signals-AreSignals (get (codes "signals") fs) e)

request_of-Lets :
    (bus_id : Option Text) (fs : Fields)
    → ((s : Text) → bus_id ≡ some s → s ≢ [])
    → Lets IsTxRequest (request_of bus_id fs)
request_of-Lets none fs h = tt
request_of-Lets (some bus_id) fs h =
    request_on-Lets bus_id (nonempty_string (get (codes "message") fs)) fs (h bus_id refl)
      (λ s e. nonempty_string-ne (get (codes "message") fs) e)

pub parse_tx_send_request-Lets : (v : Value) → Lets IsTxRequest (parse_tx_send_request v)
parse_tx_send_request-Lets (object fs) =
    request_of-Lets (nonempty_string (get (codes "busId") fs)) fs
      (λ s e. nonempty_string-ne (get (codes "busId") fs) e)
parse_tx_send_request-Lets undefined = tt
parse_tx_send_request-Lets null = tt
parse_tx_send_request-Lets (boolean b) = tt
parse_tx_send_request-Lets (number n) = tt
parse_tx_send_request-Lets (string s) = tt
parse_tx_send_request-Lets (array vs) = tt

with_period-Lets :
    (r : Checked TxSendRequest) (period : Option ℕ)
    → Lets IsTxRequest r
    → Lets IsTxCyclic (with_period r (period_of period))
with_period-Lets (refused error) period h = tt
with_period-Lets (ok request) none h = tt
with_period-Lets (ok request) (some zero) h = tt
with_period-Lets (ok request) (some (suc n)) h = (h, omega arith)

pub parse_tx_cyclic_start_request-Lets :
    (v : Value) → Lets IsTxCyclic (parse_tx_cyclic_start_request v)
parse_tx_cyclic_start_request-Lets v =
    with_period-Lets (parse_tx_send_request v) _ (parse_tx_send_request-Lets v)
