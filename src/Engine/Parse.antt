-- ===== src/Engine/Parse.antt =====
-- shared/engine.ts: the validators of what the engine sends.
pub mod Sound
pub mod RoundTrip
mod Tests
use vanilla_bus.Prelude.{
  ℕ, Bool, true, false, not, List, [], ◌∷◌, Option, none, some, Text, codes, if◌then◌else◌,
}
use vanilla_bus.Prelude.Int.{ℤ, pos}
use vanilla_bus.Prelude.Strings.{same}
use vanilla_bus.Prelude.Assoc.{insert}
use vanilla_bus.Engine.Value.{
  Number, integral, Value, undefined, null, boolean, number, string, array, object, Items, Fields,
  items, entries, get, as_record, is_finite, nonempty_string, natural, finite_number, a_string,
  a_boolean,
}
use vanilla_bus.Engine.Types.{
  SignalValue, num, str, bool, FrameDir, rx, tx, FrameDecode, FrameEvent, RxBatch, DbcCatalogSignal,
  DbcCatalogMessage,
}

infixl 5 ◌>>=◌
abbrev pub ◌>>=◌ : {A B : Type 0} → Option A → (A → Option B) → Option B
none >>= f = none
some a >>= f = f a

-- `record[key] = value` on an object literal: a primitive value under `__proto__` is dropped.
unfoldable pub assign : {V : Type 0} → Text → V → List (Text × V) → List (Text × V)
assign k v m = if same k (codes "__proto__") then m else insert k v m

-- what of a signal's value is kept
pub signal_value : Value → Option SignalValue
signal_value (number n) = if is_finite n then some (num n) else none
signal_value (string s) = some (str s)
signal_value (boolean b) = some (bool b)
signal_value _ = none

-- the loop over `Object.entries`, with what is assigned so far
pub collect_signals : List (Text × Value) → List (Text × SignalValue) → List (Text × SignalValue)
unfolding assign signal_value
collect_signals [] out = out
collect_signals ((k, v) ∷ fs) out =
    collect_signals fs (elim (signal_value v) [ none ↦ out | some s ↦ assign k s out ])

pub collect_units : List (Text × Value) → List (Text × Text) → List (Text × Text)
unfolding assign
collect_units [] out = out
collect_units ((k, v) ∷ fs) out =
    collect_units fs (elim (nonempty_string v) [ none ↦ out | some s ↦ assign k s out ])

pub parse_signal_units : Value → List (Text × Text)
unfolding collect_units
parse_signal_units (object fs) = collect_units (entries fs) []
parse_signal_units _ = []

pub parse_signals : Value → List (Text × SignalValue)
unfolding collect_signals
parse_signals (object fs) = collect_signals (entries fs) []
parse_signals _ = []

pub parse_frame_decode : Value → Option FrameDecode
unfolding parse_signals parse_signal_units
parse_frame_decode (object fs) = do
  name ← nonempty_string (get (codes "name") fs)
  some (record {
    name = name;
    signals = parse_signals (get (codes "signals") fs);
    units = parse_signal_units (get (codes "units") fs);
  })
parse_frame_decode _ = none

abbrev pub frame_dir : Value → Option FrameDir
frame_dir (string s) =
    if same s (codes "rx") then some rx else if same s (codes "tx") then some tx else none
frame_dir _ = none

-- `null`, or a finite number
abbrev pub rate : Value → Option (Option Number)
rate null = some none
rate v = do n ← finite_number v; some (some n)

pub parse_frame_event : Value → Option FrameEvent
unfolding parse_frame_decode
parse_frame_event raw = do
  fs ← as_record raw
  bus_id ← nonempty_string (get (codes "busId") fs)
  if_name ← nonempty_string (get (codes "ifName") fs)
  ts_us ← finite_number (get (codes "ts_us") fs)
  can_id ← natural (get (codes "can_id") fs)
  dlc ← natural (get (codes "dlc") fs)
  payload ← a_string (get (codes "data") fs)
  is_eff ← a_boolean (get (codes "is_eff") fs)
  is_fd ← a_boolean (get (codes "is_fd") fs)
  brs ← a_boolean (get (codes "brs") fs)
  is_rtr ← a_boolean (get (codes "is_rtr") fs)
  is_err ← a_boolean (get (codes "is_err") fs)
  dir ← frame_dir (get (codes "dir") fs)
  rate_ms ← rate (get (codes "rate_ms") fs)
  some (record {
    bus_id = bus_id;
    if_name = if_name;
    ts_us = ts_us;
    can_id = can_id;
    dlc = dlc;
    payload = payload;
    is_eff = is_eff;
    is_fd = is_fd;
    brs = brs;
    is_rtr = is_rtr;
    is_err = is_err;
    dir = dir;
    rate_ms = rate_ms;
    decode = parse_frame_decode (get (codes "decode") fs);
  })

-- the loop over `record.frames`: what is no frame is passed over
pub parse_frames : List Value → List FrameEvent
parse_frames [] = []
parse_frames (v ∷ vs) =
    let rest = parse_frames vs in
    elim (parse_frame_event v) [ none ↦ rest | some frame ↦ frame ∷ rest ]

abbrev pub an_array : Value → Option (List Value)
an_array (array vs) = some (items vs)
an_array _ = none

abbrev pub integer_or_zero : Value → ℤ
integer_or_zero (number (integral z)) = z
integer_or_zero _ = pos 0

pub parse_rx_batch : Value → Option RxBatch
unfolding parse_frames
parse_rx_batch raw = do
  fs ← as_record raw
  vs ← an_array (get (codes "frames") fs)
  some (record { frames = parse_frames vs; dropped = integer_or_zero (get (codes "dropped") fs) })

-- `parseOptionalFinite`
abbrev pub parse_optional_finite : Value → Option Number
parse_optional_finite = finite_number

abbrev pub unit_or_empty : Value → Text
unit_or_empty (string s) = s
unit_or_empty _ = []

pub parse_catalog_signal : Value → Option DbcCatalogSignal
parse_catalog_signal raw = do
  sig ← as_record raw
  name ← nonempty_string (get (codes "name") sig)
  some (record {
    name = name;
    unit = unit_or_empty (get (codes "unit") sig);
    min = parse_optional_finite (get (codes "min") sig);
    max = parse_optional_finite (get (codes "max") sig);
    initial = parse_optional_finite (get (codes "initial") sig);
  })

pub parse_catalog_signals : List Value → List DbcCatalogSignal
unfolding parse_catalog_signal
parse_catalog_signals [] = []
parse_catalog_signals (v ∷ vs) =
    let rest = parse_catalog_signals vs in
    elim (parse_catalog_signal v) [ none ↦ rest | some s ↦ s ∷ rest ]

abbrev pub items_or_empty : Value → List Value
items_or_empty (array vs) = items vs
items_or_empty _ = []

pub parse_catalog_message : Value → Option DbcCatalogMessage
unfolding parse_catalog_signals
parse_catalog_message raw = do
  fs ← as_record raw
  name ← nonempty_string (get (codes "name") fs)
  can_id ← natural (get (codes "can_id") fs)
  some (record {
    name = name;
    can_id = can_id;
    signals = parse_catalog_signals (items_or_empty (get (codes "signals") fs));
  })

pub parse_catalog_messages : List Value → List DbcCatalogMessage
unfolding parse_catalog_message
parse_catalog_messages [] = []
parse_catalog_messages (v ∷ vs) =
    let rest = parse_catalog_messages vs in
    elim (parse_catalog_message v) [ none ↦ rest | some m ↦ m ∷ rest ]

pub parse_dbc_catalog : Value → List DbcCatalogMessage
unfolding parse_catalog_messages
parse_dbc_catalog raw = parse_catalog_messages (items_or_empty raw)
