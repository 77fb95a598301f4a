-- ===== src/Engine/Parse/RoundTrip.antt =====
-- Frames written as the JSON that the engine sends.
use vanilla_bus.Prelude.{
  ◌≡◌, ◌≢◌, refl, sym, ap, ◌∙◌, true, false, List, [], ◌∷◌, ◌++◌, Option, none, some, Text, codes,
  All, arith, contains, append_assoc, append-nil,
}
use mathlib.Core.Path.{subst}
use vanilla_bus.Prelude.Int.{pos}
use vanilla_bus.Prelude.Strings.{same, same_iff, same_refl}
use vanilla_bus.Prelude.Assoc.{keys, has, IsDistinct, insert_fresh, contains-append, keys-append}
use vanilla_bus.Engine.Value.{
  Number, integral, fractional, nan, infinite, Value, null, boolean, number, string, object, Items,
  nil, item, Fields, end, field, entries, get, is_finite, nonempty_string, finite_number,
}
use vanilla_bus.Engine.Types.{
  SignalValue, num, str, bool, FrameDir, rx, tx, FrameDecode, FrameEvent,
}
use vanilla_bus.Engine.Parse.{
  assign, signal_value, collect_signals, collect_units, parse_signal_units, parse_signals,
  parse_frame_decode, frame_dir, rate, parse_frame_event,
}
use vanilla_bus.Engine.Parse.Sound.{proto, IsSignal, IsUnit, IsRate, Decoded, IsFrame}

abbrev pub fields_of : List (Text × Value) → Fields
fields_of [] = end
fields_of ((k, v) ∷ fs) = field k v (fields_of fs)

abbrev items_of : List Value → Items
items_of [] = nil
items_of (v ∷ vs) = item v (items_of vs)

abbrev pub of_signal : SignalValue → Value
of_signal (num n) = number n
of_signal (str s) = string s
of_signal (bool b) = boolean b

abbrev pub of_signals : List (Text × SignalValue) → List (Text × Value)
of_signals [] = []
of_signals ((k, s) ∷ m) = (k, of_signal s) ∷ of_signals m

abbrev pub of_units : List (Text × Text) → List (Text × Value)
of_units [] = []
of_units ((k, u) ∷ m) = (k, string u) ∷ of_units m

abbrev pub of_decode : Option FrameDecode → Value
of_decode none = null
of_decode (some d) = object (
    fields_of (
      (codes "name", string d.name)
      ∷ (codes "signals", object (fields_of (of_signals d.signals)))
      ∷ (codes "units", object (fields_of (of_units d.units)))
      ∷ []))

abbrev pub of_rate : Option Number → Value
of_rate none = null
of_rate (some n) = number n

abbrev pub of_dir : FrameDir → Value
of_dir rx = string (codes "rx")
of_dir tx = string (codes "tx")

-- the event as the engine sends it, every field present
unfoldable pub of_frame : FrameEvent → Value
of_frame e = object (
    fields_of (
      (codes "busId", string e.bus_id)
      ∷ (codes "ifName", string e.if_name)
      ∷ (codes "ts_us", number e.ts_us)
      ∷ (codes "can_id", number (integral (pos e.can_id)))
      ∷ (codes "dlc", number (integral (pos e.dlc)))
      ∷ (codes "data", string e.payload)
      ∷ (codes "is_eff", boolean e.is_eff)
      ∷ (codes "is_fd", boolean e.is_fd)
      ∷ (codes "brs", boolean e.brs)
      ∷ (codes "is_rtr", boolean e.is_rtr)
      ∷ (codes "is_err", boolean e.is_err)
      ∷ (codes "dir", of_dir e.dir)
      ∷ (codes "rate_ms", of_rate e.rate_ms)
      ∷ (codes "decode", of_decode e.decode)
      ∷ []))

pub entries-fields_of : (m : List (Text × Value)) → entries (fields_of m) ≡ m
entries-fields_of [] = refl
entries-fields_of ((k, v) ∷ m) = ap (◌∷◌ (k, v)) (entries-fields_of m)

pub signal_value-of_signal :
    (k : Text) (s : SignalValue) → IsSignal k s → signal_value (of_signal s) ≡ some s
unfolding signal_value
signal_value-of_signal k (num n) h = rw (h.1)
signal_value-of_signal k (str s) h = refl
signal_value-of_signal k (bool b) h = refl

pub not-proto : (k : Text) (s : SignalValue) → IsSignal k s → same k proto ≡ false
not-proto k (num n) h = h.0
not-proto k (str s) h = h.0
not-proto k (bool b) h = h.0

-- a key that is among the later ones is not among the earlier ones
pub later_fresh :
    (xs : List Text) (k : Text) (ks : List Text) → IsDistinct (xs ++ k ∷ ks) → contains k xs ≡ false
later_fresh [] k ks h = refl
later_fresh (x ∷ xs) k ks (h, d) = ground (
  arith,
  later_fresh xs k ks d,
  contains-append x xs (k ∷ ks),
  same_iff x k,
  same_iff k x,
  same_refl k,
)

-- the same keys, with the key on the other side of the cut
pub keys_moved :
    (V : Type 0) (out m : List (Text × V)) (k : Text) (v : V)
    → IsDistinct (keys out ++ k ∷ keys m)
    → IsDistinct (keys (out ++ (k, v) ∷ []) ++ keys m)
keys_moved V out m k v d =
    subst IsDistinct
      (sym (append_assoc (keys out) (k ∷ []) (keys m))
        ∙ ap (λ ks. ks ++ keys m) (sym (keys-append out ((k, v) ∷ []))))
      d

pub assign_fresh :
    (V : Type 0) (k : Text) (v : V) (out : List (Text × V))
    → same k proto ≡ false
    → has k out ≡ false
    → assign k v out ≡ out ++ (k, v) ∷ []
unfolding assign
assign_fresh V k v out p h = rw (p, assign) (insert_fresh k v out h)

collect_signals-of_signals :
    (m out : List (Text × SignalValue))
    → All (λ e. IsSignal e.0 e.1) m
    → IsDistinct (keys out ++ keys m)
    → collect_signals (of_signals m) out ≡ out ++ m
unfolding collect_signals
collect_signals-of_signals [] out h d = sym (append-nil out)
collect_signals-of_signals ((k, s) ∷ m) out (h, hs) d =
    rw (signal_value-of_signal k s h, collect_signals)
      (rw (assign_fresh SignalValue k s out (not-proto k s h) (later_fresh (keys out) k (keys m) d))
        (collect_signals-of_signals m (out ++ (k, s) ∷ []) hs (keys_moved SignalValue out m k s d)
          ∙ append_assoc out ((k, s) ∷ []) m))

pub nonempty : (s : Text) → s ≢ [] → nonempty_string (string s) ≡ some s
nonempty [] h = absurd (h refl)
nonempty (c ∷ s) h = refl

collect_units-of_units :
    (m out : List (Text × Text))
    → All (λ e. IsUnit e.0 e.1) m
    → IsDistinct (keys out ++ keys m)
    → collect_units (of_units m) out ≡ out ++ m
unfolding collect_units
collect_units-of_units [] out h d = sym (append-nil out)
collect_units-of_units ((k, u) ∷ m) out (h, hs) d =
    rw (nonempty u h.1, collect_units)
      (rw (assign_fresh Text k u out h.0 (later_fresh (keys out) k (keys m) d)) (
        collect_units-of_units m (out ++ (k, u) ∷ []) hs (keys_moved Text out m k u d)
        ∙ append_assoc out ((k, u) ∷ []) m))

parse_frame_decode-of_decode :
    (d : Option FrameDecode) → Decoded d → parse_frame_decode (of_decode d) ≡ d
unfolding parse_frame_decode get same parse_signals parse_signal_units
parse_frame_decode-of_decode none h = refl
parse_frame_decode-of_decode (some d) h = rw (
  nonempty d.name h.named,
  parse_frame_decode,
  entries-fields_of (of_signals d.signals),
  entries-fields_of (of_units d.units),
  collect_signals-of_signals d.signals [] h.signals h.signals_once,
  collect_units-of_units d.units [] h.units h.units_once,
)

rate-of_rate : (r : Option Number) → IsRate r → rate (of_rate r) ≡ some r
rate-of_rate none h = refl
rate-of_rate (some (integral z)) h = refl
rate-of_rate (some (fractional z k)) h = refl
rate-of_rate (some nan) h = absurd (ground arith)
rate-of_rate (some (infinite b)) h = absurd (ground arith)

finite_number-number : (n : Number) → is_finite n ≡ true → finite_number (number n) ≡ some n
finite_number-number (integral z) h = refl
finite_number-number (fractional z k) h = refl
finite_number-number nan h = absurd (ground arith)
finite_number-number (infinite b) h = absurd (ground arith)

frame_dir-of_dir : (d : FrameDir) → frame_dir (of_dir d) ≡ some d
unfolding same
frame_dir-of_dir rx = refl
frame_dir-of_dir tx = refl

-- A well-formed frame that is written with every field present comes out of `parseFrameEvent` as it
-- was.
pub parse_frame_event-of_frame :
    (e : FrameEvent) → IsFrame e → parse_frame_event (of_frame e) ≡ some e
unfolding parse_frame_event of_frame get same
parse_frame_event-of_frame e h =
    rw
      (
        nonempty e.bus_id h.bus,
        nonempty e.if_name h.interface,
        finite_number-number e.ts_us h.time,
        frame_dir-of_dir e.dir,
        rate-of_rate e.rate_ms h.rated,
      )
      (ap (λ d. some (record e { decode = d })) (parse_frame_decode-of_decode e.decode h.decoded))
