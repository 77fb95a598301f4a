-- ===== src/Engine/Parse/Sound.antt =====
-- shared/engine.ts: the frames that the validators let through.
use vanilla_bus.Prelude.{
  ◌≡◌, ◌≢◌, refl, true, false, List, [], ◌∷◌, Option, none, some, Text, codes, All, Bool-cases,
  Option-cases, inl, inr, arith,
}
use mathlib.Core.Path.{subst}
use mathlib.Core.Option.{some-injective}
use vanilla_bus.Prelude.Strings.{same}
use vanilla_bus.Prelude.Assoc.{keys, IsDistinct, insert-IsDistinct, insert-All}
use vanilla_bus.Engine.Value.{
  Number, integral, fractional, nan, infinite, Value, undefined, null, boolean, number, string,
  object, entries, get, as_record, is_finite, nonempty_string, natural, finite_number, a_string,
  a_boolean,
}
use vanilla_bus.Engine.Types.{SignalValue, num, str, bool, FrameDecode, FrameEvent, RxBatch}
use vanilla_bus.Engine.Parse.{
  ◌>>=◌, assign, signal_value, collect_signals, collect_units, parse_signal_units, parse_signals,
  parse_frame_decode, frame_dir, rate, parse_frame_event, parse_frames, parse_rx_batch, an_array,
}

abbrev pub proto : Text
proto = codes "__proto__"

abbrev pub IsSignal : Text → SignalValue → Type 0
IsSignal k (num n) = (same k proto ≡ false) × (is_finite n ≡ true)
IsSignal k (str s) = (same k proto ≡ false) × Unit {0}
IsSignal k (bool b) = (same k proto ≡ false) × Unit {0}

abbrev pub IsUnit : Text → Text → Type 0
IsUnit k u = (same k proto ≡ false) × (u ≢ [])

-- A decode as the rest of the program relies on it: no signal and no unit twice, numbers finite,
-- units not empty.
pub record IsDecode (d : FrameDecode) : Type 0 where
  pub named : d.name ≢ []
  pub signals : All (λ e. IsSignal e.0 e.1) d.signals
  pub signals_once : IsDistinct (keys d.signals)
  pub units : All (λ e. IsUnit e.0 e.1) d.units
  pub units_once : IsDistinct (keys d.units)

abbrev pub IsRate : Option Number → Type 0
IsRate none = Unit {0}
IsRate (some n) = is_finite n ≡ true

abbrev pub Decoded : Option FrameDecode → Type 0
Decoded none = Unit {0}
Decoded (some d) = IsDecode d

pub record IsFrame (e : FrameEvent) : Type 0 where
  pub bus : e.bus_id ≢ []
  pub interface : e.if_name ≢ []
  pub time : is_finite e.ts_us ≡ true
  pub rated : IsRate e.rate_ms
  pub decoded : Decoded e.decode

pub nonempty_string-ne : (v : Value) {s : Text} → nonempty_string v ≡ some s → s ≢ []
nonempty_string-ne (string []) h = cc
nonempty_string-ne (string (c ∷ s)) h = λ e. cc
nonempty_string-ne undefined h = cc
nonempty_string-ne _ h = cc

finite_number-is_finite : (v : Value) {n : Number} → finite_number v ≡ some n → is_finite n ≡ true
finite_number-is_finite (number (integral z)) h = ground arith
finite_number-is_finite (number (fractional z k)) h = ground arith
finite_number-is_finite (number nan) h = cc
finite_number-is_finite (number (infinite b)) h = cc
finite_number-is_finite undefined h = cc
finite_number-is_finite _ h = cc

rate-IsRate : (v : Value) {r : Option Number} → rate v ≡ some r → IsRate r
rate-IsRate null {r} h = let e : none ≡ r = cc h in subst IsRate e tt
rate-IsRate (number (integral z)) {r} h =
    let e : some (integral z) ≡ r = cc h in subst IsRate e refl
rate-IsRate (number (fractional z k)) {r} h =
    let e : some (fractional z k) ≡ r = cc h in subst IsRate e refl
rate-IsRate (number nan) h = cc
rate-IsRate (number (infinite b)) h = cc
rate-IsRate _ h = cc

pub signal_value-IsSignal :
    (k : Text) (v : Value) {s : SignalValue}
    → same k proto ≡ false
    → signal_value v ≡ some s
    → IsSignal k s
unfolding signal_value
signal_value-IsSignal k (number n) {s} p h = elim (Bool-cases (is_finite n)) [
  | inl f ↦
      let e : some (num n) ≡ some s = ground arith in
      let e' : num n ≡ s = cc in subst (IsSignal k) e' (p, f)
  | inr f ↦ absurd (ground arith)
]
signal_value-IsSignal k (string t) {s} p h =
    let e : str t ≡ s = cc h in subst (IsSignal k) e (p, tt)
signal_value-IsSignal k (boolean b) {s} p h =
    let e : bool b ≡ s = cc h in subst (IsSignal k) e (p, tt)
signal_value-IsSignal k _ p h = cc

-- Assigning keeps the keys distinct and adds nothing under `__proto__`.
module _ {V : Type 0} (P : Text → V → Type 0) where
  pub assign_keeps :
      (k : Text) (v : V) (m : List (Text × V))
      → ((j : Text) → same j proto ≡ false → j ≡ k → P j v)
      → All (λ e. P e.0 e.1) m × IsDistinct (keys m)
      → All (λ e. P e.0 e.1) (assign k v m) × IsDistinct (keys (assign k v m))
  unfolding assign
  assign_keeps k v m p (a, d) = elim (Bool-cases (same k proto)) [
    | inl e ↦ rw (e, assign) (a, d)
    | inr e ↦
        rw (e, assign) (insert-All P k v m (λ j q. p j (rw q e) q) a, insert-IsDistinct k v m d)
  ]

collect_signals_keeps :
    (fs : List (Text × Value)) (out : List (Text × SignalValue))
    → All (λ e. IsSignal e.0 e.1) out × IsDistinct (keys out)
    → All (λ e. IsSignal e.0 e.1) (collect_signals fs out)
      × IsDistinct (keys (collect_signals fs out))
unfolding collect_signals
collect_signals_keeps [] out h = h
collect_signals_keeps ((k, v) ∷ fs) out h = elim (Option-cases (signal_value v)) [
  | inl e ↦ rw (e, collect_signals) (collect_signals_keeps fs out h)
  | inr (s, e) ↦
      rw (e, collect_signals)
        (collect_signals_keeps fs (assign k s out)
          (assign_keeps IsSignal k s out (λ j p q. signal_value-IsSignal j v p e) h))
]

collect_units_keeps :
    (fs : List (Text × Value)) (out : List (Text × Text))
    → All (λ e. IsUnit e.0 e.1) out × IsDistinct (keys out)
    → All (λ e. IsUnit e.0 e.1) (collect_units fs out) × IsDistinct (keys (collect_units fs out))
unfolding collect_units
collect_units_keeps [] out h = h
collect_units_keeps ((k, v) ∷ fs) out h = elim (Option-cases (nonempty_string v)) [
  | inl e ↦ rw (e, collect_units) (collect_units_keeps fs out h)
  | inr (s, e) ↦
      rw (e, collect_units)
        (collect_units_keeps fs (assign k s out)
          (assign_keeps IsUnit k s out (λ j p q. (p, nonempty_string-ne v e)) h))
]

parse_signals_keeps :
    (v : Value)
    → All (λ e. IsSignal e.0 e.1) (parse_signals v) × IsDistinct (keys (parse_signals v))
unfolding parse_signals
parse_signals_keeps (object fs) = collect_signals_keeps (entries fs) [] (tt, tt)
parse_signals_keeps _ = (tt, tt)

parse_signal_units_keeps :
    (v : Value)
    → All (λ e. IsUnit e.0 e.1) (parse_signal_units v) × IsDistinct (keys (parse_signal_units v))
unfolding parse_signal_units
parse_signal_units_keeps (object fs) = collect_units_keeps (entries fs) [] (tt, tt)
parse_signal_units_keeps _ = (tt, tt)

parse_frame_decode-Decoded : (v : Value) → Decoded (parse_frame_decode v)
unfolding parse_frame_decode
parse_frame_decode-Decoded (object fs) =
    elim (Option-cases (nonempty_string (get (codes "name") fs))) [
      | inl e ↦ rw (e, parse_frame_decode) tt
      | inr (name, e) ↦
          let (signals, signals_once) = parse_signals_keeps (get (codes "signals") fs) in
          let (units, units_once) = parse_signal_units_keeps (get (codes "units") fs) in
          rw (e, parse_frame_decode)
            (record {
              named = nonempty_string-ne (get (codes "name") fs) e;
              signals = signals;
              signals_once = signals_once;
              units = units;
              units_once = units_once;
            })
    ]
parse_frame_decode-Decoded _ = tt

-- what holds of the result, if there is one
abbrev pub Ensures : {A : Type 0} → (A → Type 0) → Option A → Type 0
Ensures P none = Unit {0}
Ensures P (some a) = P a

Ensures->>= :
    {A B : Type 0} (P : B → Type 0) (o : Option A) (f : A → Option B)
    → ((a : A) → o ≡ some a → Ensures P (f a))
    → Ensures P (o >>= f)
Ensures->>= P none f h = tt
Ensures->>= P (some a) f h = h a refl

Ensures-some : {A : Type 0} (P : A → Type 0) (o : Option A) {a : A} → Ensures P o → o ≡ some a → P a
Ensures-some P none h e = cc
Ensures-some P (some b) h e = subst P (some-injective b _ e) h

parse_frame_event-Ensures : (raw : Value) → Ensures IsFrame (parse_frame_event raw)
unfolding parse_frame_event
parse_frame_event-Ensures raw = Ensures->>= IsFrame (as_record raw) _ λ fs _.
    Ensures->>= IsFrame (nonempty_string (get (codes "busId") fs)) _ λ bus_id e2.
      Ensures->>= IsFrame (nonempty_string (get (codes "ifName") fs)) _ λ if_name e3.
        Ensures->>= IsFrame (finite_number (get (codes "ts_us") fs)) _ λ ts_us e4.
          Ensures->>= IsFrame (natural (get (codes "can_id") fs)) _ λ can_id _.
            Ensures->>= IsFrame (natural (get (codes "dlc") fs)) _ λ dlc _.
              Ensures->>= IsFrame (a_string (get (codes "data") fs)) _ λ payload _.
                Ensures->>= IsFrame (a_boolean (get (codes "is_eff") fs)) _ λ is_eff _.
                  Ensures->>= IsFrame (a_boolean (get (codes "is_fd") fs)) _ λ is_fd _.
                    Ensures->>= IsFrame (a_boolean (get (codes "brs") fs)) _ λ brs _.
                      Ensures->>= IsFrame (a_boolean (get (codes "is_rtr") fs)) _ λ is_rtr _.
                        Ensures->>= IsFrame (a_boolean (get (codes "is_err") fs)) _ λ is_err _.
                          Ensures->>= IsFrame (frame_dir (get (codes "dir") fs)) _ λ dir _.
                            Ensures->>= IsFrame (rate (get (codes "rate_ms") fs)) _ λ rate_ms e14.
                              record {
                                bus = nonempty_string-ne (get (codes "busId") fs) e2;
                                interface = nonempty_string-ne (get (codes "ifName") fs) e3;
                                time = finite_number-is_finite (get (codes "ts_us") fs) e4;
                                rated = rate-IsRate (get (codes "rate_ms") fs) e14;
                                decoded = parse_frame_decode-Decoded (get (codes "decode") fs);
                              }

-- Every frame that `parseFrameEvent` lets through has a bus id and an interface name, a finite time
-- stamp, a finite rate or none, and a decode that is absent or named, in which no signal and no unit
-- comes twice, numbers are finite and units are not empty.
pub parse_frame_event-IsFrame :
    (raw : Value) (e : FrameEvent) → parse_frame_event raw ≡ some e → IsFrame e
parse_frame_event-IsFrame raw e h =
    Ensures-some IsFrame (parse_frame_event raw) (parse_frame_event-Ensures raw) h

parse_frames-All : (vs : List Value) → All IsFrame (parse_frames vs)
unfolding parse_frames
parse_frames-All [] = tt
parse_frames-All (v ∷ vs) = elim (Option-cases (parse_frame_event v)) [
  | inl e ↦ rw (e, parse_frames) (parse_frames-All vs)
  | inr (f, e) ↦ rw (e, parse_frames) (parse_frame_event-IsFrame v f e, parse_frames-All vs)
]

-- Every frame of a batch that `parseRxBatch` returns has a bus id and an interface name, a finite
-- time stamp, a finite rate or none, and a decode that is absent or well formed.
pub parse_rx_batch-All :
    (raw : Value) (batch : RxBatch) → parse_rx_batch raw ≡ some batch → All IsFrame batch.frames
unfolding parse_rx_batch
parse_rx_batch-All raw batch h =
    Ensures-some (λ b. All IsFrame b.frames) (parse_rx_batch raw)
      (Ensures->>= (λ b. All IsFrame b.frames) (as_record raw) _
        λ fs _.
          Ensures->>= (λ b. All IsFrame b.frames) (an_array (get (codes "frames") fs)) _
            λ vs _. parse_frames-All vs)
      h
