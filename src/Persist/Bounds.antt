-- ===== src/Persist/Bounds.antt =====
-- shared/persist.ts: the bounds on a sanitized snapshot.
use vanilla_bus.Prelude.{
  ℕ, ◌≤◌, ◌<◌, ◌≡◌, refl, ap, List, [], ◌∷◌, ◌++◌, Option, none, some, Text, codes, arith, length,
  length-take, length-append, contains, leb, All, All-append, Bool-cases, inl, inr,
}
use vanilla_bus.Prelude.Int.{pos, negsuc}
use vanilla_bus.Prelude.Strings.{trim}
use vanilla_bus.Prelude.Assoc.{IsDistinct, IsDistinct-snoc}
use vanilla_bus.Engine.Value.{
  Value, undefined, null, boolean, number, string, array, object, integral, fractional, nan,
  infinite, get,
}
use vanilla_bus.Persist.{
  persist_max_buses, persist_max_path, persist_max_iface, persist_max_hex, PersistedBusHint,
  PersistedCyclicJob,
}
use vanilla_bus.Persist.Sanitize.{
  clamp_trimmed, clamp_string, some_nonempty, optional_path, clamp_int, bus_hint, sanitize_bus_hint,
  names, note_hint, collect_hints,
}

pub length-clamp_trimmed :
    (t : Text) (most : ℕ) (fallback : Text)
    → length fallback ≤ most
    → length (clamp_trimmed t most fallback) ≤ most
unfolding clamp_trimmed
length-clamp_trimmed t most fallback h = ground (arith, length-take most t)

pub length-clamp_string :
    (v : Value) (most : ℕ) (fallback : Text)
    → length fallback ≤ most
    → length (clamp_string v most fallback) ≤ most
length-clamp_string (string s) most fallback h = length-clamp_trimmed (trim s) most fallback h
length-clamp_string undefined most fallback h = h
length-clamp_string null most fallback h = h
length-clamp_string (boolean b) most fallback h = h
length-clamp_string (number n) most fallback h = h
length-clamp_string (array vs) most fallback h = h
length-clamp_string (object fs) most fallback h = h

abbrev pub IsPeriod : ℕ → Type 0
IsPeriod n = (1 ≤ n) × (n ≤ 3600000)

pub clamp_int-IsPeriod : (v : Value) → IsPeriod (clamp_int v 1 3600000 100)
unfolding clamp_int
clamp_int-IsPeriod undefined = omega arith
clamp_int-IsPeriod null = omega arith
clamp_int-IsPeriod (boolean b) = omega arith
clamp_int-IsPeriod (number (integral (pos n))) = omega arith
clamp_int-IsPeriod (number (integral (negsuc n))) = omega arith
clamp_int-IsPeriod (number (fractional z k)) = omega arith
clamp_int-IsPeriod (number nan) = omega arith
clamp_int-IsPeriod (number (infinite b)) = omega arith
clamp_int-IsPeriod (string s) = omega arith
clamp_int-IsPeriod (array vs) = omega arith
clamp_int-IsPeriod (object fs) = omega arith

-- a text that is there, and no longer than `most`
abbrev pub IsName : ℕ → Text → Type 0
IsName most s = (0 < length s) × (length s ≤ most)

abbrev pub IsOptional : ℕ → Option Text → Type 0
IsOptional most none = Unit {0}
IsOptional most (some s) = IsName most s

pub some_nonempty-IsOptional :
    (most : ℕ) (s : Text) → length s ≤ most → IsOptional most (some_nonempty s)
some_nonempty-IsOptional most [] h = tt
some_nonempty-IsOptional most (c ∷ s) h = (omega arith, h)

pub optional_path-IsOptional : (v : Value) → IsOptional persist_max_path (optional_path v)
optional_path-IsOptional v =
    some_nonempty-IsOptional persist_max_path (clamp_string v persist_max_path [])
      (length-clamp_string v persist_max_path [] (omega arith))

pub record IsHint (hint : PersistedBusHint) : Type 0 where
  pub named : IsName persist_max_iface hint.name
  pub path : IsOptional persist_max_path hint.dbc_path

-- The remembered buses: few, each once, and each of them in bounds.
pub record IsHints (buses : List PersistedBusHint) : Type 0 where
  pub few : length buses ≤ persist_max_buses
  pub once : IsDistinct (names buses)
  pub each : All IsHint buses

pub record IsJob (job : PersistedCyclicJob) : Type 0 where
  pub interface : IsName persist_max_iface job.if_name
  pub short : length job.bytes ≤ persist_max_hex
  pub message : IsOptional 96 job.message
  pub period : IsPeriod job.period_ms

abbrev pub Fine {ℓ} : {A : Type ℓ} → (A → Type 0) → Option A → Type 0
Fine P none = Unit {0}
Fine P (some a) = P a

bus_hint-Fine : (s : Text) (v : Value) → length s ≤ persist_max_iface → Fine IsHint (bus_hint s v)
unfolding bus_hint
bus_hint-Fine [] v h = tt
bus_hint-Fine (c ∷ s) v h = record { named = (omega arith, h); path = optional_path-IsOptional v }

sanitize_bus_hint-Fine : (v : Value) → Fine IsHint (sanitize_bus_hint v)
unfolding sanitize_bus_hint
sanitize_bus_hint-Fine (object fs) =
    bus_hint-Fine (clamp_string (get (codes "name") fs) persist_max_iface [])
      (get (codes "dbcPath") fs)
      (length-clamp_string (get (codes "name") fs) persist_max_iface [] (omega arith))
sanitize_bus_hint-Fine undefined = tt
sanitize_bus_hint-Fine null = tt
sanitize_bus_hint-Fine (boolean b) = tt
sanitize_bus_hint-Fine (number n) = tt
sanitize_bus_hint-Fine (string s) = tt
sanitize_bus_hint-Fine (array vs) = tt

pub names-append : (xs ys : List PersistedBusHint) → names (xs ++ ys) ≡ names xs ++ names ys
names-append [] ys = refl
names-append (x ∷ xs) ys = ap (◌∷◌ x.name) (names-append xs ys)

note_hint-IsHints :
    (hint : Option PersistedBusHint) (buses : List PersistedBusHint)
    → Fine IsHint hint
    → length buses < persist_max_buses
    → IsHints buses
    → IsHints (note_hint hint buses)
unfolding note_hint
note_hint-IsHints none buses fine room h = h
note_hint-IsHints (some hint) buses fine room h =
    elim (Bool-cases (contains hint.name (names buses))) [
      | inl e ↦ rw e h
      | inr e ↦ rw e (record {
        few = omega (arith, length-append buses (hint ∷ []));
        once =
            rw (names-append buses (hint ∷ [])) (IsDistinct-snoc (names buses) hint.name h.once e);
        each = All-append IsHint buses (hint ∷ []) h.each (fine, tt);
      })
    ]

pub collect_hints-IsHints :
    (vs : List Value) (buses : List PersistedBusHint)
    → length buses < persist_max_buses
    → IsHints buses
    → IsHints (collect_hints vs buses)
unfolding collect_hints
collect_hints-IsHints [] buses room h = h
collect_hints-IsHints (v ∷ vs) buses room h =
    let next = note_hint (sanitize_bus_hint v) buses in
    let good = note_hint-IsHints (sanitize_bus_hint v) buses (sanitize_bus_hint-Fine v) room h in
    elim (Bool-cases (leb persist_max_buses (length next))) [
      | inl e ↦ rw e good
      | inr e ↦ rw e (collect_hints-IsHints vs next (ground arith) good)
    ]
