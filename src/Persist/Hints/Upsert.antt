-- ===== src/Persist/Hints/Upsert.antt =====
-- shared/persist.ts: `upsertBusHint`, `dbcPathForBus` and `mergeRememberedNames`.
use vanilla_bus.Prelude.{
  ℕ, zero, suc, ◌≤◌, ◌≡◌, refl, false, List, [], ◌∷◌, Option, none, some, Text, arith, length, take,
  length-take, contains, All, All-take, Bool-cases, inl, inr,
}
use vanilla_bus.Prelude.Strings.{same, trim}
use vanilla_bus.Prelude.Assoc.{IsDistinct}
use vanilla_bus.Engine.Value.{string}
use vanilla_bus.Persist.{persist_max_buses, persist_max_iface, PersistedBusHint}
use vanilla_bus.Persist.Sanitize.{clamp_trimmed, names}
use vanilla_bus.Persist.Hints.{
  find_hint, other_hints, path_of, next_path, upsert_clean, upsert_bus_hint,
}
use vanilla_bus.Persist.Bounds.{
  IsHint, IsHints, IsOptional, optional_path-IsOptional, length-clamp_trimmed,
}

contains-other_hints :
    (k name : Text) (buses : List PersistedBusHint)
    → contains k (names buses) ≡ false
    → contains k (names (other_hints name buses)) ≡ false
contains-other_hints k name [] h = refl
contains-other_hints k name (hint ∷ hints) h = elim (Bool-cases (same hint.name name)) [
  | inl e ↦ rw (e, other_hints) (contains-other_hints k name hints (ground arith))
  | inr e ↦ rw (e, other_hints) (ground (arith, contains-other_hints k name hints (ground arith)))
]

-- The name itself is gone.
other_hints_gone :
    (name : Text) (buses : List PersistedBusHint)
    → contains name (names (other_hints name buses)) ≡ false
other_hints_gone name [] = refl
other_hints_gone name (hint ∷ hints) = elim (Bool-cases (same hint.name name)) [
  | inl e ↦ rw (e, other_hints) (other_hints_gone name hints)
  | inr e ↦ rw (e, other_hints) (ground (arith, e, other_hints_gone name hints))
]

other_hints-IsDistinct :
    (name : Text) (buses : List PersistedBusHint)
    → IsDistinct (names buses)
    → IsDistinct (names (other_hints name buses))
other_hints-IsDistinct name [] d = tt
other_hints-IsDistinct name (hint ∷ hints) (fresh, d) = elim (Bool-cases (same hint.name name)) [
  | inl e ↦ rw (e, other_hints) (other_hints-IsDistinct name hints d)
  | inr e ↦
      rw (e, other_hints)
        (contains-other_hints hint.name name hints fresh, other_hints-IsDistinct name hints d)
]

other_hints-All :
    (name : Text) (buses : List PersistedBusHint)
    → All IsHint buses
    → All IsHint (other_hints name buses)
other_hints-All name [] h = tt
other_hints-All name (hint ∷ hints) (h, hs) = elim (Bool-cases (same hint.name name)) [
  | inl e ↦ rw (e, other_hints) (other_hints-All name hints hs)
  | inr e ↦ rw (e, other_hints) (h, other_hints-All name hints hs)
]

contains-take :
    (n : ℕ) (k : Text) (buses : List PersistedBusHint)
    → contains k (names buses) ≡ false
    → contains k (names (take n buses)) ≡ false
contains-take zero k buses h = refl
contains-take (suc n) k [] h = refl
contains-take (suc n) k (x ∷ xs) h = ground (arith, contains-take n k xs (ground arith))

take-IsDistinct :
    (n : ℕ) (buses : List PersistedBusHint)
    → IsDistinct (names buses)
    → IsDistinct (names (take n buses))
take-IsDistinct zero buses d = tt
take-IsDistinct (suc n) [] d = tt
take-IsDistinct (suc n) (x ∷ xs) (fresh, d) =
    (contains-take n x.name xs fresh, take-IsDistinct n xs d)

find_hint-IsOptional :
    (name : Text) (buses : List PersistedBusHint)
    → All IsHint buses
    → IsOptional 512 (path_of (find_hint name buses))
find_hint-IsOptional name [] h = tt
find_hint-IsOptional name (hint ∷ hints) (h, hs) = elim (Bool-cases (same hint.name name)) [
  | inl e ↦ rw (e, find_hint) h.path
  | inr e ↦ rw (e, find_hint) (find_hint-IsOptional name hints hs)
]

next_path-IsOptional :
    (path : Option (Option Text)) (name : Text) (buses : List PersistedBusHint)
    → All IsHint buses
    → IsOptional 512 (next_path path (find_hint name buses))
next_path-IsOptional none name buses h = find_hint-IsOptional name buses h
next_path-IsOptional (some none) name buses h = tt
next_path-IsOptional (some (some path)) name buses h = optional_path-IsOptional (string path)

upsert_clean-IsHints :
    (buses : List PersistedBusHint) (name : Text) (path : Option (Option Text))
    → length name ≤ persist_max_iface
    → IsHints buses
    → IsHints (upsert_clean buses name path)
unfolding upsert_clean
upsert_clean-IsHints buses [] path short h = h
upsert_clean-IsHints buses (c ∷ s) path short h =
    let hint : PersistedBusHint = record {
      name = c ∷ s;
      dbc_path = next_path path (find_hint (c ∷ s) buses);
    } in
    let next = hint ∷ other_hints (c ∷ s) buses in
    record {
      few = omega (arith, length-take persist_max_buses next);
      once =
          take-IsDistinct persist_max_buses next
            (other_hints_gone (c ∷ s) buses, other_hints-IsDistinct (c ∷ s) buses h.once);
      each = All-take IsHint persist_max_buses next (
        record {
          named = (omega arith, short);
          path = next_path-IsOptional path (c ∷ s) buses h.each;
        },
        other_hints-All (c ∷ s) buses h.each,
      );
    }

-- If the remembered buses are within their bounds, they are after `upsertBusHint` of any name and
-- path: at most 16, each name once, not empty and within 32 units, each path not empty and within
-- 512.
pub upsert_bus_hint-IsHints :
    (buses : List PersistedBusHint) (name : Text) (path : Option (Option Text))
    → IsHints buses
    → IsHints (upsert_bus_hint buses name path)
unfolding upsert_bus_hint
upsert_bus_hint-IsHints buses name path h =
    upsert_clean-IsHints buses (clamp_trimmed (trim name) persist_max_iface []) path
      (length-clamp_trimmed (trim name) persist_max_iface [] (omega arith)) h
