-- ===== src/Persist/RoundTrip.antt =====
-- shared/persist.ts: a snapshot that is written as an object and sanitized again.
use vanilla_bus.Prelude.{
  ℕ, ◌+◌, ◌≤◌, ◌≡◌, refl, sym, ap, ◌∙◌, false, List, [], ◌∷◌, ◌++◌, Option, none, some, Text, arith,
  length, length-append, leb, ◌==◌, append_assoc, append-nil, All, Bool-cases, inl, inr,
}
use mathlib.Core.Path.{subst}
use vanilla_bus.Prelude.Strings.{same, trim}
use vanilla_bus.Prelude.Assoc.{IsDistinct, keys}
use vanilla_bus.Engine.Value.{Value, string, items, entries, get}
use vanilla_bus.Engine.Parse.Sound.{proto}
use vanilla_bus.Engine.Parse.RoundTrip.{later_fresh, assign_fresh, keys_moved}
use vanilla_bus.Persist.{
  persist_max_buses, persist_max_selected, persist_max_path, persist_max_iface,
  persist_max_signal_keys, PersistedBusHint,
}
use vanilla_bus.Persist.Sanitize.{
  clamp_trimmed, clamp_string, optional_path, bus_hint, sanitize_bus_hint, collect_selected,
  collect_values, names, note_hint, collect_hints,
}
use vanilla_bus.Persist.Build.{items_of, of_path, of_hints, of_texts, of_values}
use vanilla_bus.Persist.Bounds.{IsName, IsOptional, IsHint, names-append}

-- a text that `trim` leaves alone
abbrev pub IsTrimmed : Text → Type 0
IsTrimmed s = trim s ≡ s

abbrev pub IsTrimmedOptional : Option Text → Type 0
IsTrimmedOptional none = Unit {0}
IsTrimmedOptional (some s) = IsTrimmed s

clamp_trimmed_kept :
    (s : Text) (most : ℕ) (fallback : Text) → IsName most s → clamp_trimmed s most fallback ≡ s
unfolding clamp_trimmed
clamp_trimmed_kept s most fallback (there, short) = ground arith

pub clamp_string_kept :
    (s : Text) (most : ℕ) (fallback : Text)
    → IsTrimmed s
    → IsName most s
    → clamp_string (string s) most fallback ≡ s
clamp_string_kept s most fallback t h =
    ap (λ u. clamp_trimmed u most fallback) t ∙ clamp_trimmed_kept s most fallback h

optional_path_kept :
    (path : Option Text)
    → IsTrimmedOptional path
    → IsOptional persist_max_path path
    → optional_path (of_path path) ≡ path
optional_path_kept none t h = refl
optional_path_kept (some []) t h = absurd (omega arith)
optional_path_kept (some (c ∷ s)) t h = rw (clamp_string_kept (c ∷ s) persist_max_path [] t h) refl

pub items-items_of : (vs : List Value) → items (items_of vs) ≡ vs
items-items_of [] = refl
items-items_of (v ∷ vs) = ap (◌∷◌ v) (items-items_of vs)

pub nil_of-length : {A : Type 0} (xs : List A) → length xs ≤ 0 → xs ≡ []
nil_of-length [] h = refl
nil_of-length (x ∷ xs) h = absurd (omega arith)

abbrev pub IsTrimmedHint : PersistedBusHint → Type 0
IsTrimmedHint hint = IsTrimmed hint.name × IsTrimmedOptional hint.dbc_path

bus_hint_kept :
    (name : Text) (path : Option Text)
    → IsName persist_max_iface name
    → IsTrimmedOptional path
    → IsOptional persist_max_path path
    → bus_hint name (of_path path) ≡ some (record { name = name; dbc_path = path })
unfolding bus_hint
bus_hint_kept [] path n t h = absurd (omega arith)
bus_hint_kept (c ∷ s) path n t h = rw (optional_path_kept path t h) refl

moved :
    (out : List PersistedBusHint) (hint : PersistedBusHint) (later : List Text)
    → IsDistinct (names out ++ hint.name ∷ later)
    → IsDistinct (names (out ++ hint ∷ []) ++ later)
moved out hint later d =
    subst IsDistinct
      (sym (append_assoc (names out) (hint.name ∷ []) later)
        ∙ ap (λ ks. ks ++ later) (sym (names-append out (hint ∷ []))))
      d

pub collect_hints_kept :
    (hints out : List PersistedBusHint)
    → All IsHint hints
    → All IsTrimmedHint hints
    → IsDistinct (names out ++ names hints)
    → length out + length hints ≤ persist_max_buses
    → collect_hints (of_hints hints) out ≡ out ++ hints
unfolding collect_hints note_hint sanitize_bus_hint get same
collect_hints_kept [] out h t d room = sym (append-nil out)
collect_hints_kept (hint ∷ hints) out (h, hs) (t, ts) d room =
    let next = out ++ hint ∷ [] in
    let read =
      ap (λ s. bus_hint s (of_path hint.dbc_path))
        (clamp_string_kept hint.name persist_max_iface [] t.0 h.named)
      ∙ bus_hint_kept hint.name hint.dbc_path h.named t.1 h.path in
    let whole = append_assoc out (hint ∷ []) hints in
    let longer = length-append out (hint ∷ []) in
    rw (read, collect_hints, later_fresh (names out) hint.name (names hints) d)
      (elim (Bool-cases (leb persist_max_buses (length next))) [
        | inl e ↦ rw (e, nil_of-length hints (ground (arith, e, longer))) refl
        | inr e ↦ rw e (
            collect_hints_kept hints next hs ts (moved out hint (names hints) d)
              (omega (arith, longer))
            ∙ whole)
      ])

pub collect_selected_kept :
    (ks out : List Text)
    → All (IsName 96) ks
    → All IsTrimmed ks
    → IsDistinct (out ++ ks)
    → length out + length ks ≤ persist_max_selected
    → collect_selected (of_texts ks) out ≡ out ++ ks
unfolding collect_selected
collect_selected_kept [] out h t d room = sym (append-nil out)
collect_selected_kept (k ∷ ks) out (h, hs) (t, ts) d room =
    let next = out ++ k ∷ [] in
    let read = clamp_string_kept k 96 [] t h in
    let there : (length k == 0) ≡ false = ground arith in
    let longer = length-append out (k ∷ []) in
    let rest =
      collect_selected_kept ks next hs ts (subst IsDistinct (sym (append_assoc out (k ∷ []) ks)) d)
        (omega (arith, longer)) in
    rw (read, collect_selected, there, later_fresh out k ks d)
      (elim (Bool-cases (leb persist_max_selected (length next))) [
        | inl e ↦ rw (e, nil_of-length ks (ground (arith, e, longer))) refl
        | inr e ↦ rw e (rest ∙ append_assoc out (k ∷ []) ks)
      ])

-- a field of a draft that may be empty
abbrev pub IsText : ℕ → Text → Type 0
IsText most s = IsTrimmed s × (length s ≤ most)

clamp_trimmed_text : (s : Text) (most : ℕ) → length s ≤ most → clamp_trimmed s most [] ≡ s
unfolding clamp_trimmed
clamp_trimmed_text [] most h = refl
clamp_trimmed_text (c ∷ s) most h = ground arith

pub clamp_string_text : (s : Text) (most : ℕ) → IsText most s → clamp_string (string s) most [] ≡ s
clamp_string_text s most (t, h) = ap (λ u. clamp_trimmed u most []) t ∙ clamp_trimmed_text s most h

-- an entry of `values` that is kept as it is
abbrev pub IsValue : Text → Text → Type 0
IsValue k v = IsTrimmed k × IsName 64 k × IsText 64 v × (same k proto ≡ false)

pub collect_values_kept :
    (m out : List (Text × Text))
    → All (λ e. IsValue e.0 e.1) m
    → IsDistinct (keys out ++ keys m)
    → length out + length m ≤ persist_max_signal_keys
    → collect_values (entries (of_values m)) out ≡ out ++ m
unfolding collect_values
collect_values_kept [] out h d room = sym (append-nil out)
collect_values_kept ((k, v) ∷ m) out ((t, n, v_text, plain), hs) d room =
    let next = out ++ (k, v) ∷ [] in
    let there : (length k == 0) ≡ false = ground arith in
    let longer = length-append out ((k, v) ∷ []) in
    let rest =
      collect_values_kept m next hs (keys_moved Text out m k v d) (omega (arith, longer)) in
    rw
      (
        clamp_string_kept k 64 [] t n,
        collect_values,
        there,
        clamp_string_text v 64 v_text,
        assign_fresh Text k v out plain (later_fresh (keys out) k (keys m) d),
      )
      (elim (Bool-cases (leb persist_max_signal_keys (length next))) [
        | inl e ↦ rw (e, nil_of-length m (ground (arith, e, longer))) refl
        | inr e ↦ rw e (rest ∙ append_assoc out ((k, v) ∷ []) m)
      ])
