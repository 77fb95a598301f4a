-- ===== src/Trace/Filter/Visible.antt =====
-- shared/traceFilter.ts: the visible rows against the history.
use vanilla_bus.Prelude.{
  ℕ, ◌+◌, ◌≡◌, refl, sym, ap, ◌∙◌, true, List, [], ◌∷◌, ◌++◌, map, Option, none, some, Text, arith,
  length, length-append, length-map, filter, get_elem?, get_elem?-map, append_assoc, Bool-cases,
  inl, inr, ◌==◌,
}
use mathlib.Core.Option
use mathlib.Core.Path.{subst}
use vanilla_bus.Prelude.Int.{pos}
use vanilla_bus.Prelude.Strings.{trim}
use vanilla_bus.Engine.Types.{FrameEvent}
use vanilla_bus.Trace.Ring.{FrameRing, TraceEntry, at}
use vanilla_bus.Trace.Ring.History.{Holds, at-Holds, size-Holds}
use vanilla_bus.Trace.Filter.{
  matches_needle, frame_matches_filter, entry_matches, collect, collect_matching_indices,
  visible_count, ring_index_at,
}

-- the entries that match the query
abbrev pub shown : Text → List (TraceEntry FrameEvent) → List (TraceEntry FrameEvent)
shown query = filter (λ e. frame_matches_filter e.frame query)

map-eq-some :
    {A B : Type 0} (f : A → B) (o : Option A) {b : B}
    → Option.map f o ≡ some b
    → (a : A) × (o ≡ some a) × (f a ≡ b)
map-eq-some f none h = cc
map-eq-some f (some a) h = (a, refl, cc)

get-middle :
    {A : Type 0} (front : List A) (e : A) (back : List A)
    → get_elem? (front ++ e ∷ back) (length front) ≡ some e
get-middle [] e back = refl
get-middle (x ∷ front) e back = get-middle front e back

module _ (ring : FrameRing FrameEvent) (query : Text) where
  map-collect :
      (front back : List (TraceEntry FrameEvent)) (i : ℕ)
      → i ≡ length front
      → Holds ring (front ++ back)
      → map (λ j. at ring (pos j)) (collect ring query i (length back))
        ≡ map (λ e. some (some e)) (shown query back)
  unfolding collect entry_matches
  map-collect front [] i e h = refl
  map-collect front (x ∷ back) i e h =
      let found : at ring (pos i) ≡ some (some x) =
        at-Holds ring (front ++ x ∷ back) i h
        ∙ ap (Option.map some) (ap (get_elem? (front ++ x ∷ back)) e ∙ get-middle front x back) in
      let rest =
        map-collect (front ++ x ∷ []) back (i + 1) (omega (arith, length-append front (x ∷ [])))
          (subst (Holds ring) (sym (append_assoc front (x ∷ []) back)) h) in
      ground (arith, found, rest)

empty_of_length : (s : Text) → (length s == 0) ≡ true → s ≡ []
empty_of_length [] h = refl
empty_of_length (c ∷ s) h = absurd (ground arith)

blank_matches :
    (query : Text) (frame : FrameEvent)
    → (length (trim query) == 0) ≡ true
    → frame_matches_filter frame query ≡ true
unfolding frame_matches_filter
blank_matches query frame h = rw (empty_of_length (trim query) h, matches_needle)

shown_blank :
    (query : Text) (es : List (TraceEntry FrameEvent))
    → (length (trim query) == 0) ≡ true
    → shown query es ≡ es
shown_blank query [] h = refl
shown_blank query (e ∷ es) h = ground (arith, blank_matches query e.frame h, shown_blank query es h)

module _ (ring : FrameRing FrameEvent) (query : Text) (es : List (TraceEntry FrameEvent)) where
  visible_blank :
      Holds ring es
      → (length (trim query) == 0) ≡ true
      → (visible_count ring none ≡ length (shown query es))
        × ((visible : ℕ)
            → at ring (pos visible) ≡ Option.map some (get_elem? (shown query es) visible))
  unfolding visible_count
  visible_blank h e =
      rw (shown_blank query es e) (sym (size-Holds ring es h), λ v. at-Holds ring es v h)

  visible_filtered :
      Holds ring es
      → map (λ j. at ring (pos j)) (collect ring query 0 ring.size)
        ≡ map (λ e. some (some e)) (shown query es)
  visible_filtered h =
      ap (λ n. map (λ j. at ring (pos j)) (collect ring query 0 n)) (sym (size-Holds ring es h))
      ∙ map-collect ring query [] es 0 refl h

  visible_some :
      (visible : ℕ) (e : TraceEntry FrameEvent)
      → Holds ring es
      → get_elem? (shown query es) visible ≡ some e
      → (i : ℕ) × (get_elem? (collect ring query 0 ring.size) visible ≡ some i)
        × (at ring (pos i) ≡ some (some e))
  visible_some v e h g =
      map-eq-some (λ j. at ring (pos j)) (get_elem? (collect ring query 0 ring.size) v)
        (sym (get_elem?-map (λ j. at ring (pos j)) (collect ring query 0 ring.size) v)
          ∙ ap (λ xs. get_elem? xs v) (visible_filtered h)
          ∙ get_elem?-map (λ e. some (some e)) (shown query es) v
          ∙ ap (Option.map (λ e. some (some e))) g)

-- If the ring holds a history, the table has as many rows as entries of it match the query, and
-- `ringIndexAt` and `at` lead from row `visible` to the matching entry at that place, with no
-- exception.
pub visible_row :
    (ring : FrameRing FrameEvent) (query : Text) (es : List (TraceEntry FrameEvent))
    → Holds ring es
    → let indices = collect_matching_indices ring query in
      (visible_count ring indices ≡ length (shown query es))
      × ((visible : ℕ) (e : TraceEntry FrameEvent)
          → get_elem? (shown query es) visible ≡ some e
          → (i : ℕ) × (ring_index_at indices visible ≡ some i) × (at ring (pos i) ≡ some (some e)))
unfolding collect_matching_indices visible_count ring_index_at
visible_row ring query es h = elim (Bool-cases (length (trim query) == 0)) [
  | inl blank ↦
      rw (blank, collect_matching_indices)
        (
          (visible_blank ring query es h blank).0,
          λ v e g. (v, refl, (visible_blank ring query es h blank).1 v ∙ ap (Option.map some) g),
        )
  | inr some_query ↦
      rw (some_query, collect_matching_indices)
        (
          omega (
            arith,
            length-map (λ j. at ring (pos j)) (collect ring query 0 ring.size),
            ap length (visible_filtered ring query es h),
            length-map {B = Option (Option (TraceEntry FrameEvent))} (λ e. some (some e))
                (shown query es),
          ),
          λ v e g. visible_some ring query es v e h g,
        )
]
