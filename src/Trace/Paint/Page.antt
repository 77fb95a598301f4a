-- ===== src/Trace/Paint/Page.antt =====
-- shared/tracePaint.ts: the painted window against the history.
use vanilla_bus.Prelude.{
  ℕ, zero, suc, ◌+◌, ◌-◌, ◌≡◌, refl, sym, ap, ◌∙◌, Bool, true, false, List, [], ◌∷◌, map, some,
  Text, arith, length, length-drop, take, drop, last, get_elem?, length_zero, length-take, dec_lt,
  take_all, Bool-cases, inl, inr, ◌==◌, if◌then◌else◌, ◌||◌, leb, min,
}
use vanilla_bus.Engine.Types.{FrameEvent}
use vanilla_bus.Trace.Ring.{FrameRing, TraceEntry}
use vanilla_bus.Trace.Ring.History.{Holds}
use vanilla_bus.Trace.Filter.{collect_matching_indices, visible_count, ring_index_at}
use vanilla_bus.Trace.Filter.Visible.{shown, visible_row}
use vanilla_bus.Trace.Paint.{
  FirstPaintOptions, or_default, trace_visible_row_budget, painted_row, entry_at, push_row,
  paint_from, paint_visible_window,
}

drop_step :
    {A : Type 0} (xs : List A) (k : ℕ) {x : A} {rest : List A}
    → drop k xs ≡ x ∷ rest
    → (get_elem? xs k ≡ some x) × (drop (k + 1) xs ≡ rest)
drop_step [] zero h = cc
drop_step [] (suc k) h = cc
drop_step (x ∷ xs) zero h = (cc, cc)
drop_step (x ∷ xs) (suc k) h =
    let (here, later) = drop_step xs k h in
    (here, ap (λ j. drop j (x ∷ xs)) {x = suc k + 1} {y = suc (k + 1)} (omega arith) ∙ later)

module _ (ring : FrameRing FrameEvent) (query : Text) (es : List (TraceEntry FrameEvent)) where
  entry_at_row :
      (visible : ℕ) (e : TraceEntry FrameEvent)
      → Holds ring es
      → get_elem? (shown query es) visible ≡ some e
      → entry_at ring (ring_index_at (collect_matching_indices ring query) visible) ≡ some e
  unfolding entry_at
  entry_at_row v e h g =
      let (i, under, found) = (visible_row ring query es h).1 v e g in rw (under, entry_at, found)

  paint_from-drop :
      (visible n : ℕ) (page rest : List (TraceEntry FrameEvent))
      → Holds ring es
      → drop visible (shown query es) ≡ rest
      → take n rest ≡ page
      → length page ≡ n
      → paint_from ring (collect_matching_indices ring query) visible n
        ≡ some (map painted_row page)
  unfolding paint_from push_row
  paint_from-drop v zero [] rest h d t l = refl
  paint_from-drop v zero (p ∷ page) rest h d t l = absurd (omega arith)
  paint_from-drop v (suc n) [] rest h d t l = absurd (omega arith)
  paint_from-drop v (suc n) (p ∷ page) [] h d t l = absurd (ground arith)
  paint_from-drop v (suc n) (p ∷ page) (x ∷ rest) h d t l =
      let (here, later) = drop_step (shown query es) v d in
      ground (
        arith,
        entry_at_row v x h here,
        paint_from-drop (v + 1) n page rest h later (ground arith) (omega arith),
      )

-- the newest `budget` entries, or the oldest
abbrev pub page : Bool → ℕ → List (TraceEntry FrameEvent) → List (TraceEntry FrameEvent)
page true budget es = last budget es
page false budget es = take budget es

take-min : {A : Type 0} (n : ℕ) (xs : List A) → take (min (length xs) n) xs ≡ take n xs
take-min n xs = elim (dec_lt n (length xs)) [
  | yes p ↦ ap (λ k. take k xs) (omega arith)
  | no p ↦ take_all (min (length xs) n) xs (omega arith) ∙ sym (take_all n xs (omega arith))
]

page_of_zero :
    (follow : Bool) (budget : ℕ) (xs : List (TraceEntry FrameEvent))
    → (length xs == 0 || leb budget 0) ≡ true
    → page follow budget xs ≡ []
page_of_zero true budget xs h = length_zero _ (ground (arith, length-drop (length xs - budget) xs))
page_of_zero false budget xs h = length_zero _ (ground (arith, length-take budget xs))

module _ (ring : FrameRing FrameEvent) (query : Text) (es : List (TraceEntry FrameEvent)) where
  abbrev rows_wanted : ℕ → ℕ → ℕ → ℕ
  rows_wanted count start budget = min count (start + budget) - start

  paint_pages :
      (follow : Bool) (budget count : ℕ)
      → Holds ring es
      → count ≡ length (shown query es)
      → let start = if follow then count - budget else 0 in
        paint_from ring (collect_matching_indices ring query) start (rows_wanted count start budget)
        ≡ some (map painted_row (page follow budget (shown query es)))
  paint_pages true budget count h e =
      let xs = shown query es in
      let whole = length-drop (length xs - budget) xs in
      paint_from-drop ring query es (count - budget) _ (last budget xs) _ h refl
        (take_all (rows_wanted count (count - budget) budget) (drop (count - budget) xs)
            (omega (arith, length-drop (count - budget) xs, e))
          ∙ ap (λ k. drop (k - budget) xs) e)
        (omega (arith, whole))
  paint_pages false budget count h e =
      let xs = shown query es in
      paint_from-drop ring query es 0 _ (take budget xs) _ h refl
        (ap (λ k. take k xs) (omega (arith, e)) ∙ take-min budget xs)
        (omega (arith, length-take budget xs))

-- If the ring holds a history, the painted window is the newest `visibleBudget` entries that match
-- the filter (the oldest, if `followNewest` is false), each painted by its own fields, in order and
-- with no exception; the time and rate columns are left out.
pub paint-page :
    (ring : FrameRing FrameEvent) (es : List (TraceEntry FrameEvent)) (options : FirstPaintOptions)
    → Holds ring es
    → paint_visible_window ring options
      ≡ some (
          map painted_row (
            page
              (or_default options.follow_newest true)
              (or_default options.visible_budget trace_visible_row_budget)
              (shown (or_default options.filter []) es)))
unfolding paint_visible_window
paint-page ring es options h =
    let query = or_default options.filter [] in
    let budget = or_default options.visible_budget trace_visible_row_budget in
    let follow = or_default options.follow_newest true in
    let indices = collect_matching_indices ring query in
    let counted = (visible_row ring query es h).0 in
    elim (Bool-cases (visible_count ring indices == 0 || leb budget 0)) [
      | inl none_fit ↦
          rw (none_fit, paint_visible_window)
            (ap (λ rows. some (map painted_row rows))
              (sym (page_of_zero follow budget (shown query es) (rw counted at none_fit))))
      | inr some_fit ↦
          rw (some_fit, paint_visible_window)
            (paint_pages ring query es follow budget (visible_count ring indices) h counted)
    ]
