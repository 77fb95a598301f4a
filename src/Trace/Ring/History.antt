-- ===== src/Trace/Ring/History.antt =====
-- shared/traceRing.ts: `FrameRing` against the history of the frames.
use vanilla_bus.Prelude.{
  ℕ, ◌+◌, ◌-◌, ◌<◌, ◌≡◌, refl, sym, ap, ap₂, ◌∙◌, List, [], ◌∷◌, ◌++◌, map, Option, none, some,
  arith, length, length-append, get_elem?, last, drop-nil, last-append-last, append_assoc,
  append-nil, length-map, map-last, get_elem?-map, get_elem?_beyond, dec_lt, length-replicate,
}
use mathlib.Core.List.{map-append}
use mathlib.Core.Path.{subst}
use mathlib.Core.Option
use vanilla_bus.Prelude.Int.{pos}
use vanilla_bus.Trace.Ring.{FrameRing, TraceEntry, fresh, at, append, clear}
use vanilla_bus.Trace.Ring.Inv.{IsValid, append-IsValid, clear-IsValid}
use vanilla_bus.Trace.Ring.Refine.{
  contents, length-contents, numbered, contents-append_from, dropped-append_from,
  counters-append_from, get-window,
}

-- `Holds r es`: the ring is well formed and its live slots are exactly `es`, oldest first.
pub record Holds {ℓ} {A : Type ℓ} (r : FrameRing A) (es : List (TraceEntry A)) : Type ℓ where
  pub valid : IsValid r
  pub live : contents r ≡ map some es

pub fresh_counters {ℓ} :
    (A : Type ℓ) (bound : ℕ)
    → ((fresh {A = A} bound).capacity ≡ bound)
      × ((fresh {A = A} bound).next_seq ≡ 1)
      × ((fresh {A = A} bound).size ≡ 0)
unfolding fresh
fresh_counters A bound = (refl, refl, refl)

module _ {ℓ} {A : Type ℓ} where
  pub size-Holds : (r : FrameRing A) (es : List (TraceEntry A)) → Holds r es → length es ≡ r.size
  size-Holds r es h =
      omega
        (arith, length-contents r, ap length h.live, length-map {B = Option (TraceEntry A)} some es)

  -- If a ring holds a history, then after `append` it holds the newest `capacity` entries of that
  -- history with the new frames at its end, numbered on in the order of arrival; `append` returns
  -- how many entries were lost, `dropped_oldest` grows by that number, `next_seq` by the number of
  -- frames, and the capacity stays.
  pub append-Holds :
      (r : FrameRing A) (es : List (TraceEntry A)) (frames : List A)
      → Holds r es
      → Holds (append r frames).0 (last r.capacity (es ++ numbered r.next_seq frames))
        × ((append r frames).1 ≡ length es + length frames - r.capacity)
        × ((append r frames).0.dropped_oldest ≡ r.dropped_oldest + (append r frames).1)
        × ((append r frames).0.next_seq ≡ r.next_seq + length frames)
        × ((append r frames).0.capacity ≡ r.capacity)
  unfolding append
  append-Holds r es frames h =
      let (next, lost, bound) = counters-append_from r frames 0 in
      let seen = contents-append_from r frames 0 h.valid in
      (
        record {
          valid = append-IsValid r frames h.valid;
          live =
              seen
              ∙ ap (λ xs. last r.capacity (xs ++ map some (numbered r.next_seq frames))) h.live
              ∙ sym (
                  map-last some r.capacity (es ++ numbered r.next_seq frames)
                  ∙ ap (last r.capacity) (map-append some es (numbered r.next_seq frames)));
        },
        omega (arith, dropped-append_from r frames 0 h.valid, size-Holds r es h),
        omega (arith, lost),
        next,
        bound,
      )

  -- If a ring holds a history, `at` of an index that is not negative returns the entry at that
  -- place from the oldest on, and throws exactly where the history has no such place.
  pub at-Holds :
      (r : FrameRing A) (es : List (TraceEntry A)) (i : ℕ)
      → Holds r es
      → at r (pos i) ≡ Option.map some (get_elem? es i)
  unfolding at
  at-Holds r es i h = elim (dec_lt i r.size) [
    | yes p ↦ ground (
      arith,
      sym (get-window r.slots r.capacity r.head r.size i p)
          ∙ ap (λ xs. get_elem? xs i) h.live
          ∙ get_elem?-map some es i,
    )
    | no p ↦ ground (arith, get_elem?_beyond es i (omega (arith, size-Holds r es h)))
  ]

  pub clear-Holds : (r : FrameRing A) (es : List (TraceEntry A)) → Holds r es → Holds (clear r) []
  unfolding clear
  clear-Holds r es h = record { valid = clear-IsValid r h.valid; live = refl }

  pub fresh-Holds : (bound : ℕ) → 0 < bound → Holds {A = A} (fresh bound) []
  unfolding fresh
  fresh-Holds bound h = record {
    valid = omega (arith, length-replicate {A = Option (TraceEntry A)} bound none);
    live = refl;
  }

  -- batch after batch, as they arrive
  pub append_all : FrameRing A → List (List A) → FrameRing A
  append_all r [] = r
  append_all r (frames ∷ batches) = append_all (append r frames).0 batches

  abbrev pub concat : List (List A) → List A
  concat [] = []
  concat (xs ∷ xss) = xs ++ concat xss

  numbered-append :
      (seq : ℕ) (xs ys : List A)
      → numbered seq (xs ++ ys) ≡ numbered seq xs ++ numbered (seq + length xs) ys
  numbered-append seq [] ys = ap (λ k. numbered k ys) (omega arith)
  numbered-append seq (x ∷ xs) ys = ap (◌∷◌ (record { seq = seq; frame = x })) (
      numbered-append (seq + 1) xs ys
      ∙ ap (λ k. numbered (seq + 1) xs ++ numbered k ys) (omega arith))

  -- The window over a numbered history moves on with the history.
  pub append-Holds_numbered :
      (r : FrameRing A) (bound first : ℕ) (seen frames : List A)
      → r.capacity ≡ bound
      → r.next_seq ≡ first + length seen
      → Holds r (last bound (numbered first seen))
      → Holds (append r frames).0 (last bound (numbered first (seen ++ frames)))
  append-Holds_numbered r bound first seen frames c n h =
      subst (Holds (append r frames).0)
        (ap₂ (λ k m. last k (last bound (numbered first seen) ++ numbered m frames)) c n
          ∙ last-append-last bound (numbered first seen) (numbered (first + length seen) frames)
          ∙ ap (last bound) (sym (numbered-append first seen frames)))
        (append-Holds r (last bound (numbered first seen)) frames h).0

  append_all-Holds_from :
      (r : FrameRing A) (bound : ℕ) (seen : List A) (batches : List (List A))
      → r.capacity ≡ bound
      → r.next_seq ≡ 1 + length seen
      → Holds r (last bound (numbered 1 seen))
      → Holds (append_all r batches) (last bound (numbered 1 (seen ++ concat batches)))
  unfolding append_all
  append_all-Holds_from r bound seen [] c n h = rw append-nil h
  append_all-Holds_from r bound seen (frames ∷ batches) c n h =
      let (_, _, _, next, same) = append-Holds r (last bound (numbered 1 seen)) frames h in
      rw (← append_assoc seen frames (concat batches)) (
        append_all-Holds_from (append r frames).0 bound (seen ++ frames) batches (same ∙ c)
          (omega (arith, length-append seen frames))
          (append-Holds_numbered r bound 1 seen frames c n h))

  -- However the frames are batched, a new ring of a positive capacity `bound` ends up with the
  -- newest `bound` of them, each under its number in the order of arrival, from 1 on.
  pub append_all-Holds :
      (bound : ℕ) (batches : List (List A))
      → 0 < bound
      → Holds (append_all (fresh bound) batches) (last bound (numbered 1 (concat batches)))
  unfolding fresh
  append_all-Holds bound batches h =
      append_all-Holds_from (fresh bound) bound [] batches refl refl
        (rw (drop-nil (0 - bound)) (fresh-Holds bound h))

  pub capacity-clear : (r : FrameRing A) → (clear r).capacity ≡ r.capacity
  unfolding clear
  capacity-clear r = refl

  pub next_seq-clear : (r : FrameRing A) → (clear r).next_seq ≡ r.next_seq
  unfolding clear
  next_seq-clear r = refl
