-- ===== src/Graph/Buffer/Bins.antt =====
-- shared/graphStore.ts: the bins behind the samples of a `SeriesBuffer`.
use vanilla_bus.Prelude.{
  ℕ, zero, suc, ◌+◌, ◌-◌, ◌*◌, ◌≤◌, ◌<◌, ◌≡◌, ◌⊎◌, inl, inr, refl, sym, ap, ◌∙◌, List, [], ◌∷◌,
  ◌++◌, Option, none, some, arith, length, drop, ltb, Bool-cases, dec_lt, drop-nil, drop-drop,
  if◌then◌else◌,
}
use mathlib.Core.Path.{subst}
use vanilla_bus.Prelude.Int.{ℤ, pos, ltb_ℤ}
use vanilla_bus.Graph.Decimate.{Sample, replace_last}
use vanilla_bus.Graph.Buffer.{SeriesBuffer, last?, append, drop_before, cap_to, bin_of, trim, clear}

module _ {V : Type 0} (b : SeriesBuffer V) (ts : ℕ) (value : V) (interval : ℕ) where
  abbrev new_sample : Sample V
  new_sample = record { ts_us = ts; value = value }

  append_first :
      b.samples ≡ []
      → b.bin_start_us ≡ none
      → append b ts value interval ≡ record { samples = new_sample ∷ []; bin_start_us = some ts }
  unfolding append
  append_first e n = ground arith

  append_late :
      (s : Sample V) → last? b.samples ≡ some s → ts < s.ts_us → append b ts value interval ≡ b
  unfolding append
  append_late s e h = ground arith

  append_replaced :
      (s : Sample V) (l : ℕ)
      → last? b.samples ≡ some s
      → s.ts_us ≤ ts
      → b.bin_start_us ≡ some l
      → l ≤ ts
      → ts < l + interval
      → append b ts value interval ≡ record b { samples = replace_last b.samples new_sample }
  unfolding append
  append_replaced s l e h n p q = ground arith

  append_pushed :
      (s : Sample V) (l : ℕ)
      → last? b.samples ≡ some s
      → s.ts_us ≤ ts
      → b.bin_start_us ≡ some l
      → l + interval ≤ ts
      → append b ts value interval
        ≡ record { samples = b.samples ++ new_sample ∷ []; bin_start_us = some ts }
  unfolding append
  append_pushed s l e h n p = ground arith

module _ {V : Type 0} (interval : ℕ) where
  -- The samples from bin `b` to bin `l`: each lies in its bin, and a bin starts at least an interval
  -- after the one before.
  abbrev pub Binned : ℕ → List (Sample V) → ℕ → Type 0
  Binned b [] l = ⊥
  Binned b (s ∷ []) l = (b ≡ l) × (b ≤ s.ts_us) × (s.ts_us < b + interval)
  Binned b (s ∷ t ∷ ss) l =
      (b ≤ s.ts_us)
      × (s.ts_us < b + interval)
      × ((c : ℕ) × (b + interval ≤ c) × Binned c (t ∷ ss) l)

  Binned-snoc :
      (b l : ℕ) (xs : List (Sample V)) (s : Sample V)
      → 0 < interval
      → Binned b xs l
      → l + interval ≤ s.ts_us
      → Binned b (xs ++ s ∷ []) s.ts_us
  Binned-snoc b l [] s i h g = absurd h
  Binned-snoc b l (x ∷ []) s i h g =
      (h.1, h.2, (s.ts_us, omega arith, (refl, omega arith, omega arith)))
  Binned-snoc b l (x ∷ y ∷ xs) s i (h, k, (c, d, r)) g =
      (h, k, (c, d, Binned-snoc c l (y ∷ xs) s i r g))

  Binned-replace_last :
      (b l : ℕ) (xs : List (Sample V)) (s : Sample V)
      → Binned b xs l
      → l ≤ s.ts_us
      → s.ts_us < l + interval
      → Binned b (replace_last xs s) l
  Binned-replace_last b l [] s h p q = absurd h
  Binned-replace_last b l (x ∷ []) s h p q = (h.0, omega arith, omega arith)
  Binned-replace_last b l (x ∷ y ∷ []) s (h, k, (c, d, r)) p q =
      (h, k, (c, d, Binned-replace_last c l (y ∷ []) s r p q))
  Binned-replace_last b l (x ∷ y ∷ z ∷ xs) s (h, k, (c, d, r)) p q =
      (h, k, (c, d, Binned-replace_last c l (y ∷ z ∷ xs) s r p q))

  -- The newest sample is in the last bin.
  pub Binned-last :
      (b l : ℕ) (xs : List (Sample V))
      → Binned b xs l
      → (s : Sample V) × (last? xs ≡ some s) × (l ≤ s.ts_us) × (s.ts_us < l + interval)
  Binned-last b l [] h = absurd h
  Binned-last b l (x ∷ []) h = (x, refl, omega arith, omega arith)
  Binned-last b l (x ∷ y ∷ xs) (h, k, (c, d, r)) = Binned-last c l (y ∷ xs) r

  -- As many intervals as bins after the first fit between the first and the last.
  pub Binned-length :
      (b l : ℕ) (x : Sample V) (xs : List (Sample V))
      → Binned b (x ∷ xs) l
      → length xs * interval + b ≤ l
  Binned-length b l x [] h = omega arith
  Binned-length b l x (y ∷ xs) (h, k, (c, d, r)) = grind (arith, Binned-length c l y xs r)

  -- A buffer is empty, or binned up to its open bin.
  abbrev pub IsBinned : SeriesBuffer V → Type 0
  IsBinned b =
      ((b.samples ≡ []) × (b.bin_start_us ≡ none))
      ⊎ ((first l : ℕ) × (b.bin_start_us ≡ some l) × Binned first b.samples l)

  -- For a positive interval, if a buffer holds one sample to a bin and its bins start an interval
  -- apart at least, it does so after `append` of a sample at any time stamp.
  pub append-IsBinned :
      (b : SeriesBuffer V) (ts : ℕ) (value : V)
      → 0 < interval
      → IsBinned b
      → IsBinned (append b ts value interval)
  append-IsBinned b ts value i (inl (empty, closed)) =
      subst IsBinned (sym (append_first b ts value interval empty closed))
        (inr (ts, ts, refl, (refl, omega arith, omega arith)))
  append-IsBinned b ts value i (inr (first, l, open_bin, binned)) =
      let (s, newest, lo, hi) = Binned-last first l b.samples binned in
      elim (dec_lt ts s.ts_us) [
        | yes late ↦
            subst IsBinned (sym (append_late b ts value interval s newest late))
              (inr (first, l, open_bin, binned))
        | no on_time ↦ elim (dec_lt ts (l + interval)) [
          | yes inside ↦
              subst IsBinned
                (sym (
                  append_replaced b ts value interval s l newest (omega arith) open_bin
                    (omega arith) inside))
                (inr (
                  first,
                  l,
                  open_bin,
                  Binned-replace_last first l b.samples _ binned (omega arith) inside,
                ))
          | no outside ↦
              subst IsBinned
                (sym (
                  append_pushed b ts value interval s l newest (omega arith) open_bin
                    (omega arith)))
                (inr (first, ts, refl, Binned-snoc first l b.samples _ i binned (omega arith)))
        ]
      ]

  pub Binned-drop :
      (k b l : ℕ) (xs : List (Sample V))
      → Binned b xs l
      → (drop k xs ≡ []) ⊎ ((c : ℕ) × (b ≤ c) × Binned c (drop k xs) l)
  Binned-drop zero b l xs h = inr (b, omega arith, h)
  Binned-drop (suc k) b l [] h = absurd h
  Binned-drop (suc k) b l (x ∷ []) h = inl (drop-nil k)
  Binned-drop (suc k) b l (x ∷ y ∷ xs) (h, g, (c, d, r)) = elim (Binned-drop k c l (y ∷ xs) r) [
    | inl e ↦ inl e
    | inr (c', d', r') ↦ inr (c', omega arith, r')
  ]

  pub drop_before-drop :
      (start : ℤ) (xs : List (Sample V)) → (k : ℕ) × (drop_before start xs ≡ drop k xs)
  drop_before-drop start [] = (0, refl)
  drop_before-drop start (x ∷ xs) = elim (Bool-cases (ltb_ℤ (pos x.ts_us) start)) [
    | inl e ↦ let (k, d) = drop_before-drop start xs in (suc k, ground arith)
    | inr e ↦ (0, ground arith)
  ]

  cap_to-drop : (most : Option ℕ) (xs : List (Sample V)) → (k : ℕ) × (cap_to most xs ≡ drop k xs)
  cap_to-drop none xs = (0, refl)
  cap_to-drop (some most) xs = (if ltb most (length xs) then length xs - most else 0, ground arith)

  trimmed-drop :
      (start : ℤ) (most : Option ℕ) (xs : List (Sample V))
      → (k : ℕ) × (cap_to most (drop_before start xs) ≡ drop k xs)
  trimmed-drop start most xs =
      let (i, before) = drop_before-drop start xs in
      let (j, capped) = cap_to-drop most (drop_before start xs) in
      (i + j, capped ∙ ap (drop j) before ∙ drop-drop j i xs)

  bin_of-Binned :
      (b l : ℕ) (xs : List (Sample V)) (bin : Option ℕ) → Binned b xs l → bin_of xs bin ≡ bin
  bin_of-Binned b l [] bin h = absurd h
  bin_of-Binned b l (x ∷ xs) bin h = refl

  kept-IsBinned :
      (b : SeriesBuffer V) (k : ℕ)
      → IsBinned b
      → IsBinned (record {
        samples = drop k b.samples;
        bin_start_us = bin_of (drop k b.samples) b.bin_start_us;
      })
  kept-IsBinned b k (inl (empty, closed)) =
      let none_left = ap (drop k) empty ∙ drop-nil k in
      inl (none_left, ap (λ xs. bin_of xs b.bin_start_us) none_left)
  kept-IsBinned b k (inr (first, l, open_bin, binned)) =
      elim (Binned-drop k first l b.samples binned) [
        | inl none_left ↦ inl (none_left, ap (λ xs. bin_of xs b.bin_start_us) none_left)
        | inr (c, _, rest) ↦
            inr (c, l, bin_of-Binned c l (drop k b.samples) b.bin_start_us rest ∙ open_bin, rest)
      ]

  -- If a buffer holds one sample to a bin and its bins start an interval apart at least, it does so
  -- after `trim`, whatever the window and the cap; its open bin is then that of the newest sample, or none
  -- if nothing is left.
  pub trim-IsBinned :
      (b : SeriesBuffer V) (start : ℤ) (most : Option ℕ) → IsBinned b → IsBinned (trim b start most)
  unfolding trim
  trim-IsBinned b start most h =
      let (k, kept) = trimmed-drop start most b.samples in
      subst (λ xs. IsBinned (record { samples = xs; bin_start_us = bin_of xs b.bin_start_us }))
        (sym kept) (kept-IsBinned b k h)

  pub clear-IsBinned : (b : SeriesBuffer V) → IsBinned (clear b)
  unfolding clear
  clear-IsBinned b = inl (refl, refl)
