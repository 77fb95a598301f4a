-- ===== src/Graph/Buffer/Capacity.antt =====
-- shared/graphStore.ts: the cap on the samples of a series against its time window.
use vanilla_bus.Prelude.{
  ℕ, zero, suc, ◌+◌, ◌*◌, ◌/◌, ◌≤◌, ◌<◌, ◌≡◌, ◌⊎◌, inl, inr, refl, sym, ap, ◌∙◌, Bool, true, false,
  ◌&&◌, List, [], ◌∷◌, none, some, arith, length, drop, leb, dec_lt, leb→le, All, drop-nil,
}
use mathlib.Core.Path.{subst}
use native.Mathlib.Nat.{mul-le-mul_right}
use vanilla_bus.Prelude.Int.{ℤ, pos, ltb_ℤ}
use vanilla_bus.Graph.Window.{
  is_graph_window_sec, clamp_graph_hz, graph_sample_interval_us, window_start_us,
  max_samples_for_window,
}
use vanilla_bus.Graph.Decimate.{Sample}
use vanilla_bus.Graph.Buffer.{SeriesBuffer, last?, drop_before, trim}
use vanilla_bus.Graph.Buffer.Bins.{
  Binned, Binned-last, Binned-length, Binned-drop, drop_before-drop, IsBinned,
}

-- Every rate that the clamp lets through, checked one by one: one interval more than the cap allows
-- for does not fit the window.
all_from : ℕ → ℕ → (ℕ → Bool) → Bool
all_from zero from p = true
all_from (suc n) from p = p from && all_from n (from + 1) p

all_from_sound :
    (n from : ℕ) (p : ℕ → Bool) (x : ℕ)
    → all_from n from p ≡ true
    → from ≤ x
    → x < from + n
    → p x ≡ true
unfolding all_from
all_from_sound zero from p x h lo hi = absurd (omega arith)
all_from_sound (suc n) from p x h lo hi = elim (dec_lt from x) [
  | yes later ↦ all_from_sound n (from + 1) p x (ground arith) (omega arith) (omega arith)
  | no now ↦ let e : from ≡ x = omega arith in ground (arith, ap p e)
]

-- the sample interval of a rate inside the clamp
abbrev interval_of : ℕ → ℕ
interval_of hz = (2 * 1000000 + hz) / (2 * hz)

abbrev cap_covers : ℕ → ℕ → Bool
cap_covers window hz = leb (window * 1000000) ((window * hz + 1) * interval_of hz)

cap_covers_table :
    (all_from 21 10 (cap_covers 10) ≡ true)
    × (all_from 21 10 (cap_covers 30) ≡ true)
    × (all_from 21 10 (cap_covers 60) ≡ true)
unfolding all_from
cap_covers_table = (refl, refl, refl)

window_cases :
    (window : ℕ) → is_graph_window_sec window ≡ true → (window ≡ 10) ⊎ (window ≡ 30) ⊎ (window ≡ 60)
unfolding is_graph_window_sec
window_cases window h = ground arith

cap_covers_lem :
    (window hz : ℕ)
    → is_graph_window_sec window ≡ true
    → 10 ≤ hz
    → hz ≤ 30
    → window * 1000000 ≤ (window * hz + 1) * interval_of hz
cap_covers_lem window hz w lo hi = elim (window_cases window w) [
  | inl e ↦
      subst (λ s. s * 1000000 ≤ (s * hz + 1) * interval_of hz) (sym e)
        (leb→le _ _ (all_from_sound 21 10 (cap_covers 10) hz cap_covers_table.0 lo (omega arith)))
  | inr (inl e) ↦
      subst (λ s. s * 1000000 ≤ (s * hz + 1) * interval_of hz) (sym e)
        (leb→le _ _ (all_from_sound 21 10 (cap_covers 30) hz cap_covers_table.1 lo (omega arith)))
  | inr (inr e) ↦
      subst (λ s. s * 1000000 ≤ (s * hz + 1) * interval_of hz) (sym e)
        (leb→le _ _ (all_from_sound 21 10 (cap_covers 60) hz cap_covers_table.2 lo (omega arith)))
]

interval-clamped : (hz : ℕ) → 10 ≤ hz → hz ≤ 30 → graph_sample_interval_us hz ≡ interval_of hz
unfolding graph_sample_interval_us
interval-clamped hz lo hi = ap interval_of {x = clamp_graph_hz (some (pos hz))} (omega arith)

max_samples-clamped :
    (window hz : ℕ) → 10 ≤ hz → hz ≤ 30 → max_samples_for_window window hz ≡ window * hz + 2
unfolding max_samples_for_window
max_samples-clamped window hz lo hi =
    ap (λ h. window * h + 2) {x = clamp_graph_hz (some (pos hz))} (omega arith)

cancel : (a b i : ℕ) → a * i < b * i → a < b
cancel a b i h = elim (dec_lt a b) [
  | yes p ↦ p
  | no p ↦ absurd (omega (arith, mul-le-mul_right {m = b} {n = a} i (omega arith)))
]

List-cases {ℓ} :
    {A : Type ℓ} (xs : List A) → (xs ≡ []) ⊎ ((x : A) × (rest : List A) × (xs ≡ x ∷ rest))
List-cases [] = inl refl
List-cases (x ∷ xs) = inr (x, xs, refl)

module _ {V : Type 0} where
  last?-All :
      (P : Sample V → Type 0) (xs : List (Sample V)) {s : Sample V}
      → All P xs
      → last? xs ≡ some s
      → P s
  last?-All P [] a e = cc
  last?-All P (x ∷ []) {s} a e = let same : x ≡ s = cc in subst P same a.0
  last?-All P (x ∷ y ∷ xs) a e = last?-All P (y ∷ xs) a.1 e

  -- the first sample that is kept is not before the start
  drop_before-head :
      (start : ℤ) (xs : List (Sample V)) (x : Sample V) (rest : List (Sample V))
      → drop_before start xs ≡ x ∷ rest
      → ltb_ℤ (pos x.ts_us) start ≡ false
  drop_before-head start [] x rest e = cc
  drop_before-head start (y ∷ xs) x rest e = ground (arith, drop_before-head start xs x rest)

  not_before :
      (x : Sample V) (now window : ℕ)
      → ltb_ℤ (pos x.ts_us) (window_start_us now window) ≡ false
      → now ≤ x.ts_us + window * 1000000
  not_before x now window h = ground arith

  Binned-fits :
      (interval bound start_us now c l : ℕ) (xs : List (Sample V)) (x : Sample V)
      (rest : List (Sample V))
      → xs ≡ x ∷ rest
      → Binned interval c xs l
      → start_us ≤ bound * interval
      → l ≤ now
      → now ≤ x.ts_us + start_us
      → length xs ≤ bound + 1
  Binned-fits interval bound start_us now c l [] z zs e h w n g = absurd h
  Binned-fits interval bound start_us now c l (x ∷ []) z zs e h w n g = omega arith
  Binned-fits interval bound start_us now c l (x ∷ y ∷ rest) z zs e (lo, hi, (d, gap, binned)) w n
        g =
      let same : x ≡ z = cc e in
      let when = ap (λ (s : Sample V). s.ts_us) same in
      let fits = Binned-length interval d l y rest binned in
      let few = cancel (length rest) bound interval (omega arith) in omega arith

  drop_before-fits :
      (window hz now : ℕ) (b : SeriesBuffer V)
      → is_graph_window_sec window ≡ true
      → 10 ≤ hz
      → hz ≤ 30
      → IsBinned (graph_sample_interval_us hz) b
      → All (λ s. s.ts_us ≤ now) b.samples
      → length (drop_before (window_start_us now window) b.samples)
        ≤ max_samples_for_window window hz
  drop_before-fits window hz now b w lo hi h a =
      let start = window_start_us now window in
      let (k, before) = drop_before-drop (graph_sample_interval_us hz) start b.samples in
      elim h [
        | inl (empty, _) ↦ omega (arith, ap length (before ∙ ap (drop k) empty ∙ drop-nil k))
        | inr (first, l, _, binned) ↦
            let (s, newest, at_most, _) =
              Binned-last (graph_sample_interval_us hz) first l b.samples binned in
            let recent = last?-All (λ s. s.ts_us ≤ now) b.samples a newest in
            elim (Binned-drop (graph_sample_interval_us hz) k first l b.samples binned) [
              | inl none_left ↦ omega (arith, ap length (before ∙ none_left))
              | inr (c, _, rest) ↦ elim (List-cases (drop_before start b.samples)) [
                | inl e ↦ omega (arith, ap length e)
                | inr (x, xs, e) ↦
                    let few =
                      Binned-fits (graph_sample_interval_us hz) (window * hz + 1) (window * 1000000)
                        now c l (drop k b.samples) x xs (sym before ∙ e) rest
                        (rw (interval-clamped hz lo hi) (cap_covers_lem window hz w lo hi))
                        (omega arith)
                        (not_before x now window (drop_before-head start b.samples x xs e)) in
                    omega (arith, few, ap length before, max_samples-clamped window hz lo hi)
              ]
            ]
      ]

-- For a window that the UI offers and a rate from 10 to 30 Hz, if a buffer is binned at that rate and
-- holds no sample later than now, `trim` with the cap of `maxSamplesForWindow` does what `trim` by
-- the window alone does: the cap drops no sample that lies in the window.
pub trim-cap :
    {V : Type 0} (window hz now : ℕ) (b : SeriesBuffer V)
    → is_graph_window_sec window ≡ true
    → 10 ≤ hz
    → hz ≤ 30
    → IsBinned (graph_sample_interval_us hz) b
    → All (λ s. s.ts_us ≤ now) b.samples
    → trim b (window_start_us now window) (some (max_samples_for_window window hz))
      ≡ trim b (window_start_us now window) none
unfolding trim
trim-cap window hz now b w lo hi h a = ground (arith, drop_before-fits window hz now b w lo hi h a)
