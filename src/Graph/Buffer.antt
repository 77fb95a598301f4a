-- ===== src/Graph/Buffer.antt =====
-- `SeriesBuffer` of shared/graphStore.ts: the samples of one signal, oldest first.
pub mod Bins
pub mod Capacity
use vanilla_bus.Prelude.{
  ℕ, ◌-◌, Bool, true, false, List, [], ◌∷◌, ◌++◌, Option, none, some, length, drop, ltb,
  if◌then◌else◌,
}
use vanilla_bus.Prelude.Int.{ℤ, pos, ltb_ℤ}
use vanilla_bus.Graph.Decimate.{Sample, should_replace_last_sample, replace_last}

pub record SeriesBuffer {ℓ} (V : Type ℓ) : Type ℓ where
  pub samples : List (Sample V)
  pub bin_start_us : Option ℕ

module _ {ℓ} {V : Type ℓ} where
  abbrev pub last? : List (Sample V) → Option (Sample V)
  last? [] = none
  last? (x ∷ []) = some x
  last? (x ∷ y ∷ xs) = last? (y ∷ xs)

  -- `last && tsUs < last.ts_us`
  abbrev pub is_late : Option (Sample V) → ℕ → Bool
  is_late none ts_us = false
  is_late (some newest) ts_us = ltb ts_us newest.ts_us

  unfoldable pub append : SeriesBuffer V → ℕ → V → ℕ → SeriesBuffer V
  append b ts_us value interval_us =
      let sample : Sample V = record { ts_us = ts_us; value = value } in
      if is_late (last? b.samples) ts_us
      then b
      else if should_replace_last_sample b.bin_start_us ts_us interval_us
      then record b { samples = replace_last b.samples sample }
      else record b { samples = b.samples ++ sample ∷ []; bin_start_us = some ts_us }

  -- the samples from the first one on that is not before `start`
  abbrev pub drop_before : ℤ → List (Sample V) → List (Sample V)
  drop_before start_us [] = []
  drop_before start_us (x ∷ xs) = elim (ltb_ℤ (pos x.ts_us) start_us) [
    | true ↦ drop_before start_us xs
    | false ↦ x ∷ xs
  ]

  abbrev pub cap_to : Option ℕ → List (Sample V) → List (Sample V)
  cap_to none xs = xs
  cap_to (some most) xs = if ltb most (length xs) then drop (length xs - most) xs else xs

  abbrev pub bin_of : List (Sample V) → Option ℕ → Option ℕ
  bin_of [] bin = none
  bin_of (x ∷ xs) bin = bin

  unfoldable pub trim : SeriesBuffer V → ℤ → Option ℕ → SeriesBuffer V
  trim b start_us most =
      let kept = cap_to most (drop_before start_us b.samples) in
      record { samples = kept; bin_start_us = bin_of kept b.bin_start_us }

  unfoldable pub clear : SeriesBuffer V → SeriesBuffer V
  clear b = record { samples = []; bin_start_us = none }
