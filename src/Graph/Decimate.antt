-- ===== src/Graph/Decimate.antt =====
-- shared/graphDecimate.ts: at most one sample per interval, the latest wins.
pub mod Groups
use vanilla_bus.Prelude.{ℕ, Bool, false, List, [], ◌∷◌, ◌++◌, Option, none, some, if◌then◌else◌}
use vanilla_bus.Prelude.Int.{pos, sub_ℕ, ltb_ℤ}

pub record Sample {ℓ} (V : Type ℓ) : Type ℓ where
  pub ts_us : ℕ
  pub value : V

abbrev pub should_replace_last_sample : Option ℕ → ℕ → ℕ → Bool
should_replace_last_sample none next_ts_us interval_us = false
should_replace_last_sample (some bin_start_us) next_ts_us interval_us =
    ltb_ℤ (sub_ℕ next_ts_us bin_start_us) (pos interval_us)

module _ {ℓ} {V : Type ℓ} where
  -- `out[out.length - 1] = point`; on an empty array no element changes
  abbrev pub replace_last : List (Sample V) → Sample V → List (Sample V)
  replace_last [] p = []
  replace_last (x ∷ []) p = p ∷ []
  replace_last (x ∷ y ∷ xs) p = x ∷ replace_last (y ∷ xs) p

  -- the loop of `decimatePoints`
  pub decimate_from : ℕ → List (Sample V) → List (Sample V) → Option ℕ → List (Sample V)
  decimate_from interval [] out bin = out
  decimate_from interval (p ∷ points) out bin =
      let replaced = decimate_from interval points (replace_last out p) bin in
      let pushed = decimate_from interval points (out ++ p ∷ []) (some p.ts_us) in
      if should_replace_last_sample bin p.ts_us interval then replaced else pushed

  pub decimate_points : List (Sample V) → ℕ → List (Sample V)
  unfolding decimate_from
  decimate_points points interval = decimate_from interval points [] none
