-- ===== src/Prelude/Modular.antt =====
-- Remainders by a variable.
use vanilla_bus.Prelude.{ℕ, ◌+◌, ◌-◌, ◌%◌, ◌<◌, ◌≡◌, ◌≢◌, sym, ◌∙◌, ap, arith, dec_lt}
use native.Mathlib.Nat.{mod-lt, mod-add-mod, mod-eq_of_lt, mod-eq-sub-mod}

-- Fewer than `c` steps round a circle of `c` places end elsewhere.
mod-add-ne_small : (c r d : ℕ) → r < c → 0 < d → d < c → (r + d) % c ≢ r
mod-add-ne_small c r d hr hd hc = elim (dec_lt (r + d) c) [
  | yes p ↦ omega (arith, mod-eq_of_lt p)
  | no p ↦ omega (
    arith,
    mod-eq-sub-mod {n = r + d} {m = c} (omega arith),
    mod-eq_of_lt {n = r + d - c} {m = c} (omega arith),
  )
]

pub mod-add-ne : (c a d : ℕ) → 0 < d → d < c → (a + d) % c ≢ a % c
mod-add-ne c a d hd hc e =
    mod-add-ne_small c (a % c) d (mod-lt a (omega arith)) hd hc (rw mod-add-mod e)

pub mod-add_one : (c a b : ℕ) → a % c ≡ b % c → (a + 1) % c ≡ (b + 1) % c
mod-add_one c a b e = sym (mod-add-mod a c 1) ∙ ap (λ k. (k + 1) % c) e ∙ mod-add-mod b c 1

pub mod-mod : (c a : ℕ) → (a % c) % c ≡ a % c
mod-mod c a = ground (arith, mod-add-mod a c 0)
