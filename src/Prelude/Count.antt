-- ===== src/Prelude/Count.antt =====
-- How often a key stands in a list.
use vanilla_bus.Prelude.Tests.{if◌then◌else◌, Bool-cases}
use vanilla_bus.Prelude.Lists.{All}
use vanilla_bus.Prelude.Strings.{Text, same, same_iff, same_refl, contains}
use vanilla_bus.Prelude.Assoc.{keys, has, remove}
use Prim.Native.Nat.{ℕ, ◌+◌, ◌≤◌}
use mathlib.Core.Path.{◌≡◌, refl}
use mathlib.Core.Logic.{inl, inr}
use mathlib.Core.Bool.{true, false}
use mathlib.Core.List.{List, [], ◌∷◌, ◌++◌}
use native.Mathlib.Omega.{arith}

unfoldable pub count : Text → List Text → ℕ
count k [] = 0
count k (x ∷ xs) = let rest = count k xs in if same x k then 1 + rest else rest

pub count-append : (k : Text) (xs ys : List Text) → count k (xs ++ ys) ≡ count k xs + count k ys
unfolding count
count-append k [] ys = omega arith
count-append k (x ∷ xs) ys = ground (arith, count-append k xs ys)

pub count_absent : (k : Text) (xs : List Text) → contains k xs ≡ false → count k xs ≡ 0
unfolding count
count_absent k [] h = refl
count_absent k (x ∷ xs) h = ground (arith, count_absent k xs)

-- A key that counts nothing is not there.
pub count_zero : (k : Text) (xs : List Text) → count k xs ≤ 0 → contains k xs ≡ false
unfolding count
count_zero k [] h = refl
count_zero k (x ∷ xs) h = ground (arith, count_zero k xs)

pub count_one : (j k : Text) → count j (k ∷ []) ≡ (if same k j then 1 else 0)
unfolding count
count_one j k = ground arith

-- Taking an entry out of a map takes its key off the count.
pub count-remove :
    {V : Type 0} (j k : Text) (m : List (Text × V))
    → has k m ≡ true
    → count j (k ∷ []) + count j (keys (remove k m)) ≡ count j (keys m)
unfolding count remove
count-remove j k [] h = ground arith
count-remove j k ((i, v) ∷ m) h =
    ground (arith, count-remove j k m, same_iff i k, same_iff i j, same_iff k j, same_refl j)

-- What no member of a list is, is not in it.
pub contains_none :
    (P : Text → Type 0) (k : Text) (xs : List Text) → All P xs → (P k → ⊥) → contains k xs ≡ false
contains_none P k [] h never = refl
contains_none P k (x ∷ xs) (h, hs) never = elim (Bool-cases (same x k)) [
  | inl e ↦ absurd (never (rw (← (same_iff x k).0 e) h))
  | inr e ↦ rw e (contains_none P k xs hs never)
]
