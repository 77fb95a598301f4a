-- ===== src/Prelude/Assoc.antt =====
-- `Map` and plain objects with string keys: association lists in insertion order.
use vanilla_bus.Prelude.Tests.{if◌then◌else◌, Bool-cases}
use vanilla_bus.Prelude.Lists.{length, All}
use vanilla_bus.Prelude.Strings.{Text, same, same_iff, same_sound, contains}
use Prim.Native.Nat.{◌+◌, ◌≤◌}
use mathlib.Core.Path.{◌≡◌, refl, ap}
use mathlib.Core.Logic.{inl, inr}
use mathlib.Core.Bool.{Bool, true, false, ◌||◌}
use mathlib.Core.List.{List, [], ◌∷◌, ◌++◌}
use mathlib.Core.Option.{Option, none, some}
use native.Mathlib.Omega.{arith}

module _ {ℓ} {V : Type ℓ} where
  -- `map.get(key)`
  unfoldable pub lookup : Text → List (Text × V) → Option V
  lookup k [] = none
  lookup k ((j, v) ∷ m) = elim (same j k) [ true ↦ some v | false ↦ lookup k m ]

  -- `map.set(key, value)`: a new key goes to the end, a known one keeps its place.
  unfoldable pub insert : Text → V → List (Text × V) → List (Text × V)
  insert k v [] = (k, v) ∷ []
  insert k v ((j, w) ∷ m) = elim (same j k) [ true ↦ (j, v) ∷ m | false ↦ (j, w) ∷ insert k v m ]

  -- `map.delete(key)`
  unfoldable pub remove : Text → List (Text × V) → List (Text × V)
  remove k [] = []
  remove k ((j, v) ∷ m) = elim (same j k) [ true ↦ m | false ↦ (j, v) ∷ remove k m ]

  abbrev pub keys : List (Text × V) → List Text
  keys [] = []
  keys ((k, v) ∷ m) = k ∷ keys m

  -- `map.has(key)`
  abbrev pub has : Text → List (Text × V) → Bool
  has k m = contains k (keys m)

  pub lookup-insert :
      (k j : Text) (v : V) (m : List (Text × V))
      → lookup j (insert k v m) ≡ (if same k j then some v else lookup j m)
  unfolding lookup insert
  lookup-insert k j v [] = ground arith
  lookup-insert k j v ((i, w) ∷ m) =
      ground (arith, same_iff k j, same_iff i k, same_iff i j, lookup-insert k j v m)

  pub length-insert :
      (k : Text) (v : V) (m : List (Text × V))
      → length (insert k v m) ≡ (if has k m then length m else length m + 1)
  unfolding insert
  length-insert k v [] = ground arith
  length-insert k v ((j, w) ∷ m) = ground (arith, length-insert k v m)

  pub length-remove :
      (k : Text) (m : List (Text × V)) → has k m ≡ true → length (remove k m) + 1 ≡ length m
  unfolding remove
  length-remove k [] h = ground arith
  length-remove k ((j, w) ∷ m) h = ground (arith, length-remove k m)

  pub insert_fresh :
      (k : Text) (v : V) (m : List (Text × V)) → has k m ≡ false → insert k v m ≡ m ++ (k, v) ∷ []
  unfolding insert
  insert_fresh k v [] h = refl
  insert_fresh k v ((j, w) ∷ m) h = ground (arith, insert_fresh k v m)

-- no name twice
abbrev pub IsDistinct : List Text → Type 0
IsDistinct [] = Unit {0}
IsDistinct (k ∷ ks) = (contains k ks ≡ false) × IsDistinct ks

pub contains-append :
    (k : Text) (xs ys : List Text) → contains k (xs ++ ys) ≡ (contains k xs || contains k ys)
contains-append k [] ys = refl
contains-append k (x ∷ xs) ys = ground (arith, contains-append k xs ys)

pub IsDistinct-snoc :
    (xs : List Text) (k : Text) → IsDistinct xs → contains k xs ≡ false → IsDistinct (xs ++ k ∷ [])
IsDistinct-snoc [] k d h = (refl, tt)
IsDistinct-snoc (x ∷ xs) k d h = (
  ground (arith, contains-append x xs (k ∷ []), same_iff x k, same_iff k x),
  IsDistinct-snoc xs k d.1 (ground arith),
)

module _ {ℓ} {V : Type ℓ} where
  pub keys-insert :
      (k : Text) (v : V) (m : List (Text × V))
      → keys (insert k v m) ≡ (if has k m then keys m else keys m ++ k ∷ [])
  unfolding insert
  keys-insert k v [] = refl
  keys-insert k v ((j, w) ∷ m) = ground (arith, keys-insert k v m)

  pub insert-IsDistinct :
      (k : Text) (v : V) (m : List (Text × V))
      → IsDistinct (keys m)
      → IsDistinct (keys (insert k v m))
  insert-IsDistinct k v m d = elim (Bool-cases (has k m)) [
    | inl old ↦ rw (keys-insert k v m, old) d
    | inr new ↦ rw (keys-insert k v m, new) (IsDistinct-snoc (keys m) k d new)
  ]

  pub keys-append : (m n : List (Text × V)) → keys (m ++ n) ≡ keys m ++ keys n
  keys-append [] n = refl
  keys-append ((k, v) ∷ m) n = ap (◌∷◌ k) (keys-append m n)

  -- A property of entries that the new one has too.
  pub insert-All {κ} :
      (P : Text → V → Type κ) (k : Text) (v : V) (m : List (Text × V))
      → ((j : Text) → j ≡ k → P j v)
      → All (λ e. P e.0 e.1) m
      → All (λ e. P e.0 e.1) (insert k v m)
  unfolding insert
  insert-All P k v [] p a = (p k refl, tt)
  insert-All P k v ((j, w) ∷ m) p a = elim (Bool-cases (same j k)) [
    | inl e ↦ rw (e, insert) (p j (same_sound j k e), a.1)
    | inr e ↦ rw (e, insert) (a.0, insert-All P k v m p a.1)
  ]

module _ {ℓ} {V : Type ℓ} where
  pub lookup-has : (k : Text) (m : List (Text × V)) (v : V) → lookup k m ≡ some v → has k m ≡ true
  unfolding lookup
  lookup-has k [] v h = cc
  lookup-has k ((j, w) ∷ m) v h = ground (arith, lookup-has k m v)

  pub has-insert :
      (k j : Text) (v : V) (m : List (Text × V)) → has j (insert k v m) ≡ (same k j || has j m)
  unfolding insert
  has-insert k j v [] = refl
  has-insert k j v ((i, w) ∷ m) =
      ground (arith, same_iff k j, same_iff i k, same_iff i j, has-insert k j v m)

  pub has-remove_ne :
      (k j : Text) (m : List (Text × V)) → same k j ≡ false → has j (remove k m) ≡ has j m
  unfolding remove
  has-remove_ne k j [] h = refl
  has-remove_ne k j ((i, w) ∷ m) h =
      ground (arith, same_iff i k, same_iff i j, same_iff k j, has-remove_ne k j m)

  pub length-remove_le : (k : Text) (m : List (Text × V)) → length (remove k m) ≤ length m
  unfolding remove
  length-remove_le k [] = omega arith
  length-remove_le k ((j, w) ∷ m) = ground (arith, length-remove_le k m)
