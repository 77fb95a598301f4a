-- ===== src/Prelude/Strings.antt =====
-- Strings as the language has them: sequences of UTF-16 code units.
use Prim.Native.Nat.{ℕ, ◌+◌, ◌-◌}
use Prim.Native.Char.{code}
use Prim.Native.String.{String}
use mathlib.Core.Path.{◌≡◌, refl, ap, ap₂, ◌∙◌}
use mathlib.Core.Logic.{◌↔◌}
use mathlib.Core.Bool.{Bool, true, false, not, ◌&&◌, ◌||◌}
use mathlib.Core.List.{List, [], ◌∷◌, ◌++◌, map, reverse, reverse_aux}
use native.Mathlib.Omega.{arith}
use vanilla_bus.Prelude.Tests.{leb, ◌==◌, if◌then◌else◌}
use vanilla_bus.Prelude.Lists.{length, replicate, any, all}

abbrev pub Text : Type 0
Text = List ℕ

-- A literal. Every literal of the program that the model uses is in the basic plane.
abbrev pub codes : String → Text
codes String.[] = []
codes (String.◌∷◌ c s) = code c ∷ codes s

-- `a === b` on strings
unfoldable pub same : Text → Text → Bool
same [] [] = true
same (x ∷ xs) (y ∷ ys) = x == y && same xs ys
same _ _ = false

pub same_sound : (s t : Text) → same s t ≡ true → s ≡ t
unfolding same
same_sound [] [] h = refl
same_sound [] (y ∷ ys) h = cc
same_sound (x ∷ xs) [] h = cc
same_sound (x ∷ xs) (y ∷ ys) h = ap₂ ◌∷◌ (ground arith) (same_sound xs ys (ground arith))

pub same_refl : (s : Text) → same s s ≡ true
unfolding same
same_refl [] = refl
same_refl (x ∷ xs) = ground (arith, same_refl xs)

pub same_iff : (s t : Text) → (same s t ≡ true) ↔ (s ≡ t)
same_iff s t = (same_sound s t, λ e. ground (arith, same_refl s))

-- the white space and line terminators that `trim` removes
unfoldable pub is_space : ℕ → Bool
is_space c =
    leb 9 c && leb c 13
    || c == 32
    || c == 0xa0
    || c == 0x1680
    || leb 0x2000 c && leb c 0x200a
    || c == 0x2028
    || c == 0x2029
    || c == 0x202f
    || c == 0x205f
    || c == 0x3000
    || c == 0xfeff

unfoldable pub trim_start : Text → Text
unfolding is_space
trim_start [] = []
trim_start (c ∷ s) = elim (is_space c) [ true ↦ trim_start s | false ↦ c ∷ s ]

-- `s.trim()`
unfoldable pub trim : Text → Text
unfolding trim_start
trim s = reverse (trim_start (reverse (trim_start s)))

abbrev pub is_ink : ℕ → Bool
is_ink c = not (is_space c)

trim_start_kept : (s : Text) → all is_ink s ≡ true → trim_start s ≡ s
unfolding trim_start
trim_start_kept [] h = refl
trim_start_kept (c ∷ s) h = ground arith

all-reverse_aux :
    (p : ℕ → Bool) (s t : Text) → all p s ≡ true → all p t ≡ true → all p (reverse_aux s t) ≡ true
all-reverse_aux p [] t h k = k
all-reverse_aux p (c ∷ s) t h k = all-reverse_aux p s (c ∷ t) (ground arith) (ground arith)

reverse-reverse_aux : (s t : Text) → reverse (reverse_aux s t) ≡ reverse_aux t s
reverse-reverse_aux [] t = refl
reverse-reverse_aux (c ∷ s) t = reverse-reverse_aux s (c ∷ t)

-- a text without white space
pub trim_kept : (s : Text) → all is_ink s ≡ true → trim s ≡ s
unfolding trim
trim_kept s h =
    ap (λ t. reverse (trim_start (reverse t))) (trim_start_kept s h)
    ∙ ap reverse (trim_start_kept (reverse s) (all-reverse_aux is_ink s [] h refl))
    ∙ reverse-reverse_aux s []

-- `s.toLowerCase()` on the letters of ASCII
abbrev pub lower_unit : ℕ → ℕ
lower_unit c = if leb b'A' c && leb c b'Z' then c + 32 else c

abbrev pub to_lower_case : Text → Text
to_lower_case = map lower_unit

-- `s.toUpperCase()` on the letters of ASCII
abbrev pub upper_unit : ℕ → ℕ
upper_unit c = if leb b'a' c && leb c b'z' then c - 32 else c

abbrev pub to_upper_case : Text → Text
to_upper_case = map upper_unit

-- `s.startsWith(p)`
unfoldable pub starts_with : Text → Text → Bool
starts_with s [] = true
starts_with [] (p ∷ ps) = false
starts_with (c ∷ s) (p ∷ ps) = c == p && starts_with s ps

-- `s.includes(p)`
unfoldable pub includes : Text → Text → Bool
unfolding starts_with
includes [] p = starts_with [] p
includes (c ∷ s) p = starts_with (c ∷ s) p || includes s p

-- `s.padStart(n, '0')`
abbrev pub pad_start : ℕ → Text → Text
pad_start n s = replicate (n - length s) b'0' ++ s

-- `names.includes(name)`
abbrev pub contains : Text → List Text → Bool
contains k = any (λ j. same j k)
