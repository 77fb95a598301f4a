-- ===== src/Transmit/Laws.antt =====
-- shared/txFormat.ts: the data that `parseDataHex` lets through.
use vanilla_bus.Prelude.{
  ℕ, ◌*◌, ◌≡◌, refl, Bool, true, ◌&&◌, ◌||◌, [], ◌∷◌, Text, arith, length, length-map, all, leb,
}
use vanilla_bus.Prelude.Strings.{to_lower_case, lower_unit}
use vanilla_bus.Transmit.{ok, HexData, is_hex, parse_data_hex, check_data}

-- one of `0`–`9` and `a`–`f`
abbrev pub is_lower_hex : ℕ → Bool
is_lower_hex c = leb 48 c && leb c 57 || leb 97 c && leb c 102

all-is_lower_hex : (s : Text) → all is_hex s ≡ true → all is_lower_hex (to_lower_case s) ≡ true
all-is_lower_hex [] h = refl
all-is_lower_hex (c ∷ s) h = ground (arith, all-is_lower_hex s (ground arith))

abbrev pub IsHexData : HexData → Type 0
IsHexData d = (length d.hex ≡ 2 * d.bytes) × (all is_lower_hex d.hex ≡ true)

check_data-IsHexData : (s : Text) (d : HexData) → check_data s ≡ ok d → IsHexData d
unfolding check_data
check_data-IsHexData [] d h = ground arith
check_data-IsHexData (c ∷ s) d h =
    grind (arith, length-map {B = ℕ} lower_unit s, all-is_lower_hex (c ∷ s))

-- Data that `parseDataHex` accepts is a text of lower-case hex digits, two for each byte.
pub parse_data_hex-IsHexData : (raw : Text) (d : HexData) → parse_data_hex raw ≡ ok d → IsHexData d
unfolding parse_data_hex
parse_data_hex-IsHexData raw d h = check_data-IsHexData _ d h
