-- ===== src/Transmit.antt =====
-- shared/txFormat.ts: the identifiers and data that the user types.
pub mod State
pub mod Model
pub mod Jobs
pub mod Shown
pub mod Stats
pub mod Laws
pub mod RoundTrip
mod Tests
use vanilla_bus.Prelude.{
  ℕ, ◌+◌, ◌-◌, ◌*◌, ◌/◌, ◌%◌, ◌^◌, Bool, true, false, not, ◌&&◌, ◌||◌, List, [], ◌∷◌, ◌++◌, Option,
  none, some, Text, codes, length, drop, filter, all, ltb, leb, ◌==◌, if◌then◌else◌,
}
use vanilla_bus.Prelude.Strings.{is_space, trim, to_lower_case, starts_with}
use vanilla_bus.Trace.Format.{to_string}

abbrev pub tx_max_classic_dlc : ℕ
tx_max_classic_dlc = 8

abbrev pub tx_max_fd_dlc : ℕ
tx_max_fd_dlc = 64

-- `ParseErr`, by its message
pub data ParseErr : Type 0 where
  id_required id_not_hex id_not_integer id_too_large data_not_hex : ParseErr

pub data ParseResult (A : Type 0) : Type 0 where
  ok : A → ParseResult A
  failed : ParseErr → ParseResult A

pub record CanId : Type 0 where
  pub value : ℕ
  pub is_eff_hint : Bool

pub record HexData : Type 0 where
  pub hex : Text
  pub bytes : ℕ

abbrev pub is_hex : ℕ → Bool
is_hex c = leb 48 c && leb c 57 || (leb 65 c && leb c 70 || leb 97 c && leb c 102)

abbrev pub hex_digit : ℕ → ℕ
hex_digit c = if leb c 57 then c - 48 else if leb c 70 then c - 55 else c - 87

-- `Number.parseInt(digits, 16)` on hex digits, before it is rounded; `value` is read so far
unfoldable pub parse_int_from : ℕ → Text → ℕ
parse_int_from value [] = value
parse_int_from value (c ∷ s) = parse_int_from (value * 16 + hex_digit c) s

-- `text.toLowerCase().startsWith('0x') ? text.slice(2) : text`
unfoldable pub without_prefix : Text → Text
without_prefix text = if starts_with (to_lower_case text) (codes "0x") then drop 2 text else text

-- `/^[0-9a-fA-F]+$/.test(s)`
abbrev pub is_hex_text : Text → Bool
is_hex_text [] = false
is_hex_text (c ∷ s) = is_hex c && all is_hex s

-- From half a step below 2^1024 on a double is rounded to infinity, which is no integer; rounding
-- changes no other comparison here.
unfoldable pub check_id : ℕ → ParseResult CanId
check_id value =
    if leb (2 ^ 1024 - 2 ^ 970) value
    then failed id_not_integer
    else if ltb 0x1fffffff value
    then failed id_too_large
    else ok (record { value = value; is_eff_hint = ltb 0x7ff value })

unfoldable pub parse_can_id_hex : Text → ParseResult CanId
unfolding parse_int_from
parse_can_id_hex raw =
    let text = trim raw in
    let digits = without_prefix text in
    if length text == 0
    then failed id_required
    else if not (is_hex_text digits)
    then failed id_not_hex
    else check_id (parse_int_from 0 digits)

-- what `HEX_CLEAN` removes
abbrev pub is_separator : ℕ → Bool
is_separator c = is_space c || (c == b':' || (c == b'_' || c == b'-'))

unfoldable pub check_data : Text → ParseResult HexData
check_data stripped =
    if length stripped == 0
    then ok (record { hex = []; bytes = 0 })
    else if not (length stripped % 2 == 0) || not (is_hex_text stripped)
    then failed data_not_hex
    else ok (record { hex = to_lower_case stripped; bytes = length stripped / 2 })

unfoldable pub parse_data_hex : Text → ParseResult HexData
parse_data_hex raw = check_data (without_prefix (filter (λ c. not (is_separator c)) (trim raw)))

pub format_data_byte_count : ℕ → Bool → Text
format_data_byte_count bytes is_fd =
    to_string 10 bytes
    ++ codes " / "
    ++ to_string 10 (if is_fd then tx_max_fd_dlc else tx_max_classic_dlc)
    ++ codes " bytes"
