-- ===== src/Trace/Format.antt =====
-- shared/traceFormat.ts: the texts of the identifier, data and name columns.
use vanilla_bus.Prelude.{
  ℕ, zero, suc, ◌+◌, ◌-◌, ◌/◌, ◌%◌, Bool, true, false, ◌||◌, [], ◌∷◌, ◌++◌, Option, none, some,
  Text, codes, ltb, ◌==◌, if◌then◌else◌,
}
use vanilla_bus.Prelude.Strings.{trim, to_upper_case, pad_start}
use vanilla_bus.Engine.Types.{FrameEvent, FrameDecode}

abbrev pub digit : ℕ → ℕ
digit d = if ltb d 10 then b'0' + d else b'a' + (d - 10)

-- The digits of `n` before `rest`. A number below the fuel has no more digits than that.
unfoldable pub digits_from : ℕ → ℕ → ℕ → Text → Text
digits_from base zero n rest = rest
digits_from base (suc fuel) n rest = elim (ltb n base) [
  | true ↦ digit n ∷ rest
  | false ↦ digits_from base fuel (n / base) (digit (n % base) ∷ rest)
]

-- `n.toString(base)`, and `String(n)` at base 10
unfoldable pub to_string : ℕ → ℕ → Text
unfolding digits_from
to_string base n = digits_from base (suc n) n []

unfoldable pub format_can_id : ℕ → Bool → Text
format_can_id id is_eff =
    let hex = to_upper_case (to_string 16 id) in if is_eff then pad_start 8 hex else pad_start 3 hex

unfoldable pub format_can_id_prefixed : ℕ → Bool → Text
unfolding format_can_id
format_can_id_prefixed id is_eff = codes "0x" ++ format_can_id id is_eff

-- what `.` does not match
abbrev is_line_end : ℕ → Bool
is_line_end c = c == 10 || c == 13 || c == 0x2028 || c == 0x2029

-- `clean.replace(/../g, '$& ')`
space_pairs : Text → Text
space_pairs [] = []
space_pairs (a ∷ []) = a ∷ []
space_pairs (a ∷ b ∷ s) = elim (is_line_end a || is_line_end b) [
  | true ↦ a ∷ space_pairs (b ∷ s)
  | false ↦ a ∷ b ∷ b' ' ∷ space_pairs s
]

-- the em dash, which stands for an absent value
abbrev pub dash : Text
dash = 0x2014 ∷ []

abbrev or_dash : Text → Text
or_dash [] = dash
or_dash (c ∷ s) = c ∷ s

pub format_data_hex : Text → Text
unfolding space_pairs
format_data_hex hex = or_dash (trim (space_pairs (to_upper_case hex)))

decode_name : Option FrameDecode → Text
decode_name none = dash
decode_name (some d) = d.name

pub frame_name : FrameEvent → Text
unfolding decode_name
frame_name frame = decode_name frame.decode
