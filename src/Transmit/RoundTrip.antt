-- ===== src/Transmit/RoundTrip.antt =====
-- `formatCanIdPrefixed` of shared/traceFormat.ts, and `parseCanIdHex` of shared/txFormat.ts on what it
-- writes.
use vanilla_bus.Prelude.{
  ℕ, zero, suc, ◌+◌, ◌-◌, ◌*◌, ◌/◌, ◌%◌, ◌≤◌, ◌<◌, ◌≡◌, refl, ap, ◌∙◌, Bool, true, false, [], ◌∷◌,
  ◌++◌, Text, codes, arith, length, replicate, all, ltb, Bool-cases, inl, inr, length-append,
  length-replicate,
}
use vanilla_bus.Prelude.Strings.{
  is_space, is_ink, trim_kept, to_upper_case, upper_unit, pad_start, starts_with,
}
use vanilla_bus.Trace.Format.{digit, digits_from, to_string, format_can_id, format_can_id_prefixed}
use vanilla_bus.Transmit.{
  ok, is_hex, hex_digit, parse_int_from, without_prefix, is_hex_text, check_id, parse_can_id_hex,
}

-- one digit as it is written, in upper case
abbrev upper_digit : ℕ → ℕ
upper_digit d = upper_unit (digit d)

hex_digit-upper_digit : (d : ℕ) → d < 16 → hex_digit (upper_digit d) ≡ d
hex_digit-upper_digit d h = ground arith

is_hex-upper_digit : (d : ℕ) → d < 16 → is_hex (upper_digit d) ≡ true
is_hex-upper_digit d h = ground arith

parse_int_from-upper_digit :
    (v d : ℕ) (s : Text)
    → d < 16
    → parse_int_from v (upper_digit d ∷ s) ≡ parse_int_from (v * 16 + d) s
unfolding parse_int_from
parse_int_from-upper_digit v d s h =
    ap (λ k. parse_int_from (v * 16 + k) s) (hex_digit-upper_digit d h)

parse_int_from-digits_from :
    (fuel n : ℕ) (rest : Text)
    → n < fuel
    → parse_int_from 0 (to_upper_case (digits_from 16 fuel n rest))
      ≡ parse_int_from n (to_upper_case rest)
unfolding digits_from
parse_int_from-digits_from zero n rest h = absurd (omega arith)
parse_int_from-digits_from (suc fuel) n rest h =
    let more = to_upper_case rest in
    elim (Bool-cases (ltb n 16)) [
      | inl e ↦
          rw (e, digits_from)
            (parse_int_from-upper_digit 0 n more (ground arith)
              ∙ ap (λ k. parse_int_from k more) (omega arith))
      | inr e ↦
          rw (e, digits_from)
            (parse_int_from-digits_from fuel (n / 16) (digit (n % 16) ∷ rest) (ground arith)
              ∙ parse_int_from-upper_digit (n / 16) (n % 16) more (omega arith)
              ∙ ap (λ k. parse_int_from k more) (omega arith))
    ]

all-is_hex :
    (fuel n : ℕ) (rest : Text)
    → all is_hex (to_upper_case rest) ≡ true
    → all is_hex (to_upper_case (digits_from 16 fuel n rest)) ≡ true
unfolding digits_from
all-is_hex zero n rest h = h
all-is_hex (suc fuel) n rest h = elim (Bool-cases (ltb n 16)) [
  | inl e ↦ rw (e, digits_from) (ground (arith, h, is_hex-upper_digit n (ground arith)))
  | inr e ↦
      rw (e, digits_from)
        (all-is_hex fuel (n / 16) (digit (n % 16) ∷ rest)
          (ground (arith, h, is_hex-upper_digit (n % 16) (omega arith))))
]

-- zeros in front
parse_int_from-zeros :
    (k : ℕ) (s : Text) → parse_int_from 0 (replicate k b'0' ++ s) ≡ parse_int_from 0 s
unfolding parse_int_from
parse_int_from-zeros zero s = refl
parse_int_from-zeros (suc k) s = parse_int_from-zeros k s

all-is_hex-zeros :
    (k : ℕ) (s : Text) → all is_hex s ≡ true → all is_hex (replicate k b'0' ++ s) ≡ true
all-is_hex-zeros zero s h = h
all-is_hex-zeros (suc k) s h = all-is_hex-zeros k s h

is_ink-is_hex : (c : ℕ) → is_hex c ≡ true → is_ink c ≡ true
unfolding is_space
is_ink-is_hex c h = ground arith

all-is_ink : (s : Text) → all is_hex s ≡ true → all is_ink s ≡ true
all-is_ink [] h = refl
all-is_ink (c ∷ s) h = ground (arith, all-is_ink s (ground arith), is_ink-is_hex c (ground arith))

is_hex_text-all : (s : Text) → 0 < length s → all is_hex s ≡ true → is_hex_text s ≡ true
is_hex_text-all [] h k = absurd (omega arith)
is_hex_text-all (c ∷ s) h k = k

check_id_in_range :
    (id : ℕ)
    → id ≤ 0x1fffffff
    → check_id id ≡ ok (record { value = id; is_eff_hint = ltb 0x7ff id })
unfolding check_id
check_id_in_range id h = ground arith

-- hex digits behind the prefix
parse_can_id_hex-digits :
    (s : Text)
    → 0 < length s
    → all is_hex s ≡ true
    → parse_can_id_hex (codes "0x" ++ s) ≡ check_id (parse_int_from 0 s)
unfolding parse_can_id_hex without_prefix starts_with is_space
parse_can_id_hex-digits s h k =
    rw (trim_kept (codes "0x" ++ s) (all-is_ink s k), is_hex_text-all s h k) (ground arith)

padded :
    (k id : ℕ)
    → 0 < k
    → id ≤ 0x1fffffff
    → parse_can_id_hex (codes "0x" ++ pad_start k (to_upper_case (to_string 16 id)))
      ≡ ok (record { value = id; is_eff_hint = ltb 0x7ff id })
unfolding to_string parse_int_from
padded k id wide h =
    let hex = to_upper_case (to_string 16 id) in
    let zeros = k - length hex in
    let digits = all-is_hex-zeros zeros hex (all-is_hex (suc id) id [] refl) in
    let long = length-append (replicate zeros b'0') hex in
    parse_can_id_hex-digits (pad_start k hex)
      (omega (arith, long, length-replicate {A = ℕ} zeros b'0')) digits
    ∙ ap check_id
        (parse_int_from-zeros zeros hex ∙ parse_int_from-digits_from (suc id) id [] (omega arith))
    ∙ check_id_in_range id h

-- An identifier of at most 29 bits that `formatCanIdPrefixed` writes, padded as an extended one or
-- not, is read back by `parseCanIdHex`, and taken for an extended one exactly if it does not fit 11
-- bits.
pub parse_can_id_hex-format_can_id_prefixed :
    (id : ℕ) (is_eff : Bool)
    → id ≤ 0x1fffffff
    → parse_can_id_hex (format_can_id_prefixed id is_eff)
      ≡ ok (record { value = id; is_eff_hint = ltb 0x7ff id })
unfolding format_can_id_prefixed format_can_id
parse_can_id_hex-format_can_id_prefixed id true h = padded 8 id (omega arith) h
parse_can_id_hex-format_can_id_prefixed id false h = padded 3 id (omega arith) h
