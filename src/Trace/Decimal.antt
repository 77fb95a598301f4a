-- ===== src/Trace/Decimal.antt =====
-- Decimal numbers at the start of a text are read back.
use vanilla_bus.Prelude.{
  ℕ, zero, suc, ◌+◌, ◌-◌, ◌*◌, ◌/◌, ◌%◌, ◌<◌, ◌≡◌, refl, sym, ap, ◌∙◌, true, false, ◌&&◌, [], ◌∷◌,
  ◌++◌, Text, arith, ltb, leb, Bool-cases, inl, inr,
}
use vanilla_bus.Trace.Format.{digit, digits_from, to_string}

-- the decimal number at the start of a text, `v` read so far
unfoldable pub leading : ℕ → Text → ℕ
leading v [] = v
leading v (c ∷ s) = elim (leb 48 c && leb c 57) [ true ↦ leading (v * 10 + (c - 48)) s | false ↦ v ]

leading-digit : (v d : ℕ) (s : Text) → d < 10 → leading v (digit d ∷ s) ≡ leading (v * 10 + d) s
unfolding leading
leading-digit v d s h =
    let back : b'0' + d - 48 ≡ d = omega arith in
    ground (arith, ap (λ k. leading (v * 10 + k) s) back)

pub leading-digits_from :
    (fuel n : ℕ) (rest : Text) → n < fuel → leading 0 (digits_from 10 fuel n rest) ≡ leading n rest
unfolding digits_from
leading-digits_from zero n rest h = absurd (omega arith)
leading-digits_from (suc fuel) n rest h = elim (Bool-cases (ltb n 10)) [
  | inl e ↦
      rw (e, digits_from)
        (leading-digit 0 n rest (ground arith) ∙ ap (λ k. leading k rest) (omega arith))
  | inr e ↦
      rw (e, digits_from)
        (leading-digits_from fuel (n / 10) (digit (n % 10) ∷ rest) (ground arith)
          ∙ leading-digit (n / 10) (n % 10) rest (omega arith)
          ∙ ap (λ k. leading k rest) (omega arith))
]

pub digits_from-append :
    (base fuel n : ℕ) (rest more : Text)
    → digits_from base fuel n rest ++ more ≡ digits_from base fuel n (rest ++ more)
unfolding digits_from
digits_from-append base zero n rest more = refl
digits_from-append base (suc fuel) n rest more = elim (Bool-cases (ltb n base)) [
  | inl e ↦ rw (e, digits_from) refl
  | inr e ↦
      rw (e, digits_from) (digits_from-append base fuel (n / base) (digit (n % base) ∷ rest) more)
]

pub leading-dash : (v : ℕ) (s : Text) → leading v (45 ∷ s) ≡ v
unfolding leading
leading-dash v s = refl

-- Different numbers are written differently.
pub to_string-injective : (m n : ℕ) → to_string 10 m ≡ to_string 10 n → m ≡ n
unfolding to_string leading
to_string-injective m n e =
    sym (leading-digits_from (suc m) m [] (omega arith))
    ∙ ap (leading 0) e
    ∙ leading-digits_from (suc n) n [] (omega arith)
