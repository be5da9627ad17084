-- ===== src/Text/Decimal.antt =====
-- The decimal text of a number, as `fmt` prints it.
use nopfs.Prelude.{
  ℕ, zero, suc, ◌+◌, ◌-◌, ◌*◌, ◌/◌, ◌%◌, ◌<◌, ◌≡◌, ap, ◌∙◌, [], ◌∷◌, Bytes, nat_eqb, Bool-cases,
  inl, inr, if◌then◌else◌, arith,
}

-- The digits of `n` before those of `out`; `fuel` bounds their number.
unfoldable pub digits : ℕ → ℕ → Bytes → Bytes
digits zero n out = out
digits (suc fuel) n out =
    let digit = b'0' + n % 10 in
    let rest = digits fuel (n / 10) (digit ∷ out) in
    if nat_eqb (n / 10) 0 then digit ∷ out else rest

unfoldable pub decimal : ℕ → Bytes
decimal n = digits (suc n) n []

abbrev pub value_from : ℕ → Bytes → ℕ
value_from n [] = n
value_from n (c ∷ s) = value_from (n * 10 + (c - b'0')) s

value_from-digits :
    (fuel n : ℕ) (out : Bytes) → n < fuel → value_from 0 (digits fuel n out) ≡ value_from n out
unfolding digits
value_from-digits zero n out h = absurd (omega arith)
value_from-digits (suc fuel) n out h = elim (Bool-cases (nat_eqb (n / 10) 0)) [
  | inl last ↦
      let same : 0 * 10 + (b'0' + n % 10 - b'0') ≡ n = ground arith in
      rw last (ap (λ (k : ℕ). value_from k out) same)
  | inr more ↦
      let less : n / 10 < fuel = ground arith in
      let same : n / 10 * 10 + (b'0' + n % 10 - b'0') ≡ n = omega arith in
      rw more (
        value_from-digits fuel (n / 10) ((b'0' + n % 10) ∷ out) less
        ∙ ap (λ (k : ℕ). value_from k out) same)
]

-- The digits suffice: the text has the number's value.
pub value_from-decimal : (n : ℕ) → value_from 0 (decimal n) ≡ n
unfolding decimal
value_from-decimal n = value_from-digits (suc n) n [] (omega arith)
