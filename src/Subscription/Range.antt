-- ===== src/Subscription/Range.antt =====
-- The Range header of `downloadAndAppend`, as a server reads it.
use nopfs.Prelude.{
  ℕ, zero, suc, ◌+◌, ◌-◌, ◌*◌, ◌/◌, ◌%◌, ◌<◌, ◌≡◌, Bool, true, ap, ◌∙◌, ◌&&◌, [], ◌∷◌, ◌++◌, Option,
  none, some, Bytes, codes, nat_eqb, leb, Bool-cases, inl, inr, if◌then◌else◌, arith,
}
use nopfs.Text.{strip_prefix}
use nopfs.Text.Affixes.{strip_prefix-append}
use nopfs.Text.Decimal.{digits, decimal}
use nopfs.Subscription.{range_header}

abbrev is_digit : ℕ → Bool
is_digit c = leb b'0' c && leb c b'9'

-- The number in front of a dash that ends the text; `n` is the value of the digits before it.
unfoldable pub range_value : ℕ → Bytes → Option ℕ
range_value n [] = none
range_value n (c ∷ s) =
    let later = range_value (n * 10 + (c - b'0')) s in
    if is_digit c
    then later
    else elim s [ [] ↦ if nat_eqb c b'-' then some n else none | _ ∷ _ ↦ none ]

abbrev value_of : Option Bytes → Option ℕ
value_of none = none
value_of (some s) = range_value 0 s

-- The first byte that a header of one open range asks for, if it is one.
unfoldable pub range_start : Bytes → Option ℕ
range_start header = value_of (strip_prefix header (codes "bytes="))

range_value-digit :
    (n d : ℕ) (s : Bytes) → d < 10 → range_value n ((b'0' + d) ∷ s) ≡ range_value (n * 10 + d) s
unfolding range_value
range_value-digit n d s h =
    let digit : is_digit (b'0' + d) ≡ true = ground arith in
    let same : n * 10 + ((b'0' + d) - b'0') ≡ n * 10 + d = omega arith in rw (digit, same)

range_value-digits :
    (fuel n : ℕ) (mid out : Bytes)
    → n < fuel
    → range_value 0 (digits fuel n mid ++ out) ≡ range_value n (mid ++ out)
unfolding digits
range_value-digits zero n mid out h = absurd (omega arith)
range_value-digits (suc fuel) n mid out h = elim (Bool-cases (nat_eqb (n / 10) 0)) [
  | inl last ↦
      let same : 0 * 10 + n % 10 ≡ n = ground arith in
      rw last (
        range_value-digit 0 (n % 10) (mid ++ out) (omega arith)
        ∙ ap (λ (k : ℕ). range_value k (mid ++ out)) same)
  | inr more ↦
      let less : n / 10 < fuel = ground arith in
      let same : n / 10 * 10 + n % 10 ≡ n = omega arith in
      rw more (
        range_value-digits fuel (n / 10) ((b'0' + n % 10) ∷ mid) out less
        ∙ range_value-digit (n / 10) (n % 10) (mid ++ out) (omega arith)
        ∙ ap (λ (k : ℕ). range_value k (mid ++ out)) same)
]

-- The header says where to go on: a server that reads in it the prefix `bytes=`, a number and a dash
-- finds the number of bytes that the local file has, for every size.
pub range_start-range_header : (size : ℕ) → range_start (range_header size) ≡ some size
unfolding range_start range_header decimal range_value
range_start-range_header size =
    ap value_of (strip_prefix-append (codes "bytes=") (decimal size ++ codes "-"))
    ∙ range_value-digits (suc size) size [] (codes "-") (omega arith)
