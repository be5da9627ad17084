-- ===== src/Text/Affixes.antt =====
-- What `strings.TrimPrefix`, `TrimSuffix`, `HasPrefix` and `HasSuffix` find.
use nopfs.Text.{
  contains_byte, strip_prefix, strip_suffix, has_prefix, has_suffix, trim_prefix, trim_suffix,
}
use nopfs.Prelude.{
  ℕ, ◌≡◌, ◌≢◌, refl, ap, nat_eqb, true, false, [], ◌∷◌, ◌++◌, some, Bytes, bytes_eqb, bytes_eqb_iff,
  Option-cases, length, length-append, inl, inr, arith,
}

-- `p` is a prefix of `s`, with what follows.
abbrev pub Extends : Bytes → Bytes → Type 0
Extends s p = (r : Bytes) × (s ≡ p ++ r)

pub strip_prefix-append : (p r : Bytes) → strip_prefix (p ++ r) p ≡ some r
unfolding strip_prefix
strip_prefix-append [] [] = refl
strip_prefix-append [] (c ∷ r) = refl
strip_prefix-append (x ∷ p) r = ground (arith, strip_prefix-append p r)

pub strip_prefix-eq-some : (s p r : Bytes) → strip_prefix s p ≡ some r → s ≡ p ++ r
unfolding strip_prefix
strip_prefix-eq-some [] [] r h = ground arith
strip_prefix-eq-some (c ∷ s) [] r h = ground arith
strip_prefix-eq-some [] (x ∷ p) r h = ground arith
strip_prefix-eq-some (c ∷ s) (x ∷ p) r h = ground (arith, strip_prefix-eq-some s p r)

pub has_prefix-Extends : (s p : Bytes) → has_prefix s p ≡ true → Extends s p
unfolding has_prefix
has_prefix-Extends s p h = elim (Option-cases (strip_prefix s p)) [
  | inl e ↦ absurd (ground arith)
  | inr (r, e) ↦ (r, strip_prefix-eq-some s p r e)
]

pub Extends-has_prefix : (s p : Bytes) → Extends s p → has_prefix s p ≡ true
unfolding has_prefix
Extends-has_prefix s p (r, e) = rw e (rw (strip_prefix-append p r))

pub has_prefix-append : (p r : Bytes) → has_prefix (p ++ r) p ≡ true
has_prefix-append p r = Extends-has_prefix (p ++ r) p (r, refl)

pub trim_prefix-append : (p r : Bytes) → trim_prefix (p ++ r) p ≡ r
unfolding trim_prefix
trim_prefix-append p r = rw (strip_prefix-append p r)

pub trim_prefix_absent : (s p : Bytes) → has_prefix s p ≡ false → trim_prefix s p ≡ s
unfolding has_prefix trim_prefix
trim_prefix_absent s p h = ground arith

longer_ne : (x : ℕ) (p t : Bytes) → (x ∷ p) ++ t ≢ t
longer_ne x p t e = omega (arith, ap (λ (l : Bytes). length l) e, length-append {0} p t)

bytes_eqb-ne : (a b : Bytes) → a ≢ b → bytes_eqb a b ≡ false
bytes_eqb-ne a b n = ground (arith, bytes_eqb_iff a b)

pub strip_suffix-append : (p t : Bytes) → strip_suffix (p ++ t) t ≡ some p
unfolding strip_suffix bytes_eqb
strip_suffix-append [] [] = refl
strip_suffix-append [] (c ∷ t) = ground (arith, bytes_eqb_iff (c ∷ t) (c ∷ t))
strip_suffix-append (x ∷ p) t =
    rw (bytes_eqb-ne (x ∷ (p ++ t)) t (longer_ne x p t), strip_suffix-append p t)

pub strip_suffix-eq-some : (s t p : Bytes) → strip_suffix s t ≡ some p → s ≡ p ++ t
unfolding strip_suffix
strip_suffix-eq-some [] t p h = ground (arith, bytes_eqb_iff [] t)
strip_suffix-eq-some (c ∷ s) t [] h = ground (arith, bytes_eqb_iff (c ∷ s) t)
strip_suffix-eq-some (c ∷ s) t (x ∷ p) h =
    ground (arith, bytes_eqb_iff (c ∷ s) t, strip_suffix-eq-some s t p)

pub has_suffix-append : (p t : Bytes) → has_suffix (p ++ t) t ≡ true
unfolding has_suffix
has_suffix-append p t = rw (strip_suffix-append p t)

pub trim_suffix-append : (p t : Bytes) → trim_suffix (p ++ t) t ≡ p
unfolding trim_suffix
trim_suffix-append p t = rw (strip_suffix-append p t)

-- `s` ends in `t`, with what stands before.
pub has_suffix-Ends : (s t : Bytes) → has_suffix s t ≡ true → (p : Bytes) × (s ≡ p ++ t)
unfolding has_suffix
has_suffix-Ends s t h = elim (Option-cases (strip_suffix s t)) [
  | inl e ↦ absurd (ground arith)
  | inr (p, e) ↦ (p, strip_suffix-eq-some s t p e)
]

pub trim_suffix_absent : (s t : Bytes) → has_suffix s t ≡ false → trim_suffix s t ≡ s
unfolding has_suffix trim_suffix
trim_suffix_absent s t h = ground arith

pub contains_byte-cons :
    (c : ℕ) (s : Bytes) (b : ℕ)
    → contains_byte (c ∷ s) b ≡ false
    → (nat_eqb c b ≡ false) × (contains_byte s b ≡ false)
unfolding contains_byte
contains_byte-cons c s b h = ground arith
