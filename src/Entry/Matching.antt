-- ===== src/Entry/Matching.antt =====
-- Which paths a rule's path covers.
use nopfs.Prelude.{
  ◌≡◌, ◌↔◌, ◌⊎◌, sym, ap, ◌∙◌, true, false, [], ◌++◌, Bytes, codes, bytes_eqb, bytes_eqb_iff,
  Bool-cases, inl, inr, arith,
}
use nopfs.Text.{has_prefix, has_suffix, trim_prefix, trim_suffix}
use nopfs.Text.Affixes.{
  Extends, has_prefix-Extends, Extends-has_prefix, trim_prefix_absent, trim_suffix_absent,
  has_suffix-Ends, has_suffix-append, has_prefix-append, trim_suffix-append, trim_prefix-append,
}
use nopfs.Entry.{BlockedPath, sanitize, matches}

-- A rule covers a path if it is the star, if it is the path, or if it has a wildcard and the path
-- goes on from it.
pub data Covers (b : BlockedPath) (path : Bytes) : Type 0 where
  anything : b.path ≡ codes "*" → Covers b path
  same : b.path ≡ path → Covers b path
  below : b.prefix ≡ true → Extends path b.path → Covers b path

Covers-matches : (b : BlockedPath) (p : Bytes) → Covers b (sanitize p) → matches b p ≡ true
unfolding matches
Covers-matches b p (anything e) = ground (arith, bytes_eqb_iff b.path (codes "*"))
Covers-matches b p (same e) = ground (arith, bytes_eqb_iff b.path (sanitize p))
Covers-matches b p (below w x) = ground (arith, Extends-has_prefix (sanitize p) b.path x)

-- A match with no star and no equality is one of the wildcard.
wildcard-matches :
    (b : BlockedPath) (p : Bytes)
    → matches b p ≡ true
    → bytes_eqb b.path (codes "*") ≡ false
    → bytes_eqb b.path (sanitize p) ≡ false
    → (b.prefix ≡ true) × (has_prefix (sanitize p) b.path ≡ true)
unfolding matches
wildcard-matches b p h no_star differs = ground (
  arith,
  bytes_eqb_iff b.path [],
  bytes_eqb_iff (sanitize p) [],
  bytes_eqb_iff b.path (sanitize p),
)

matches-Covers : (b : BlockedPath) (p : Bytes) → matches b p ≡ true → Covers b (sanitize p)
matches-Covers b p h = elim (Bool-cases (bytes_eqb b.path (codes "*"))) [
  | inl star ↦ anything ((bytes_eqb_iff _ _).0 star)
  | inr no_star ↦ elim (Bool-cases (bytes_eqb b.path (sanitize p))) [
    | inl e ↦ same ((bytes_eqb_iff _ _).0 e)
    | inr differs ↦
        let (wild, ahead) = wildcard-matches b p h no_star differs in
        below wild (has_prefix-Extends _ _ ahead)
  ]
]

pub matches_iff : (b : BlockedPath) (p : Bytes) → (matches b p ≡ true) ↔ Covers b (sanitize p)
matches_iff b p = (matches-Covers b p, Covers-matches b p)

-- A path with no slash at its ends.
pub record IsBare (p : Bytes) : Type 0 where
  pub head : has_prefix p (codes "/") ≡ false
  pub last : has_suffix p (codes "/") ≡ false

pub sanitize_bare : (p : Bytes) → IsBare p → sanitize p ≡ p
unfolding sanitize
sanitize_bare p b =
    rw (trim_suffix_absent p (codes "/") b.last) (trim_prefix_absent p (codes "/") b.head)

-- The path less the slash that it ends with, if it ends with one.
abbrev pub LosesLast : Bytes → Bytes → Type 0
LosesLast p r = (p ≡ r ++ codes "/") ⊎ ((p ≡ r) × ¬ ((t : Bytes) × (p ≡ t ++ codes "/")))

-- The path less the slash that it begins with, if it begins with one.
abbrev pub LosesFirst : Bytes → Bytes → Type 0
LosesFirst p r = (p ≡ codes "/" ++ r) ⊎ ((p ≡ r) × ¬ ((t : Bytes) × (p ≡ codes "/" ++ t)))

-- The path less a slash at its end and then one at its beginning.
pub record Trimmed (p q : Bytes) : Type 0 where
  pub shortened : Bytes
  pub last : LosesLast p shortened
  pub first : LosesFirst shortened q

trim_suffix-LosesLast : (p : Bytes) → LosesLast p (trim_suffix p (codes "/"))
trim_suffix-LosesLast p = elim (Bool-cases (has_suffix p (codes "/"))) [
  | inl slash ↦
      let (t, e) = has_suffix-Ends p (codes "/") slash in
      inl (rw e (rw (trim_suffix-append t (codes "/"))))
  | inr other ↦ inr (
    sym (trim_suffix_absent p (codes "/") other),
    λ (t, e). cc (rw e at other, has_suffix-append t (codes "/")),
  )
]

LosesLast-trim_suffix : (p r : Bytes) → LosesLast p r → r ≡ trim_suffix p (codes "/")
LosesLast-trim_suffix p r (inl e) = rw e (sym (trim_suffix-append r (codes "/")))
LosesLast-trim_suffix p r (inr (e, none)) = elim (Bool-cases (has_suffix p (codes "/"))) [
  | inl slash ↦ absurd (none (has_suffix-Ends p (codes "/") slash))
  | inr other ↦ sym e ∙ sym (trim_suffix_absent p (codes "/") other)
]

trim_prefix-LosesFirst : (p : Bytes) → LosesFirst p (trim_prefix p (codes "/"))
trim_prefix-LosesFirst p = elim (Bool-cases (has_prefix p (codes "/"))) [
  | inl slash ↦
      let (t, e) = has_prefix-Extends p (codes "/") slash in
      inl (rw e (rw (trim_prefix-append (codes "/") t)))
  | inr other ↦ inr (
    sym (trim_prefix_absent p (codes "/") other),
    λ (t, e). cc (rw e at other, has_prefix-append (codes "/") t),
  )
]

LosesFirst-trim_prefix : (p r : Bytes) → LosesFirst p r → r ≡ trim_prefix p (codes "/")
LosesFirst-trim_prefix p r (inl e) = rw e (sym (trim_prefix-append (codes "/") r))
LosesFirst-trim_prefix p r (inr (e, none)) = elim (Bool-cases (has_prefix p (codes "/"))) [
  | inl slash ↦ absurd (none (has_prefix-Extends p (codes "/") slash))
  | inr other ↦ sym e ∙ sym (trim_prefix_absent p (codes "/") other)
]

pub sanitize-Trimmed : (p : Bytes) → Trimmed p (sanitize p)
unfolding sanitize
sanitize-Trimmed p = record {
  shortened = trim_suffix p (codes "/");
  last = trim_suffix-LosesLast p;
  first = trim_prefix-LosesFirst (trim_suffix p (codes "/"));
}

pub Trimmed-sanitize : (p q : Bytes) → Trimmed p q → q ≡ sanitize p
unfolding sanitize
Trimmed-sanitize p q t =
    LosesFirst-trim_prefix t.shortened q t.first
    ∙ ap (λ (r : Bytes). trim_prefix r (codes "/")) (LosesLast-trim_suffix p t.shortened t.last)
