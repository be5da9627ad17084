-- ===== src/Entry/Wildcards.antt =====
-- How `NewBlockedPath` reads wildcards.
use mathlib.Core.List.{append_cancel_right}
use nopfs.Prelude.{
  ℕ, ◌≡◌, ◌≢◌, refl, sym, ◌∙◌, true, false, [], ◌∷◌, ◌++◌, append_assoc, append-nil, Bytes, codes,
  bytes_eqb, subst, arith, Bool-cases, inl, inr, ◌⊎◌, ◌↔◌, ok,
}
use nopfs.Text.{strip_suffix, has_suffix}
use nopfs.Text.Affixes.{
  Extends, has_suffix-append, has_suffix-Ends, trim_suffix-append, trim_prefix_absent,
  trim_suffix_absent,
}
use nopfs.Text.Escapes.{IsPlain, query_unescape_plain}
use nopfs.Entry.Matching.{
  IsBare, Covers, anything, same, below, matches_iff, Trimmed, sanitize-Trimmed, Trimmed-sanitize,
}
use nopfs.Entry.{BlockedPath, split_wildcard, trim_slashes, matches, sanitize, new_blocked_path}

append_cons_ne_nil : (p : Bytes) (c : ℕ) (t : Bytes) → bytes_eqb (p ++ c ∷ t) [] ≡ false
unfolding bytes_eqb
append_cons_ne_nil [] c t = refl
append_cons_ne_nil (x ∷ p) c t = refl

-- A star that ends a path with no slash before it is no `/*`.
no_slash_star :
    (p : Bytes)
    → has_suffix p (codes "/") ≡ false
    → has_suffix (p ++ codes "*") (codes "/*") ≡ false
no_slash_star p h = elim (Bool-cases (has_suffix (p ++ codes "*") (codes "/*"))) [
  | inr n ↦ n
  | inl y ↦
      let (q, e) = has_suffix-Ends (p ++ codes "*") (codes "/*") y in
      let slash : p ≡ q ++ codes "/" =
        append_cancel_right p (q ++ codes "/") (codes "*")
          (e ∙ sym (append_assoc q (codes "/") (codes "*"))) in
      cc (rw slash at h, has_suffix-append q (codes "/"))
]

no_star_no_slash_star :
    (p : Bytes) → has_suffix p (codes "*") ≡ false → has_suffix p (codes "/*") ≡ false
no_star_no_slash_star p h = elim (Bool-cases (has_suffix p (codes "/*"))) [
  | inr n ↦ n
  | inl y ↦
      let (q, e) = has_suffix-Ends p (codes "/*") y in
      let star : p ≡ (q ++ codes "/") ++ codes "*" =
        e ∙ sym (append_assoc q (codes "/") (codes "*")) in
      cc (rw star at h, has_suffix-append (q ++ codes "/") (codes "*"))
]

split_wildcard-slash_star :
    (p : Bytes) → split_wildcard (p ++ codes "/*") ≡ record { path = p; prefix = true }
unfolding split_wildcard
split_wildcard-slash_star p =
    rw (has_suffix-append p (codes "/*"), trim_suffix-append p (codes "/*"))

split_wildcard-star :
    (p : Bytes)
    → has_suffix p (codes "/") ≡ false
    → split_wildcard (p ++ codes "*") ≡ record { path = p; prefix = true }
unfolding split_wildcard
split_wildcard-star p h =
    rw (no_slash_star p h, has_suffix-append p (codes "*"), trim_suffix-append p (codes "*"))

split_wildcard_plain :
    (p : Bytes)
    → has_suffix p (codes "*") ≡ false
    → split_wildcard p ≡ record { path = p; prefix = false }
unfolding split_wildcard
split_wildcard_plain p h = rw (no_star_no_slash_star p h, h)

trim_slashes_bare : (p : Bytes) → IsBare p → trim_slashes p ≡ p
unfolding trim_slashes
trim_slashes_bare p b =
    rw (trim_prefix_absent p (codes "/") b.head) (trim_suffix_absent p (codes "/") b.last)

-- `path*` and `path/*` make the same rule path.
pub new_blocked_path-star :
    (p : Bytes)
    → has_suffix p (codes "/") ≡ false
    → new_blocked_path (p ++ codes "*") ≡ new_blocked_path (p ++ codes "/*")
unfolding new_blocked_path
new_blocked_path-star p h = rw (
  append_cons_ne_nil p b'*' [],
  append_cons_ne_nil p b'/' (b'*' ∷ []),
  split_wildcard-star p h,
  split_wildcard-slash_star p,
)

new_blocked_path-slash_star :
    (p : Bytes)
    → IsPlain p
    → IsBare p
    → new_blocked_path (p ++ codes "/*") ≡ ok (record { path = p; prefix = true })
unfolding new_blocked_path
new_blocked_path-slash_star p plain bare = rw (
  append_cons_ne_nil p b'/' (b'*' ∷ []),
  split_wildcard-slash_star p,
  query_unescape_plain p plain,
  trim_slashes_bare p bare,
)

-- A path with no wildcard, no escape and no slash at its ends is kept as it stands.
pub new_blocked_path_exact :
    (p : Bytes)
    → p ≢ []
    → IsPlain p
    → IsBare p
    → has_suffix p (codes "*") ≡ false
    → new_blocked_path p ≡ ok (record { path = p; prefix = false })
unfolding new_blocked_path
new_blocked_path_exact [] ne plain bare h = absurd (ne refl)
new_blocked_path_exact (c ∷ p) ne plain bare h = rw (
  append_cons_ne_nil [] c p,
  split_wildcard_plain (c ∷ p) h,
  query_unescape_plain (c ∷ p) plain,
  trim_slashes_bare (c ∷ p) bare,
)

wildcard-Covers :
    (p path : Bytes)
    → Covers (record { path = p; prefix = true }) path
    → (p ≡ codes "*") ⊎ Extends path p
wildcard-Covers p path (anything e) = inl e
wildcard-Covers p path (same e) = inr ([], sym e ∙ sym (append-nil p))
wildcard-Covers p path (below w x) = inr x

Covers-wildcard :
    (p path : Bytes)
    → (p ≡ codes "*") ⊎ Extends path p
    → Covers (record { path = p; prefix = true }) path
Covers-wildcard p path (inl e) = anything e
Covers-wildcard p path (inr x) = below refl x

-- For a path `p` with no escape and no slash at its ends, `p*` and `p/*` are the same rule path,
-- and it matches a path exactly when `p` is a prefix of it, once one slash is gone from each end,
-- or `p` is itself a star.
pub wildcard_rules :
    (p q : Bytes)
    → IsPlain p
    → IsBare p
    → (b : BlockedPath) × (new_blocked_path (p ++ codes "*") ≡ ok b)
      × (new_blocked_path (p ++ codes "/*") ≡ ok b)
      × ((matches b q ≡ true) ↔ ((p ≡ codes "*") ⊎ Extends (sanitize q) p))
wildcard_rules p q plain bare = (
  record { path = p; prefix = true },
  new_blocked_path-star p bare.last ∙ new_blocked_path-slash_star p plain bare,
  new_blocked_path-slash_star p plain bare,
  (
    λ m. wildcard-Covers p _ ((matches_iff _ q).0 m),
    λ c. (matches_iff _ q).1 (Covers-wildcard p _ c),
  ),
)

new_blocked_path_without_star :
    (p : Bytes)
    → IsPlain p
    → IsBare p
    → has_suffix p (codes "*") ≡ false
    → new_blocked_path p ≡ ok (record { path = p; prefix = false })
unfolding new_blocked_path bytes_eqb
new_blocked_path_without_star [] plain bare h = refl
new_blocked_path_without_star (c ∷ p) plain bare h =
    new_blocked_path_exact (c ∷ p) (λ e. ground arith) plain bare h

star-ne : (p : Bytes) → has_suffix p (codes "*") ≡ false → p ≢ codes "*"
unfolding has_suffix strip_suffix bytes_eqb
star-ne p h e = cc (rw e at h)

exact-Trimmed :
    (p q : Bytes)
    → has_suffix p (codes "*") ≡ false
    → Covers (record { path = p; prefix = false }) (sanitize q)
    → Trimmed q p
exact-Trimmed p q h (anything e) = absurd (star-ne p h e)
exact-Trimmed p q h (same e) = subst (Trimmed q) (sym e) (sanitize-Trimmed q)
exact-Trimmed p q h (below w x) = absurd (ground arith)

wildcard-Trimmed :
    (p q : Bytes)
    → has_suffix p (codes "*") ≡ false
    → Covers (record { path = p; prefix = true }) (sanitize q)
    → (t : Bytes) × Trimmed q (p ++ t)
wildcard-Trimmed p q h (anything e) = absurd (star-ne p h e)
wildcard-Trimmed p q h (same e) =
    ([], subst (Trimmed q) (sym e ∙ sym (append-nil p)) (sanitize-Trimmed q))
wildcard-Trimmed p q h (below w (t, e)) = (t, subst (Trimmed q) e (sanitize-Trimmed q))

Trimmed-exact :
    (p q : Bytes)
    → has_suffix p (codes "*") ≡ false
    → (matches (record { path = p; prefix = false }) q ≡ true) ↔ Trimmed q p
Trimmed-exact p q h = (
  λ m. exact-Trimmed p q h ((matches_iff _ q).0 m),
  λ t. (matches_iff _ q).1 (same (Trimmed-sanitize q p t)),
)

-- What a rule covers that is written as the path `p`, as `p*` and as `p/*`, where `p` has no escape,
-- no slash at its ends and no star at its end: the first matches the paths that are `p`, and the
-- others, which make the same rule path, the paths that begin with `p`, with anything behind it and
-- not only a slash; all once a path has lost the slash that it ends with and then the slash that it
-- begins with, if there are any.
pub new_blocked_path-matches :
    (p q : Bytes)
    → IsPlain p
    → IsBare p
    → has_suffix p (codes "*") ≡ false
    → (exact wild : BlockedPath) × (new_blocked_path p ≡ ok exact)
      × (new_blocked_path (p ++ codes "*") ≡ ok wild)
      × (new_blocked_path (p ++ codes "/*") ≡ ok wild)
      × ((matches exact q ≡ true) ↔ Trimmed q p)
      × ((matches wild q ≡ true) ↔ ((t : Bytes) × Trimmed q (p ++ t)))
new_blocked_path-matches p q plain bare h = (
  record { path = p; prefix = false },
  record { path = p; prefix = true },
  new_blocked_path_without_star p plain bare h,
  new_blocked_path-star p bare.last ∙ new_blocked_path-slash_star p plain bare,
  new_blocked_path-slash_star p plain bare,
  Trimmed-exact p q h,
  (
    λ m. wildcard-Trimmed p q h ((matches_iff _ q).0 m),
    λ (t, trimmed). (matches_iff _ q).1 (below refl (t, sym (Trimmed-sanitize q (p ++ t) trimmed))),
  ),
)
