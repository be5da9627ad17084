-- ===== src/Text/Fields.antt =====
-- When `strings.Fields` finds no field.
use nopfs.Text.{close_word, space_width, fields_from, fields}
use nopfs.Prelude.{
  append-nil, append_assoc, ◌≤◌, ◌<◌, ℕ, zero, suc, ◌≡◌, ◌≢◌, refl, ◌↔◌, ◌⊎◌, inl, inr, [], ◌∷◌,
  ◌++◌, Bytes, arith,
}
use mathlib.Core.List.{concat-ne-nil}

-- White space only, behind the `skip` bytes that end a space already met.
pub data IsBlank : ℕ → Bytes → Type 0 where
  done : {skip : ℕ} → IsBlank skip []
  inside : {skip c : ℕ} {s : Bytes} → IsBlank skip s → IsBlank (suc skip) (c ∷ s)
  space :
      {width c : ℕ} {s : Bytes}
      → space_width (c ∷ s) ≡ suc width
      → IsBlank width s
      → IsBlank zero (c ∷ s)

ℕ-cases : (n : ℕ) → (n ≡ zero) ⊎ ((m : ℕ) × (n ≡ suc m))
ℕ-cases zero = inl refl
ℕ-cases (suc m) = inr (m, refl)

fields_from-open : (s : Bytes) (skip : ℕ) (w : Bytes) → w ≢ [] → fields_from skip w s ≢ []
unfolding fields_from
fields_from-open [] skip [] n e = n refl
fields_from-open [] skip (x ∷ w) n e = cc
fields_from-open (c ∷ s) (suc skip) w n e = fields_from-open s skip w n e
fields_from-open (c ∷ s) zero [] n e = n refl
fields_from-open (c ∷ s) zero (x ∷ w) n e = elim (ℕ-cases (space_width (c ∷ s))) [
  | inl z ↦ fields_from-open s zero ((x ∷ w) ++ c ∷ []) (concat-ne-nil c (x ∷ w)) (ground arith)
  | inr (m, z) ↦ ground arith
]

fields_from→IsBlank : (s : Bytes) (skip : ℕ) → fields_from skip [] s ≡ [] → IsBlank skip s
unfolding fields_from
fields_from→IsBlank [] skip e = done
fields_from→IsBlank (c ∷ s) (suc skip) e = inside (fields_from→IsBlank s skip e)
fields_from→IsBlank (c ∷ s) zero e = elim (ℕ-cases (space_width (c ∷ s))) [
  | inl z ↦ absurd (fields_from-open s zero (c ∷ []) (concat-ne-nil c []) (ground arith))
  | inr (m, z) ↦ space z (fields_from→IsBlank s m (ground arith))
]

IsBlank→fields_from : {s : Bytes} {skip : ℕ} → IsBlank skip s → fields_from skip [] s ≡ []
unfolding fields_from
IsBlank→fields_from done = refl
IsBlank→fields_from (inside b) = IsBlank→fields_from b
IsBlank→fields_from (space e b) = ground (arith, IsBlank→fields_from b)

pub fields-nil_iff : (s : Bytes) → (fields s ≡ []) ↔ IsBlank 0 s
unfolding fields
fields-nil_iff s = (fields_from→IsBlank s 0, IsBlank→fields_from)

-- Printable ASCII with no space.
abbrev pub IsVisible : Bytes → Type 0
IsVisible [] = Unit {0}
IsVisible (c ∷ s) = (33 ≤ c) × (c < 127) × IsVisible s

pub IsVisible-append : (s t : Bytes) → IsVisible s → IsVisible t → IsVisible (s ++ t)
IsVisible-append [] t h k = k
IsVisible-append (c ∷ s) t h k = (h.0, h.1, IsVisible-append s t h.2 k)

space_width_visible : (c : ℕ) (s : Bytes) → 33 ≤ c → c < 127 → space_width (c ∷ s) ≡ 0
unfolding space_width
space_width_visible c [] h k = ground arith
space_width_visible c (d ∷ []) h k = ground arith
space_width_visible c (d ∷ e ∷ s) h k = ground arith

fields_from_visible : (s w : Bytes) → IsVisible s → fields_from 0 w s ≡ close_word (w ++ s) []
unfolding fields_from
fields_from_visible [] w h = rw append-nil
fields_from_visible (c ∷ s) w h = ground (
  arith,
  space_width_visible c s h.0 h.1,
  fields_from_visible s (w ++ c ∷ []) h.2,
  append_assoc w (c ∷ []) s,
)

-- A word is its own only field.
pub fields_visible : (s : Bytes) → s ≢ [] → IsVisible s → fields s ≡ s ∷ []
unfolding fields
fields_visible [] n h = absurd (n refl)
fields_visible (c ∷ s) n h = fields_from_visible (c ∷ s) [] h
