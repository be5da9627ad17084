-- ===== src/Prelude/Tests.antt =====
-- Boolean tests, the conditional, equality as an interface, and Go strings as lists of bytes.
use Prim.Native.Nat.{ℕ, suc, ◌+◌, compare, Ordering}
use Prim.Native.Char.{code}
use Prim.Native.String.{String}
use mathlib.Core.Path.{◌≡◌, refl}
use mathlib.Core.Logic.{◌↔◌, ◌≢◌, ◌⊎◌, inl, inr}
use mathlib.Core.Bool.{Bool, true, false, ◌&&◌}
use mathlib.Core.Option.{Option, none, some}
use mathlib.Core.List.{List, [], ◌∷◌, ◌++◌}
use native.Mathlib.Omega.{arith}

abbrev pub ltb : ℕ → ℕ → Bool
ltb a b = elim (compare a b) [ Ordering.lt ↦ true | _ ↦ false ]

abbrev pub leb : ℕ → ℕ → Bool
leb a b = elim (compare a b) [ Ordering.gt ↦ false | _ ↦ true ]

abbrev pub nat_eqb : ℕ → ℕ → Bool
nat_eqb a b = elim (compare a b) [ Ordering.eq ↦ true | _ ↦ false ]

pub nat_eqb_iff : (a b : ℕ) → (nat_eqb a b ≡ true) ↔ (a ≡ b)
nat_eqb_iff a b = ground arith

pub nat_eqb-ne : (a b : ℕ) → a ≢ b → nat_eqb a b ≡ false
nat_eqb-ne a b n = ground arith

infix 1 if◌then◌else◌
abbrev pub if◌then◌else◌ {ℓ} : {A : Type ℓ} → Bool → A → A → A
if true then x else y = x
if false then x else y = y

pub if_cases {ℓ κ} :
    {A : Type ℓ} (P : A → Type κ) (b : Bool) {x y : A} → P x → P y → P (if b then x else y)
if_cases P true hx hy = hx
if_cases P false hx hy = hy

-- To split on a computed value and keep the equation.
-- Both branches, each where its test holds.
pub if_split {ℓ κ} :
    {A : Type ℓ} (P : A → Type κ) (b : Bool) {x y : A}
    → (b ≡ true → P x)
    → (b ≡ false → P y)
    → P (if b then x else y)
if_split P true h k = h refl
if_split P false h k = k refl

pub Bool-cases : (b : Bool) → (b ≡ true) ⊎ (b ≡ false)
Bool-cases true = inl refl
Bool-cases false = inr refl

pub Option-cases {ℓ} : {A : Type ℓ} (o : Option A) → (o ≡ none) ⊎ ((a : A) × (o ≡ some a))
Option-cases none = inl refl
Option-cases (some a) = inr (a, refl)

abbrev pub length {ℓ} : {A : Type ℓ} → List A → ℕ
length [] = 0
length (x ∷ xs) = suc (length xs)

pub length-append {ℓ} : {A : Type ℓ} (xs ys : List A) → length (xs ++ ys) ≡ length xs + length ys
length-append [] ys = omega arith
length-append (x ∷ xs) ys = omega (arith, length-append xs ys)

-- Go's `int`: `negsuc n` is -(n + 1).
pub data ℤ : Type 0 where
  pos : ℕ → ℤ
  negsuc : ℕ → ℤ

-- A Go string or byte slice.
abbrev pub Bytes : Type 0
Bytes = List ℕ

-- The code points of a literal: its bytes, since every literal here is ASCII.
abbrev pub codes : String → Bytes
codes String.[] = []
codes (String.◌∷◌ c s) = code c ∷ codes s

unfoldable pub bytes_eqb : Bytes → Bytes → Bool
bytes_eqb [] [] = true
bytes_eqb (x ∷ xs) (y ∷ ys) = nat_eqb x y && bytes_eqb xs ys
bytes_eqb _ _ = false

pub bytes_eqb_iff : (a b : Bytes) → (bytes_eqb a b ≡ true) ↔ (a ≡ b)
unfolding bytes_eqb
bytes_eqb_iff (x ∷ a) (y ∷ b) = ground (arith, bytes_eqb_iff a b)
bytes_eqb_iff _ _ = ground arith

pub bytes_eqb-ne : (a b : Bytes) → a ≢ b → bytes_eqb a b ≡ false
bytes_eqb-ne a b n = ground (arith, bytes_eqb_iff a b)

-- Keys of a map, which Go compares with `==`.
pub record Key {ℓ} (K : Type ℓ) : Type ℓ where
  pub same_key : K → K → Bool
  pub same_key_iff : (j k : K) → (same_key j k ≡ true) ↔ (j ≡ k)

instance abbrev pub bytes_eq : Key Bytes
bytes_eq = record { same_key = bytes_eqb; same_key_iff = bytes_eqb_iff }

instance abbrev pub nat_eq : Key ℕ
nat_eq = record { same_key = nat_eqb; same_key_iff = nat_eqb_iff }
