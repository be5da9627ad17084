-- ===== src/Prelude/GoMap.antt =====
-- Go's maps as association lists: a write replaces the value of a key that is there.
use mathlib.Core.Path.{◌≡◌, refl}
use mathlib.Core.Option.{Option, none, some}
use mathlib.Core.List.{List, [], ◌∷◌}
use native.Mathlib.Omega.{arith}
use nopfs.Prelude.Tests.{Key, if◌then◌else◌}

abbrev pub GoMap {ℓ κ} : Type ℓ → Type κ → Type (ℓ ⊔ κ)
GoMap K V = List (K × V)

module _ {ℓ κ} {K : Type ℓ} {V : Type κ} ⦃e : Key K⦄ where
  unfoldable pub get : GoMap K V → K → Option V
  get [] k = none
  get ((j, v) ∷ m) k = if e.same_key j k then some v else get m k

  unfoldable pub put : GoMap K V → K → V → GoMap K V
  put [] k v = (k, v) ∷ []
  put ((j, w) ∷ m) k v = if e.same_key j k then (k, v) ∷ m else (j, w) ∷ put m k v

  pub get-put :
      (m : GoMap K V) (k : K) (v : V) (j : K)
      → get (put m k v) j ≡ (if e.same_key k j then some v else get m j)
  unfolding get put
  get-put [] k v j = refl
  get-put ((i, w) ∷ m) k v j =
      ground (arith, get-put m k v j, e.same_key_iff i k, e.same_key_iff i j, e.same_key_iff k j)
