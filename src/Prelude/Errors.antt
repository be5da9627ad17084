-- ===== src/Prelude/Errors.antt =====
-- Go's `error` values, and a value returned beside one.
use Prim.Native.Nat.{ℕ}
use nopfs.Prelude.Tests.{Bytes}

-- `external` is an error of a library that the code only calls, with its text.
pub data Error : Type 0 where
  external : Bytes → Error
  escape_error : Bytes → Error
  invalid_hex : Error
  identity_double_hash : Error
  hex_string_length : Error
  double_hash_unparsable : Error → Error → Bytes → ℕ → Error
  extracting_cid : Bytes → Bytes → ℕ → Error → Error
  path_too_short : Error
  header_not_found : Error
  unsupported_version : Error
  unexpected_code : ℕ → Error
  line_too_long : Bytes → ℕ → Error
  walk_failed : Bytes → Error → Error

-- What a Go function returns that gives a value or an error.
pub data Result {ℓ} (A : Type ℓ) : Type ℓ where
  err : Error → Result A
  ok : A → Result A

infixl 5 ◌>>=◌
abbrev pub ◌>>=◌ {ℓ ℓ'} : {A : Type ℓ} {B : Type ℓ'} → Result A → (A → Result B) → Result B
err error >>= next = err error
ok value >>= next = next value
