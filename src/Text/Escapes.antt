-- ===== src/Text/Escapes.antt =====
-- Text without the escapes of `url.QueryUnescape`.
use nopfs.Text.{query_unescape}
use nopfs.Prelude.{◌≡◌, ◌≢◌, refl, [], ◌∷◌, Bytes, ok, arith}

-- No byte of the text has a meaning to `url.QueryUnescape`.
abbrev pub IsPlain : Bytes → Type 0
IsPlain [] = Unit {0}
IsPlain (c ∷ s) = (c ≢ b'%') × (c ≢ b'+') × IsPlain s

pub query_unescape_plain : (s : Bytes) → IsPlain s → query_unescape s ≡ ok s
unfolding query_unescape
query_unescape_plain [] h = refl
query_unescape_plain (c ∷ []) h = ground arith
query_unescape_plain (c ∷ d ∷ []) h = ground arith
query_unescape_plain (c ∷ d ∷ e ∷ s) h = ground (arith, query_unescape_plain (d ∷ e ∷ s))
