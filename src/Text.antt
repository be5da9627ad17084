-- ===== src/Text.antt =====
-- Go's `strings`, `encoding/hex` and `net/url` functions that nopfs calls, over byte lists.
-- A string is its UTF-8 bytes. `strings.HasSuffix` and `TrimSuffix` look for the suffix from the
-- left, which finds the same place. `util.go` is `cut_prefix`.
pub mod Affixes
pub mod Fields
pub mod Escapes
pub mod Paths
pub mod Decimal
use nopfs.Prelude.{
  ℕ, zero, suc, ◌+◌, ◌-◌, ◌*◌, Bool, true, false, ◌&&◌, ◌||◌, List, [], ◌∷◌, ◌++◌, Option, none,
  some, Bytes, codes, nat_eqb, leb, bytes_eqb, if◌then◌else◌, Result, ok, err, escape_error,
  invalid_hex, ◌>>=◌,
}
use mathlib.Core.Option

-- What is left of `s` behind `prefix`.
unfoldable pub strip_prefix : Bytes → Bytes → Option Bytes
strip_prefix s [] = some s
strip_prefix [] (p ∷ prefix) = none
strip_prefix (c ∷ s) (p ∷ prefix) = if nat_eqb c p then strip_prefix s prefix else none

-- What is left of `s` before `suffix`.
unfoldable pub strip_suffix : Bytes → Bytes → Option Bytes
strip_suffix [] suffix = if bytes_eqb [] suffix then some [] else none
strip_suffix (c ∷ s) suffix =
    if bytes_eqb (c ∷ s) suffix then some [] else Option.map (◌∷◌ c) (strip_suffix s suffix)

abbrev pub found : Option Bytes → Bool
found none = false
found (some s) = true

abbrev pub or_whole : Option Bytes → Bytes → Bytes
or_whole none s = s
or_whole (some t) s = t

unfoldable pub has_prefix : Bytes → Bytes → Bool
has_prefix s prefix = found (strip_prefix s prefix)

unfoldable pub trim_prefix : Bytes → Bytes → Bytes
trim_prefix s prefix = or_whole (strip_prefix s prefix) s

unfoldable pub has_suffix : Bytes → Bytes → Bool
has_suffix s suffix = found (strip_suffix s suffix)

unfoldable pub trim_suffix : Bytes → Bytes → Bytes
trim_suffix s suffix = or_whole (strip_suffix s suffix) s

-- `cutPrefix` of util.go.
unfoldable pub cut_prefix : Bytes → Bytes → Bytes × Bool
cut_prefix s prefix = if has_prefix s prefix then (trim_prefix s prefix, true) else (s, false)

abbrev before_sep : ℕ → Bytes × Bytes × Bool → Bytes × Bytes × Bool
before_sep c (b, a, ok?) = (c ∷ b, a, ok?)

-- `strings.Cut` at a separator of one byte: before, after, found.
unfoldable pub cut : Bytes → ℕ → Bytes × Bytes × Bool
cut [] sep = ([], [], false)
cut (c ∷ s) sep = if nat_eqb c sep then ([], s, true) else before_sep c (cut s sep)

-- `strings.ContainsRune` for an ASCII rune.
unfoldable pub contains_byte : Bytes → ℕ → Bool
contains_byte [] b = false
contains_byte (c ∷ s) b = nat_eqb c b || contains_byte s b

abbrev ascii_space_width : ℕ → ℕ
ascii_space_width c = if leb 9 c && leb c 13 || nat_eqb c b' ' then 1 else 0

-- The white space of three bytes: U+1680, U+2000 to U+200A, U+2028, U+2029, U+202F, U+205F, U+3000.
abbrev is_wide_space : ℕ → ℕ → ℕ → Bool
is_wide_space a b c =
    nat_eqb a 0xE1 && nat_eqb b 0x9A && nat_eqb c 0x80
    || nat_eqb a 0xE2
      && nat_eqb b 0x80
      && (leb 0x80 c && leb c 0x8A || nat_eqb c 0xA8 || nat_eqb c 0xA9 || nat_eqb c 0xAF)
    || nat_eqb a 0xE2 && nat_eqb b 0x81 && nat_eqb c 0x9F
    || nat_eqb a 0xE3 && nat_eqb b 0x80 && nat_eqb c 0x80

-- The bytes of the white space that `s` begins with, 0 if it begins with none: `unicode.IsSpace`
-- in UTF-8. A first byte of these sequences is never a later byte of another rune, so looking at
-- every byte finds the runes that the decoder finds.
unfoldable pub space_width : Bytes → ℕ
space_width [] = 0
space_width (a ∷ []) = ascii_space_width a
space_width (a ∷ b ∷ []) =
    if nat_eqb a 0xC2 && (nat_eqb b 0x85 || nat_eqb b 0xA0) then 2 else ascii_space_width a
space_width (a ∷ b ∷ c ∷ s) =
    if nat_eqb a 0xC2 && (nat_eqb b 0x85 || nat_eqb b 0xA0)
    then 2
    else if is_wide_space a b c
    then 3
    else ascii_space_width a

-- What closing the word in progress adds in front of the later fields.
abbrev pub close_word : Bytes → List Bytes → List Bytes
close_word [] fields = fields
close_word (c ∷ word) fields = (c ∷ word) ∷ fields

-- `skip` bytes of a white space are still to be passed over.
unfoldable pub fields_from : ℕ → Bytes → Bytes → List Bytes
fields_from skip word [] = close_word word []
fields_from (suc skip) word (c ∷ s) = fields_from skip word s
fields_from zero word (c ∷ s) = elim (space_width (c ∷ s)) [
  | zero ↦ fields_from 0 (word ++ c ∷ []) s
  | suc width ↦ close_word word (fields_from width [] s)
]

-- `strings.Fields`.
unfoldable pub fields : Bytes → List Bytes
fields s = fields_from 0 [] s

-- `strings.Join`.
unfoldable pub join : List Bytes → Bytes → Bytes
join [] sep = []
join (s ∷ []) sep = s
join (s ∷ t ∷ r) sep = s ++ (sep ++ join (t ∷ r) sep)

-- `ishex` and `unhex` of net/url, also `fromHexChar` of encoding/hex.
abbrev pub is_hex : ℕ → Bool
is_hex c = leb b'0' c && leb c b'9' || leb b'a' c && leb c b'f' || leb b'A' c && leb c b'F'

abbrev pub unhex : ℕ → ℕ
unhex c =
    if leb b'0' c && leb c b'9'
    then c - b'0'
    else if leb b'a' c && leb c b'f'
    then c - b'a' + 10
    else if leb b'A' c && leb c b'F'
    then c - b'A' + 10
    else 0

abbrev cons_byte : ℕ → Result Bytes → Result Bytes
cons_byte c r = r >>= λ s. ok (c ∷ s)

-- `+` stands for a space in a query.
abbrev plain : ℕ → ℕ
plain c = if nat_eqb c b'+' then b' ' else c

-- `url.QueryUnescape`. The first malformed escape is the error.
unfoldable pub query_unescape : Bytes → Result Bytes
query_unescape [] = ok []
query_unescape (c ∷ []) = if nat_eqb c b'%' then err (escape_error (c ∷ [])) else ok (plain c ∷ [])
query_unescape (c ∷ h ∷ []) =
    let tail = query_unescape (h ∷ []) in
    if nat_eqb c b'%' then err (escape_error (c ∷ h ∷ [])) else cons_byte (plain c) tail
query_unescape (c ∷ h ∷ l ∷ s) =
    let escaped = cons_byte (unhex h * 16 + unhex l) (query_unescape s) in
    let tail = cons_byte (plain c) (query_unescape (h ∷ l ∷ s)) in
    if nat_eqb c b'%'
    then (if is_hex h && is_hex l then escaped else err (escape_error (c ∷ h ∷ l ∷ [])))
    else tail

-- `hex.DecodeString`: a byte that is no digit, or a digit left over, is an error.
unfoldable pub hex_decode : Bytes → Result Bytes
hex_decode [] = ok []
hex_decode (h ∷ []) = err invalid_hex
hex_decode (h ∷ l ∷ s) =
    if is_hex h && is_hex l
    then cons_byte (unhex h * 16 + unhex l) (hex_decode s)
    else err invalid_hex

-- The last element of a path, where `element` is what has been read since the last slash.
unfoldable pub last_element : Bytes → Bytes → Bytes
last_element element [] = element
last_element element (c ∷ s) =
    let fresh = last_element [] s in
    let longer = last_element (element ++ c ∷ []) s in if nat_eqb c b'/' then fresh else longer

-- `s` without the slashes at its end.
unfoldable pub trim_end_slashes : Bytes → Bytes
trim_end_slashes [] = []
trim_end_slashes (c ∷ s) = drop_slash c (trim_end_slashes s)
  where
    drop_slash : ℕ → Bytes → Bytes
    drop_slash c [] = if nat_eqb c b'/' then [] else c ∷ []
    drop_slash c (d ∷ s) = c ∷ d ∷ s

-- `filepath.Base`: "." for an empty path, "/" for slashes alone.
unfoldable pub base : Bytes → Bytes
base [] = codes "."
base (c ∷ s) = elim (trim_end_slashes (c ∷ s)) [
  | [] ↦ codes "/"
  | ◌∷◌ d t ↦ last_element [] (d ∷ t)
]
