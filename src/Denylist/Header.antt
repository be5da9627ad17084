-- ===== src/Denylist/Header.antt =====
-- `DenylistHeader.Decode` and `readHeader`: the header of a file and where its rules begin. The file
-- is the bytes that it holds and the error that reading them ends with, if it does not end with EOF.
use nopfs.Prelude.{
  ℕ, ◌+◌, ◌-◌, ◌^◌, ℤ, pos, negsuc, Bool, false, ◌&&◌, not, [], ◌∷◌, ◌++◌, Option, none, some,
  Bytes, codes, nat_eqb, ltb, bytes_eqb, length, if◌then◌else◌, Error, header_not_found,
  unsupported_version,
}
use nopfs.Text.{base}
use nopfs.Denylist.{Denylist, DenylistHeader}

pub record Content : Type 0 where
  pub bytes : Bytes
  pub read_error : Option Error

abbrev pub max_header_size : ℕ
max_header_size = 2 ^ 20

-- `io.LimitedReader`: past the limit there is EOF, before it the file's own end.
unfoldable pub limited : ℕ → Bytes → Bytes
limited n [] = []
limited n (c ∷ s) = let rest = limited (n - 1) s in if nat_eqb n 0 then [] else c ∷ rest

-- The error that ends the limited reader.
abbrev pub limited_error : ℕ → Content → Option Error
limited_error n file = if ltb (length file.bytes) n then file.read_error else none

-- The header's bytes and the number of its lines, or the error that ends the search.
pub data Found : Type 0 where
  separator : Bytes → ℕ → Found
  end_of_file : Found
  read_failed : Bytes → ℕ → Error → Found

abbrev pub at_bytes_end : Bytes → ℕ → Option Error → Found
at_bytes_end header lines none = end_of_file
at_bytes_end header lines (some error) = read_failed header lines error

-- The loop of `Decode` over the bytes: `buf.ReadBytes('\n')` has read `line` so far.
unfoldable pub find_separator : Bytes → Bytes → ℕ → Bytes → Option Error → Found
find_separator line header lines [] end = at_bytes_end header lines end
find_separator line header lines (c ∷ s) end =
    let whole = line ++ c ∷ [] in
    let more = find_separator whole header lines s end in
    let next = find_separator [] (header ++ whole) (lines + 1) s end in
    if nat_eqb c b'\n'
    then (if bytes_eqb whole (codes "---\n") then separator header (lines + 1) else next)
    else more

-- `h.Version > 0 && h.Version != currentVersion`.
abbrev pub is_unsupported : ℤ → Bool
is_unsupported (pos n) = ltb 0 n && not (nat_eqb n 1)
is_unsupported (negsuc n) = false

abbrev pub check_version : DenylistHeader × Option Error → DenylistHeader × Option Error
check_version (h, some error) = (h, some error)
check_version (h, none) =
    if is_unsupported h.version then (h, some unsupported_version) else (h, none)

-- `Decode`. `unmarshal` is `yaml.Unmarshal`, which fills the exported fields of a header.
abbrev pub decode_found :
    (Bytes → DenylistHeader → DenylistHeader × Option Error)
    → DenylistHeader
    → Found
    → DenylistHeader × Option Error
decode_found unmarshal h end_of_file =
    (record h { header_bytes = []; header_lines = 0 }, some header_not_found)
decode_found unmarshal h (read_failed bytes lines error) =
    (record h { header_bytes = bytes; header_lines = lines }, some error)
decode_found unmarshal h (separator bytes lines) =
    check_version (unmarshal bytes (record h { header_bytes = bytes; header_lines = lines }))

unfoldable pub decode :
    (Bytes → DenylistHeader → DenylistHeader × Option Error)
    → DenylistHeader
    → Content
    → DenylistHeader × Option Error
decode unmarshal h file = decode_found unmarshal h (
    find_separator [] [] 0 (limited max_header_size file.bytes)
      (limited_error max_header_size file))

-- The header for a file that has none.
abbrev pub default_header : DenylistHeader → Bytes → DenylistHeader
default_header h filename = record h {
  version = pos 1;
  name = base filename;
  description = codes "No header found";
  author = codes "unknown";
}

-- The offset that the file is set to by a `Seek` with this result.
abbrev pub set_to : Option Error → ℕ → Option ℕ
set_to none offset = some offset
set_to (some error) offset = none

-- `readHeader` behind `Decode`: the denylist, the error, and the offset that the file is set to, none
-- if it is left where the reads of the header have brought it. `seek` is `Seek(offset, 0)`.
abbrev pub position :
    (ℕ → Option Error)
    → Denylist
    → DenylistHeader × Option Error
    → Denylist × Option Error × Option ℕ
position seek dl (h, none) =
    let offset = length h.header_bytes + 4 in
    (record dl { header = h }, seek offset, set_to (seek offset) offset)
position seek dl (h, some header_not_found) =
    (record dl { header = default_header h dl.filename }, seek 0, set_to (seek 0) 0)
position seek dl (h, some error) = (record dl { header = h }, some error, none)

unfoldable pub read_header :
    (Bytes → DenylistHeader → DenylistHeader × Option Error)
    → (ℕ → Option Error)
    → Denylist
    → Content
    → Denylist × Option Error × Option ℕ
read_header unmarshal seek dl file = position seek dl (decode unmarshal dl.header file)
