-- ===== src/Denylist/HeaderBound.antt =====
-- How far `readHeader` reads.
use nopfs.Prelude.{
  ℕ, ◌+◌, ◌-◌, ◌≤◌, ◌≡◌, ap, [], ◌∷◌, ◌++◌, Option, none, some, Bytes, codes, length, length-append,
  nat_eqb, bytes_eqb, bytes_eqb_iff, Bool-cases, inl, inr, if_cases, Error, header_not_found,
  unsupported_version, arith,
}
use nopfs.Denylist.{Denylist, DenylistHeader}
use nopfs.Denylist.Header.{
  Content, max_header_size, limited, limited_error, Found, separator, end_of_file, read_failed,
  find_separator, is_unsupported, check_version, decode_found, decode, set_to, position,
  read_header,
}

-- A separator that is found stands within so many bytes.
abbrev WithinBytes : ℕ → Found → Type 0
WithinBytes n (separator header lines) = length header + 4 ≤ n
WithinBytes n _ = Unit {0}

find_separator-WithinBytes :
    (line header : Bytes) (lines : ℕ) (s : Bytes) (end : Option Error) (n : ℕ)
    → length header + length line + length s ≤ n
    → WithinBytes n (find_separator line header lines s end)
unfolding find_separator
find_separator-WithinBytes line header lines [] none n h = tt
find_separator-WithinBytes line header lines [] (some error) n h = tt
find_separator-WithinBytes line header lines (c ∷ s) end n h =
    let whole = line ++ c ∷ [] in
    let longer = length-append line (c ∷ []) in
    let next =
      find_separator-WithinBytes [] (header ++ whole) (lines + 1) s end n
        (omega (arith, length-append header whole, longer)) in
    let more = find_separator-WithinBytes whole header lines s end n (omega (arith, longer)) in
    elim (Bool-cases (nat_eqb c b'\n')) [
      | inr other ↦ rw other more
      | inl newline ↦ elim (Bool-cases (bytes_eqb whole (codes "---\n"))) [
        | inl found ↦
            let four = ap length ((bytes_eqb_iff whole (codes "---\n")).0 found) in
            rw (newline, found) (omega (arith, four, longer))
        | inr not_found ↦ rw (newline, not_found) next
      ]
    ]

length-limited :
    (n : ℕ) (s : Bytes) → (length (limited n s) ≤ n) × (length (limited n s) ≤ length s)
unfolding limited
length-limited n [] = omega arith
length-limited n (c ∷ s) = ground (arith, length-limited (n - 1) s)

-- With no error the file is set to an offset within so many bytes, and with an error to none.
abbrev pub SetWithin : ℕ → Denylist × Option Error × Option ℕ → Type 0
SetWithin n (dl, none, some offset) = offset ≤ n
SetWithin n (dl, none, none) = ⊥
SetWithin n (dl, some error, some offset) = ⊥
SetWithin n (dl, some error, none) = Unit {0}

SetWithin-set_to :
    (n : ℕ) (dl : Denylist) (error : Option Error) (offset : ℕ)
    → offset ≤ n
    → SetWithin n (dl, error, set_to error offset)
SetWithin-set_to n dl none offset le = le
SetWithin-set_to n dl (some error) offset le = tt

position-SetWithin :
    (seek : ℕ → Option Error) (dl : Denylist) (h : DenylistHeader) (error : Option Error) (n : ℕ)
    → length h.header_bytes + 4 ≤ n
    → SetWithin n (position seek dl (h, error))
position-SetWithin seek dl h none n le =
    SetWithin-set_to n dl (seek (length h.header_bytes + 4)) (length h.header_bytes + 4) le
position-SetWithin seek dl h (some header_not_found) n le =
    SetWithin-set_to n dl (seek 0) 0 (omega arith)
position-SetWithin seek dl h (some _) n le = tt

position-check_version :
    (seek : ℕ → Option Error) (dl : Denylist) (h : DenylistHeader) (error : Option Error) (n : ℕ)
    → length h.header_bytes + 4 ≤ n
    → SetWithin n (position seek dl (check_version (h, error)))
position-check_version seek dl h (some error) n le = position-SetWithin seek dl h (some error) n le
position-check_version seek dl h none n le =
    if_cases (λ (r : DenylistHeader × Option Error). SetWithin n (position seek dl r))
      (is_unsupported h.version) (position-SetWithin seek dl h (some unsupported_version) n le)
      (position-SetWithin seek dl h none n le)

position_failed :
    (seek : ℕ → Option Error) (dl : Denylist) (h : DenylistHeader) (error : Error) (n : ℕ)
    → SetWithin n (position seek dl (h, some error))
position_failed seek dl h header_not_found n = SetWithin-set_to n dl (seek 0) 0 (omega arith)
position_failed seek dl h _ n = tt

module _ (unmarshal : Bytes → DenylistHeader → DenylistHeader × Option Error)
    (keeps : (text : Bytes) (h : DenylistHeader)
      → (unmarshal text h).0.header_bytes ≡ h.header_bytes)
    (seek : ℕ → Option Error) (dl : Denylist) where
  position-decode_found :
      (h : DenylistHeader) (f : Found) (n : ℕ)
      → WithinBytes n f
      → SetWithin n (position seek dl (decode_found unmarshal h f))
  position-decode_found h (separator bytes lines) n within =
      let h1 : DenylistHeader = record h { header_bytes = bytes; header_lines = lines } in
      position-check_version seek dl (unmarshal bytes h1).0 (unmarshal bytes h1).1 n
        (omega (arith, ap length (keeps bytes h1)))
  position-decode_found h end_of_file n within =
      position_failed seek dl (record h { header_bytes = []; header_lines = 0 }) header_not_found n
  position-decode_found h (read_failed bytes lines error) n within =
      position_failed seek dl (record h { header_bytes = bytes; header_lines = lines }) error n

  -- Whatever the file holds and whatever reading it or setting it comes to, a `readHeader` that gives
  -- no error has set the file to an offset that is within the file and within the limit of 1 MiB, and
  -- one that gives an error has not set it. The YAML parser leaves the header's bytes, a field that is
  -- not exported, as they are.
  pub read_header-SetWithin :
      (file : Content)
      → SetWithin max_header_size (read_header unmarshal seek dl file)
        × SetWithin (length file.bytes) (read_header unmarshal seek dl file)
  unfolding read_header decode
  read_header-SetWithin file =
      let (limit, whole) = length-limited max_header_size file.bytes in
      let found = λ (n : ℕ) (h : length (limited max_header_size file.bytes) ≤ n).
        position-decode_found dl.header _ n (
          find_separator-WithinBytes [] [] 0 (limited max_header_size file.bytes)
            (limited_error max_header_size file) n (omega arith)) in
      (found max_header_size limit, found (length file.bytes) whole)
