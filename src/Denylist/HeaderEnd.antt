-- ===== src/Denylist/HeaderEnd.antt =====
-- Where the header of a file ends, and what is read behind it.
use nopfs.Prelude.{
  ℕ, suc, ◌+◌, ◌-◌, ◌≤◌, ◌≡◌, ◌≢◌, refl, sym, ap, ◌∙◌, Bool, true, false, List, [], ◌∷◌, ◌++◌,
  append-nil, append_assoc, Option, none, some, Bytes, codes, nat_eqb, bytes_eqb, bytes_eqb-ne,
  nat_eqb-ne, arith, length, ltb, length-append, if◌then◌else◌, Error,
}
use nopfs.Text.{contains_byte}
use nopfs.Text.Affixes.{contains_byte-cons}
use nopfs.Denylist.{Denylist, DenylistHeader}
use nopfs.Denylist.Tailing.{IsLine}
use nopfs.Denylist.Header.{
  separator, end_of_file, max_header_size, limited, find_separator, decode, is_unsupported,
  default_header, read_header,
}

abbrev pub concat : List Bytes → Bytes
concat [] = []
concat (l ∷ lines) = l ++ concat lines

abbrev pub count : List Bytes → ℕ
count [] = 0
count (l ∷ lines) = suc (count lines)

-- Lines, none of which is the separator.
abbrev pub HeaderLines : List Bytes → Type 0
HeaderLines [] = Unit {0}
HeaderLines (l ∷ lines) = IsLine l × (l ≢ codes "---\n") × HeaderLines lines

-- What stands behind the first `n` bytes.
unfoldable pub skip : ℕ → Bytes → Bytes
skip n [] = []
skip n (c ∷ s) = let rest = skip (n - 1) s in if nat_eqb n 0 then c ∷ s else rest

pub skip-append : (s t : Bytes) (n : ℕ) → n ≡ length s → skip n (s ++ t) ≡ t
unfolding skip
skip-append [] [] n h = refl
skip-append [] (c ∷ t) n h = rw h
skip-append (c ∷ s) t n h = ground (arith, skip-append s t (n - 1))

limited-append :
    (s t : Bytes) (n : ℕ) → length s ≤ n → limited n (s ++ t) ≡ s ++ limited (n - length s) t
unfolding limited
limited-append [] t n h = ap (λ k. limited k t) (omega arith)
limited-append (c ∷ s) t n h =
    let left : (n - 1) - length s ≡ n - suc (length s) = omega arith in
    rw (nat_eqb-ne n 0 (λ z. omega arith), limited-append s t (n - 1) (omega arith), left)

find_separator-append :
    (line header : Bytes) (lines : ℕ) (s t : Bytes) (end : Option Error)
    → contains_byte s b'\n' ≡ false
    → find_separator line header lines (s ++ t) end ≡ find_separator (line ++ s) header lines t end
unfolding find_separator
find_separator-append line header lines [] t end h = rw append-nil refl
find_separator-append line header lines (c ∷ s) t end h =
    let (plain, rest) = contains_byte-cons c s b'\n' h in
    rw plain (
      find_separator-append (line ++ c ∷ []) header lines s t end rest
      ∙ rw (append_assoc line (c ∷ []) s))

find_separator-newline :
    (line header : Bytes) (lines : ℕ) (t : Bytes) (end : Option Error)
    → find_separator line header lines (b'\n' ∷ t) end ≡ (
        if bytes_eqb (line ++ codes "\n") (codes "---\n")
        then separator header (lines + 1)
        else find_separator [] (header ++ (line ++ codes "\n")) (lines + 1) t end)
unfolding find_separator
find_separator-newline line header lines t end = refl

-- A line that is not the separator joins the header.
find_separator-IsLine :
    (header : Bytes) (lines : ℕ) (l t : Bytes) (end : Option Error)
    → IsLine l
    → l ≢ codes "---\n"
    → find_separator [] header lines (l ++ t) end
      ≡ find_separator [] (header ++ l) (lines + 1) t end
find_separator-IsLine header lines l t end (s, e, plain) other =
    rw (e, append_assoc s (codes "\n") t)
      (find_separator-append [] header lines s (b'\n' ∷ t) end plain
        ∙ find_separator-newline s header lines t end
        ∙ rw (bytes_eqb-ne (s ++ codes "\n") (codes "---\n") (rw e at other)))

find_separator-lines :
    (header : Bytes) (number : ℕ) (lines : List Bytes) (t : Bytes) (end : Option Error)
    → HeaderLines lines
    → find_separator [] header number (concat lines ++ t) end
      ≡ find_separator [] (header ++ concat lines) (number + count lines) t end
find_separator-lines header number [] t end h =
    rw append-nil (ap (λ k. find_separator [] header k t end) (omega arith))
find_separator-lines header number (l ∷ lines) t end (whole, other, h) =
    rw (append_assoc l (concat lines) t) (
      find_separator-IsLine header number l (concat lines ++ t) end whole other
      ∙ find_separator-lines (header ++ l) (number + 1) lines t end h
      ∙ rw (append_assoc header l (concat lines))
          (ap (λ k. find_separator [] (header ++ (l ++ concat lines)) k t end) (omega arith)))

-- What the limited reader gives holds the header, when the limit is not met in it.
limited-header :
    (head rest : Bytes)
    → length (head ++ codes "---\n") ≤ max_header_size
    → limited max_header_size (head ++ (codes "---\n" ++ rest))
      ≡ head ++ (codes "---\n" ++ limited (max_header_size - length (head ++ codes "---\n")) rest)
limited-header head rest fits = rw (← append_assoc head (codes "---\n") rest) (
    limited-append (head ++ codes "---\n") rest max_header_size fits
    ∙ append_assoc head (codes "---\n") _)

separator_ends :
    (header : Bytes) (number : ℕ) (t : Bytes) (end : Option Error)
    → find_separator [] header number (codes "---\n" ++ t) end ≡ separator header (number + 1)
unfolding find_separator bytes_eqb
separator_ends header number t end = refl

find_separator-header :
    (lines : List Bytes) (t : Bytes) (end : Option Error)
    → HeaderLines lines
    → find_separator [] [] 0 (concat lines ++ (codes "---\n" ++ t)) end
      ≡ separator (concat lines) (0 + count lines + 1)
find_separator-header lines t end h =
    find_separator-lines [] 0 lines (codes "---\n" ++ t) end h
    ∙ separator_ends (concat lines) (0 + count lines) t end

find_separator-none :
    (lines : List Bytes) (tail : Bytes)
    → HeaderLines lines
    → contains_byte tail b'\n' ≡ false
    → find_separator [] [] 0 (concat lines ++ tail) none ≡ end_of_file
find_separator-none lines tail h plain =
    find_separator-lines [] 0 lines tail none h
    ∙ ap (λ t. find_separator [] (concat lines) (0 + count lines) t none) (sym (append-nil tail))
    ∙ find_separator-append [] (concat lines) (0 + count lines) tail [] none plain
    ∙ (unfold find_separator in refl)

if_same : (b : Bool) (o : Option Error) → (if b then o else o) ≡ o
if_same true o = refl
if_same false o = refl

module _ (unmarshal : Bytes → DenylistHeader → DenylistHeader × Option Error)
    (seek : ℕ → Option Error) (dl : Denylist) where
  -- A file whose header ends with the first line `---`, within the limit, is set behind that line
  -- when its header is read, and the denylist has the header that the YAML parser makes of the lines
  -- above it. The parser accepts them, keeps the bytes of the header, and finds a version that is
  -- supported; and the file can be set.
  pub read_header_found :
      (lines : List Bytes) (rest : Bytes) (end : Option Error) (h : DenylistHeader)
      → HeaderLines lines
      → length (concat lines ++ codes "---\n") ≤ max_header_size
      → unmarshal
          (concat lines)
          (record dl.header { header_bytes = concat lines; header_lines = 0 + count lines + 1 })
        ≡ (h, none)
      → h.header_bytes ≡ concat lines
      → is_unsupported h.version ≡ false
      → ((offset : ℕ) → seek offset ≡ none)
      → (offset : ℕ) × (read_header unmarshal seek dl
            (record { bytes = concat lines ++ (codes "---\n" ++ rest); read_error = end })
          ≡ (record dl { header = h }, none, some offset))
        × (skip offset (concat lines ++ (codes "---\n" ++ rest)) ≡ rest)
  unfolding read_header decode
  read_header_found lines rest end h whole fits parsed kept version seeks = (
    length (concat lines) + 4,
    rw (
      limited-header (concat lines) rest fits,
      find_separator-header lines _ _ whole,
      parsed,
      version,
      kept,
      seeks (length (concat lines) + 4),
    ),
    rw (← append_assoc (concat lines) (codes "---\n") rest) (
        skip-append (concat lines ++ codes "---\n") rest _
          (omega (arith, length-append (concat lines) (codes "---\n")))),
  )

  -- A file with no line `---` within the limit gets the default header, and is set to its first
  -- byte, if reading it ends with EOF and it can be set.
  pub read_header-none :
      (lines : List Bytes) (tail bytes : Bytes)
      → HeaderLines lines
      → contains_byte tail b'\n' ≡ false
      → limited max_header_size bytes ≡ concat lines ++ tail
      → seek 0 ≡ none
      → read_header unmarshal seek dl (record { bytes = bytes; read_error = none }) ≡ (
        record dl {
          header =
              default_header (record dl.header { header_bytes = []; header_lines = 0 }) dl.filename;
        },
        none,
        some 0,
      )
  unfolding read_header decode
  read_header-none lines tail bytes whole plain text seeks = rw (
    text,
    if_same (ltb (length bytes) max_header_size) none,
    find_separator-none lines tail whole plain,
    seeks,
  )
