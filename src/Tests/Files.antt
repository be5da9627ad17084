-- ===== src/Tests/Files.antt =====
-- Files and headers: the theorems at concrete inputs.
use nopfs.Prelude.{
  ◌≡◌, ◌≢◌, refl, true, false, List, [], ◌∷◌, none, some, Bytes, codes, arith, ℕ, ◌-◌, ◌+◌, ◌++◌,
  external, Error, Option, bytes_eqb,
}
use nopfs.Text.{contains_byte}
use nopfs.Denylist.Following.{Read, at_newline, at_eof, follow_lines, max_line_size}
use nopfs.Denylist.Tailing.{
  IsLine, text_of, read_text, finish, follow_lines-read_text, follow_lines_once,
}
use nopfs.Denylist.{DenylistHeader}
use nopfs.Denylist.Header.{
  default_header, max_header_size, read_header, decode, limited, find_separator,
}
use nopfs.Denylist.HeaderEnd.{HeaderLines, skip, count, read_header-none, read_header_found}
use nopfs.Denylist.Reading.{parse_and_follow}
use nopfs.Denylist.WholeFile.{
  file_of, unparsed, IsHeader, from_offset, parse_and_follow-read_text, parse_and_follow-finish,
}
use nopfs.Tests.Toy.{toy}
use nopfs.Tests.World.{start}

abbrev pub part : Read
part = record { text = codes "/ipfs/"; end = at_eof none; taken = 6 }

abbrev pub rest : Read
rest = record { text = codes "Qx\n"; end = at_newline; taken = 4 }

abbrev tail : Read
tail = record { text = codes "#"; end = at_eof (some (external (codes "late"))); taken = 0 }

part_plain : contains_byte (codes "/ipfs/") b'\n' ≡ false
unfolding contains_byte
part_plain = refl

tail_plain : contains_byte (codes "#") b'\n' ≡ false
unfolding contains_byte
tail_plain = refl

pub rest-IsLine : IsLine (codes "Qx\n")
unfolding contains_byte
rest-IsLine = (codes "Qx", refl, refl)

some_left : max_line_size - 6 ≢ 0
some_left = omega arith

pub all_left : max_line_size - 0 ≢ 0
all_left = omega arith

follow_lines-read_text_test :
    follow_lines toy true start 0 (part ∷ rest ∷ [])
    ≡ read_text toy start [] 0 (text_of (part ∷ rest ∷ []))
follow_lines-read_text_test =
    follow_lines-read_text toy start 0 (part ∷ rest ∷ [])
      (part_plain, some_left, refl, (rest-IsLine, tt))

follow_lines_once_test :
    follow_lines toy false start 0 (rest ∷ tail ∷ [])
    ≡ finish (read_text toy start [] 0 (text_of (rest ∷ tail ∷ [])))
follow_lines_once_test =
    follow_lines_once toy start 0 (rest ∷ tail ∷ []) (rest-IsLine, (tail_plain, all_left, refl))

-- A YAML parser that finds nothing.
abbrev pub unmarshal : Bytes → DenylistHeader → DenylistHeader × Option Error
unmarshal bytes h = (h, none)

abbrev pub seek : ℕ → Option Error
seek offset = none

abbrev pub lines : List Bytes
lines = codes "a\n" ∷ []

abbrev pub read_as : DenylistHeader
read_as = unparsed start lines

a-IsLine : IsLine (codes "a\n")
unfolding contains_byte
a-IsLine = (codes "a", refl, refl)

lines-HeaderLines : HeaderLines lines
lines-HeaderLines = (a-IsLine, (λ e. absurd (ground arith)), tt)

pub a-IsHeader : IsHeader unmarshal start lines read_as
a-IsHeader = record {
  whole = lines-HeaderLines;
  fits = omega arith;
  parsed = refl;
  kept = refl;
  numbered = refl;
  version = refl;
}

pub seeks : (offset : ℕ) → seek offset ≡ none
seeks offset = refl

followed_text :
    text_of (part ∷ rest ∷ [])
    ≡ from_offset toy unmarshal seek seeks start lines (codes "/ipfs/") none read_as a-IsHeader
      ++ codes "Qx\n"
unfolding skip read_header decode limited find_separator bytes_eqb
followed_text = refl

parse_and_follow-read_text_test :
    parse_and_follow toy unmarshal seek none true start
      (file_of lines (codes "/ipfs/") none)
      (part ∷ rest ∷ [])
    ≡ read_text toy (record start { header = read_as }) [] (count lines + 1) (codes "/ipfs/Qx\n")
parse_and_follow-read_text_test =
    parse_and_follow-read_text toy unmarshal seek seeks start lines (codes "/ipfs/") none read_as
      a-IsHeader (codes "Qx\n") (part ∷ rest ∷ []) followed_text
      (part_plain, some_left, refl, (rest-IsLine, tt))

ended_text :
    text_of (rest ∷ tail ∷ [])
    ≡ from_offset toy unmarshal seek seeks start lines (codes "Qx\n#") none read_as a-IsHeader
unfolding skip read_header decode limited find_separator bytes_eqb
ended_text = refl

parse_and_follow-finish_test :
    parse_and_follow toy unmarshal seek none false start
      (file_of lines (codes "Qx\n#") none)
      (rest ∷ tail ∷ [])
    ≡ finish
        (read_text toy (record start { header = read_as }) [] (count lines + 1) (codes "Qx\n#"))
parse_and_follow-finish_test =
    parse_and_follow-finish toy unmarshal seek seeks start lines (codes "Qx\n#") none read_as
      a-IsHeader (rest ∷ tail ∷ []) ended_text (rest-IsLine, (tail_plain, all_left, refl))

read_header_found_test :
    (offset : ℕ) × (read_header unmarshal seek start (file_of lines (codes "/a\n") none)
      ≡ (record start { header = read_as }, none, some offset))
    × (skip offset (file_of lines (codes "/a\n") none).bytes ≡ codes "/a\n")
read_header_found_test =
    read_header_found unmarshal seek start lines (codes "/a\n") none read_as lines-HeaderLines
      (omega arith) refl refl refl seeks

all_limited : limited max_header_size (codes "#") ≡ codes "#"
unfolding limited
all_limited = refl

read_header-none_test :
    read_header unmarshal seek start (record { bytes = codes "#"; read_error = none }) ≡ (
      record start {
        header =
            default_header
              (record start.header { header_bytes = []; header_lines = 0 })
              start.filename;
      },
      none,
      some 0,
    )
read_header-none_test =
    read_header-none unmarshal seek start [] (codes "#") (codes "#") tt tail_plain all_limited refl
