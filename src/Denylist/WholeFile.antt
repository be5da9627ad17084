-- ===== src/Denylist/WholeFile.antt =====
-- A denylist file from its first byte to its rules.
use nopfs.Prelude.{
  ℕ, ◌+◌, ◌≤◌, ◌≡◌, ◌∙◌, ap, true, false, List, [], ◌++◌, Option, none, some, Bytes, codes, length,
  Error,
}
use nopfs.Libs.{Libs}
use nopfs.Denylist.{Denylist, DenylistHeader}
use nopfs.Denylist.Following.{Read, max_line_size, follow_lines}
use nopfs.Denylist.Tailing.{
  GoesWell, EndsWell, text_of, read_text, finish, follow_lines-read_text, follow_lines_once,
}
use nopfs.Denylist.Header.{Content, max_header_size, is_unsupported, read_header}
use nopfs.Denylist.HeaderEnd.{concat, count, HeaderLines, skip, read_header_found}
use nopfs.Denylist.Reading.{parse_and_follow}

-- A file with a header and what stands behind the line that ends it.
abbrev pub file_of : List Bytes → Bytes → Option Error → Content
file_of lines rest end = record {
  bytes = concat lines ++ (codes "---\n" ++ rest);
  read_error = end;
}

-- What stands behind an offset; a file that is not set to one is not read.
abbrev pub behind : Option ℕ → Bytes → Bytes
behind none s = []
behind (some offset) s = skip offset s

-- The header before it is parsed.
abbrev pub unparsed : Denylist → List Bytes → DenylistHeader
unparsed dl lines = record dl.header {
  header_bytes = concat lines;
  header_lines = 0 + count lines + 1;
}

-- The header is within the limit, the YAML parser accepts it, keeps its bytes and its number of
-- lines, and finds a version that is supported.
pub record IsHeader (unmarshal : Bytes → DenylistHeader → DenylistHeader × Option Error)
    (dl : Denylist) (lines : List Bytes) (h : DenylistHeader) : Type 0 where
  pub whole : HeaderLines lines
  pub fits : length (concat lines ++ codes "---\n") ≤ max_header_size
  pub parsed : unmarshal (concat lines) (unparsed dl lines) ≡ (h, none)
  pub kept : h.header_bytes ≡ concat lines
  pub numbered : h.header_lines ≡ count lines + 1
  pub version : is_unsupported h.version ≡ false

module _ (L : Libs) (unmarshal : Bytes → DenylistHeader → DenylistHeader × Option Error)
    (seek : ℕ → Option Error) (seeks : (offset : ℕ) → seek offset ≡ none) (dl : Denylist)
    (lines : List Bytes) (rest : Bytes) (end : Option Error) (h : DenylistHeader)
    (ish : IsHeader unmarshal dl lines h) where
  -- What stands behind the offset that `readHeader` sets the file to.
  abbrev pub from_offset : Bytes
  from_offset =
      behind (read_header unmarshal seek dl (file_of lines rest end)).2
        (file_of lines rest end).bytes

  header_read :
      (offset : ℕ) × (read_header unmarshal seek dl (file_of lines rest end)
        ≡ (record dl { header = h }, none, some offset))
      × (from_offset ≡ rest)
  header_read =
      let (offset, read, left) =
        read_header_found unmarshal seek dl lines rest end h ish.whole ish.fits ish.parsed ish.kept
          ish.version seeks in
      (offset, read, ap (λ t. behind t.2 (file_of lines rest end).bytes) read ∙ left)

  -- Behind the header, a followed file is its lines.
  pub parse_and_follow-follow_lines :
      (reads : List Read)
      → parse_and_follow L unmarshal seek none true dl (file_of lines rest end) reads
        ≡ follow_lines L true (record dl { header = h }) (count lines + 1) reads
  unfolding parse_and_follow
  parse_and_follow-follow_lines reads =
      let (offset, read, left) = header_read in
      rw read (ap (λ k. follow_lines L true (record dl { header = h }) k reads) ish.numbered)

  -- A followed file that has a header is read as the text behind the line `---` and all that is
  -- added to it later: the denylist has the header and the rules of that text, whose first line has
  -- the number behind the header's. The reader gives what stands from the offset that the file was
  -- set to and then what is added, no line meets the limit, and setting the file, watching it and
  -- reading it go well.
  pub parse_and_follow-read_text :
      (added : Bytes) (reads : List Read)
      → text_of reads ≡ from_offset ++ added
      → GoesWell max_line_size reads
      → parse_and_follow L unmarshal seek none true dl (file_of lines rest end) reads
        ≡ read_text L (record dl { header = h }) [] (count lines + 1) (rest ++ added)
  parse_and_follow-read_text added reads text well =
      let (offset, read, left) = header_read in
      parse_and_follow-follow_lines reads
      ∙ follow_lines-read_text L (record dl { header = h }) (count lines + 1) reads well
      ∙ ap (read_text L (record dl { header = h }) [] (count lines + 1))
          (text ∙ ap (λ t. t ++ added) left)

  -- A file that has a header and is not followed is read as the text behind the line `---`, and the
  -- run ends with it: the denylist has the header and the rules of that text, whose first line has
  -- the number behind the header's, and what stands behind the last newline is not parsed. The
  -- reader gives what stands from the offset that the file was set to, no line meets the limit, and
  -- setting the file and reading it go well.
  pub parse_and_follow-finish :
      (reads : List Read)
      → text_of reads ≡ from_offset
      → EndsWell max_line_size reads
      → parse_and_follow L unmarshal seek none false dl (file_of lines rest end) reads
        ≡ finish (read_text L (record dl { header = h }) [] (count lines + 1) rest)
  unfolding parse_and_follow
  parse_and_follow-finish reads text well =
      let (offset, read, left) = header_read in
      let dl' : Denylist = record dl { header = h } in
      rw read (
        follow_lines_once L dl' h.header_lines reads well
        ∙ ap (λ k. finish (read_text L dl' [] k (text_of reads))) ish.numbered
        ∙ ap (λ t. finish (read_text L dl' [] (count lines + 1) t)) (text ∙ left))
