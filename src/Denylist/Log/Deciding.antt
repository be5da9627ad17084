-- ===== src/Denylist/Log/Deciding.antt =====
-- What a file's rules make of the queries.
use nopfs.Prelude.{
  ◌++◌, ℕ, ◌+◌, ◌≡◌, refl, ap, ◌∙◌, true, false, List, [], none, Option, Bytes, Error,
}
use nopfs.Libs.{Libs}
use nopfs.Entry.{Entry}
use nopfs.BlocksDb.{load}
use nopfs.Prelude.GoMap.{get}
use nopfs.Denylist.{Denylist, DenylistHeader, empty_denylist}
use nopfs.Denylist.Following.{Read, reading, finished, max_line_size}
use nopfs.Denylist.Tailing.{GoesWell, EndsWell, text_of, finish}
use nopfs.Denylist.HeaderEnd.{count}
use nopfs.Denylist.Reading.{parse_and_follow}
use nopfs.Denylist.WholeFile.{
  file_of, IsHeader, from_offset, parse_and_follow-read_text, parse_and_follow-finish,
}
use nopfs.Denylist.Log.{Rule, Reader, by_cid, by_name, by_hash, by_path, by_paths, rules_of_text}
use nopfs.Denylist.Log.Adds.{index}
use nopfs.Denylist.Log.Readable.{Readable, read_text-rules}
use nopfs.Denylist.Log.Holding.{Holds}

pub index-empty :
    (r : Reader) (filename : Bytes) (h : DenylistHeader)
    → index r (record (empty_denylist filename) { header = h }) ≡ []
unfolding load get
index-empty (by_cid k) filename h = refl
index-empty (by_name k) filename h = refl
index-empty (by_hash code k) filename h = refl
index-empty (by_path k) filename h = refl
index-empty by_paths filename h = refl

module _ (L : Libs) (unmarshal : Bytes → DenylistHeader → DenylistHeader × Option Error)
    (seek : ℕ → Option Error) (seeks : (offset : ℕ) → seek offset ≡ none) (filename : Bytes)
    (lines : List Bytes) (rest : Bytes) (end : Option Error) (h : DenylistHeader)
    (ish : IsHeader unmarshal (empty_denylist filename) lines h) where
  -- The rules of the text behind the header.
  abbrev pub rules : List Rule
  rules = rules_of_text L h.hints [] (count lines + 1) rest

  -- A file that has a header and is not followed is read to its end, and the denylist holds the
  -- rules of the text behind the line `---` and no others: every reader finds its rules in the
  -- order of the text. The header and the name are those of the file. No line of the text is white
  -- space alone, the reader gives what stands from the offset that the file was set to, no line meets the
  -- limit, and setting the file and reading it go well.
  pub parse_and_follow-Holds :
      (reads : List Read)
      → text_of reads
        ≡ from_offset L unmarshal seek seeks (empty_denylist filename) lines rest end h ish
      → EndsWell max_line_size reads
      → Readable [] rest
      → (dl : Denylist) × (parse_and_follow L unmarshal seek none false
            (empty_denylist filename)
            (file_of lines rest end)
            reads
          ≡ finished dl)
        × (dl.header ≡ h)
        × (dl.filename ≡ filename)
        × Holds dl rules
  parse_and_follow-Holds reads text well readable =
      let start : Denylist = record (empty_denylist filename) { header = h } in
      let (dl, left, n, read, adds, header, name) =
        read_text-rules L start [] (count lines + 1) rest readable in
      (
        dl,
        parse_and_follow-finish L unmarshal seek seeks (empty_denylist filename) lines rest end h
              ish reads text well
            ∙ ap finish read,
        header,
        name,
        λ r. adds r ∙ rw (index-empty r filename h),
      )

  -- A file that has a header and is followed holds, when the calls have given what stands behind the
  -- header and then what was added, the rules of both texts and no others: every rule that is
  -- appended to the file takes effect with its newline. No line of the texts is white space alone,
  -- the reader gives what stands from the offset that the file was set to and then what is added, no
  -- line meets the limit, and setting the file, watching it and reading it go well.
  pub parse_and_follow-Holds_added :
      (added : Bytes) (reads : List Read)
      → text_of reads
        ≡ from_offset L unmarshal seek seeks (empty_denylist filename) lines rest end h ish ++ added
      → GoesWell max_line_size reads
      → Readable [] (rest ++ added)
      → (dl : Denylist) × (left : Bytes) × (n : ℕ) × (parse_and_follow L unmarshal seek none true
            (empty_denylist filename)
            (file_of lines rest end)
            reads
          ≡ reading dl left n)
        × (dl.header ≡ h)
        × (dl.filename ≡ filename)
        × Holds dl (rules_of_text L h.hints [] (count lines + 1) (rest ++ added))
  parse_and_follow-Holds_added added reads text well readable =
      let start : Denylist = record (empty_denylist filename) { header = h } in
      let (dl, left, n, read, adds, header, name) =
        read_text-rules L start [] (count lines + 1) (rest ++ added) readable in
      (
        dl,
        left,
        n,
        parse_and_follow-read_text L unmarshal seek seeks (empty_denylist filename) lines rest end h
              ish added reads text well
            ∙ read,
        header,
        name,
        λ r. adds r ∙ rw (index-empty r filename h),
      )
