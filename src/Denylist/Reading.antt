-- ===== src/Denylist/Reading.antt =====
-- `parseAndFollow`: what `NewDenylist` and `NewDenylistReader` make of a file.
use nopfs.Prelude.{
  ℕ, Bool, true, false, List, [], Option, none, some, Bytes, if◌then◌else◌, Error, Result, ok, err,
}
use nopfs.Libs.{Libs}
use nopfs.Denylist.{Denylist, DenylistHeader, empty_denylist}
use nopfs.Denylist.Following.{Read, Followed, closed, follow_lines}
use nopfs.Denylist.Header.{Content, read_header}

-- Behind the header. `watch` is the error of starting the watcher, which is started to follow the
-- file; then `followLines` runs on its own.
abbrev pub after_header :
    Libs → Option Error → Bool → List Read → Denylist × Option Error × Option ℕ → Followed
after_header L watch follow reads (dl, some error, offset) = closed dl error
after_header L watch follow reads (dl, none, offset) =
    if follow
    then elim watch [
      | none ↦ follow_lines L true dl dl.header.header_lines reads
      | some error ↦ closed dl error
    ]
    else follow_lines L false dl dl.header.header_lines reads

module _ (L : Libs) (unmarshal : Bytes → DenylistHeader → DenylistHeader × Option Error)
    (seek : ℕ → Option Error) where
  unfoldable pub parse_and_follow : Option Error → Bool → Denylist → Content → List Read → Followed
  parse_and_follow watch follow dl file reads =
      after_header L watch follow reads (read_header unmarshal seek dl file)

  -- `NewDenylist`, where `file` is what `os.Open` gives: its error, or what the denylist has come to.
  unfoldable pub new_denylist :
      Option Error → Bool → Bytes → Result Content → List Read → Result Followed
  new_denylist watch follow filepath (err error) reads = err error
  new_denylist watch follow filepath (ok file) reads =
      ok (parse_and_follow watch follow (empty_denylist filepath) file reads)

  -- `NewDenylistReader`, which has no file name and does not follow, so no watcher is started.
  unfoldable pub new_denylist_reader : Content → List Read → Followed
  new_denylist_reader file reads = parse_and_follow none false (empty_denylist []) file reads
