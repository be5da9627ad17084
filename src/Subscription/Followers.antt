-- ===== src/Subscription/Followers.antt =====
-- A subscription with the denylist that follows its local file.
use nopfs.Prelude.{
  ℕ, ◌≡◌, sym, ap, ◌∙◌, true, false, List, [], ◌++◌, append_assoc, Option, none, some, Bytes, codes,
  length, Error, ok,
}
use nopfs.Libs.{Libs, Cid, IpfsPath}
use nopfs.Denylist.{Denylist, DenylistHeader, empty_denylist}
use nopfs.Denylist.Following.{Read, reading, finished, max_line_size}
use nopfs.Denylist.Tailing.{GoesWell, EndsWell, text_of}
use nopfs.Denylist.HeaderEnd.{skip, concat}
use nopfs.Denylist.Lookup.{is_cid_blocked, is_path_blocked}
use nopfs.Denylist.Reading.{parse_and_follow}
use nopfs.Denylist.WholeFile.{file_of, IsHeader, from_offset}
use nopfs.Denylist.Log.Readable.{Readable}
use nopfs.Denylist.Log.Answers.{SameRules, SameRules-answer}
use nopfs.Denylist.Log.Deciding.{parse_and_follow-Holds, parse_and_follow-Holds_added}
use nopfs.Subscription.{Sync, range_header, download_and_append}
use nopfs.Subscription.InStep.{download_and_append-remote}

-- The sync opens the local file, and the server sends all that the remote file has behind it.
pub record GoesThrough (sync : Sync) (file remote : Bytes) : Type 0 where
  pub opens : sync.open_error ≡ none
  pub stats : sync.stat_error ≡ none
  pub answers :
      sync.request (range_header (length file))
      ≡ ok (record { status_code = 206; body = skip (length file) remote; body_error = none })

-- The bytes of a file with a header.
abbrev pub bytes_of : List Bytes → Bytes → Bytes
bytes_of lines rest = (file_of lines rest none).bytes

bytes_of-append :
    (lines : List Bytes) (rest added : Bytes)
    → bytes_of lines (rest ++ added) ≡ bytes_of lines rest ++ added
bytes_of-append lines rest added =
    ap (λ (t : Bytes). concat lines ++ t) (sym (append_assoc (codes "---\n") rest added))
    ∙ sym (append_assoc (concat lines) (codes "---\n" ++ rest) added)

-- A node that follows the local file of a subscription answers as one that reads the remote file
-- anew: after a sync, the local file is the remote one, and when the follower has been given what
-- the sync added, it gives the same response for every CID and every path as a denylist of the same
-- name read from the remote file at once, in whatever order the maps are ranged over. The local file
-- begins the remote one and has its header, no line is white space alone or meets the limit, and the
-- sync, setting the files, watching and reading go well.
pub followed_sync-answer :
    (L : Libs) (unmarshal : Bytes → DenylistHeader → DenylistHeader × Option Error)
    (seek : ℕ → Option Error) (seeks : (offset : ℕ) → seek offset ≡ none) (filename : Bytes)
    (lines : List Bytes) (rest added : Bytes) (h : DenylistHeader)
    (ish : IsHeader unmarshal (empty_denylist filename) lines h) (sync : Sync)
    (reads anew : List Read)
    → GoesThrough sync (bytes_of lines rest) (bytes_of lines (rest ++ added))
    → text_of reads
      ≡ from_offset L unmarshal seek seeks (empty_denylist filename) lines rest none h ish ++ added
    → GoesWell max_line_size reads
    → text_of anew
      ≡ from_offset L unmarshal seek seeks
          (empty_denylist filename)
          lines
          (rest ++ added)
          none
          h
          ish
    → EndsWell max_line_size anew
    → Readable [] (rest ++ added)
    → (download_and_append sync (some (bytes_of lines rest))
        ≡ (some (bytes_of lines (rest ++ added)), none))
      × ((dl : Denylist) × (left : Bytes) × (n : ℕ) × (dl' : Denylist) × (parse_and_follow L
              unmarshal seek none true
              (empty_denylist filename)
              (file_of lines rest none)
              reads
            ≡ reading dl left n)
          × (parse_and_follow L unmarshal seek none false
                (empty_denylist filename)
                (file_of lines (rest ++ added) none)
                anew
              ≡ finished dl')
          × ((order : List ℕ) (c : Cid)
              → is_cid_blocked L dl order c ≡ is_cid_blocked L dl' order c)
          × ((order : List ℕ) (p : IpfsPath)
              → is_path_blocked L dl order p ≡ is_path_blocked L dl' order p))
followed_sync-answer L unmarshal seek seeks filename lines rest added h ish sync reads anew sound
      text well text' well' readable =
    let (dl, left, n, read, header, name, holds) =
      parse_and_follow-Holds_added L unmarshal seek seeks filename lines rest none h ish added reads
        text well readable in
    let (dl', read', header', name', holds') =
      parse_and_follow-Holds L unmarshal seek seeks filename lines (rest ++ added) none h ish anew
        text' well' readable in
    let same : SameRules dl' dl = record {
      rules = λ r. holds r ∙ sym (holds' r);
      names = name ∙ sym name';
    } in
    (
      download_and_append-remote (bytes_of lines (rest ++ added)) sync (some (bytes_of lines rest))
          (added, bytes_of-append lines rest added) sound.opens sound.stats sound.answers,
      (
        dl,
        left,
        n,
        dl',
        read,
        read',
        (λ order c. (SameRules-answer L dl' dl same order).0 c),
        (λ order p. (SameRules-answer L dl' dl same order).1 p),
      ),
    )
