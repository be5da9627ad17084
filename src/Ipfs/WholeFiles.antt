-- ===== src/Ipfs/WholeFiles.antt =====
-- From the text of a denylist file to what the wrapped block service does.
use nopfs.Prelude.{
  ℕ, ◌+◌, ◌≡◌, ◌⊎◌, refl, ap, true, List, [], ◌++◌, Option, none, some, Bytes, bytes_eq, Error,
}
use nopfs.Prelude.GoMap.{get}
use nopfs.Libs.{Libs, Cid}
use nopfs.Entry.{Entry, not_found, blocked}
use nopfs.Entry.Deciding.{Verdict}
use nopfs.Status.{StatusResponse}
use nopfs.Denylist.{Denylist, DenylistHeader, empty_denylist}
use nopfs.Denylist.Following.{Read, reading, max_line_size}
use nopfs.Denylist.Tailing.{GoesWell, text_of}
use nopfs.Denylist.HeaderEnd.{count}
use nopfs.Denylist.Reading.{parse_and_follow}
use nopfs.Denylist.WholeFile.{file_of, IsHeader, from_offset}
use nopfs.Denylist.Log.{by_cid, pick, rules_of_text}
use nopfs.Denylist.Log.Readable.{Readable}
use nopfs.Denylist.Log.Holding.{Holds-is_cid_blocked}
use nopfs.Denylist.Log.Deciding.{parse_and_follow-Holds_added}
use nopfs.Blocker.{ask_cid}
use nopfs.Blocker.Answers.{AllSay}
use nopfs.Ipfs.{World, failure, status_error}
use nopfs.Ipfs.BlockService.{Blocks, BlockService, wrap_block_service}
use nopfs.Ipfs.Filtering.{response}
use nopfs.Ipfs.Guarding.{InNames, word_denies_block}

-- From the file to the service: when a file with a header is followed and the calls have given what
-- stands behind the header and what was added to it, the wrapped block service of a node whose
-- blocker holds that denylist does not get the block of any CID that the last rule of the whole
-- text for its multihash, among those that cover the CID itself, blocks: the call fails with the
-- blocker's response and changes nothing. The range over the denylists meets that one, and all that
-- it meets say "blocked" or "not found" of the CID. No line of the text is white space alone or
-- meets the limit, the reader gives what stands from the offset that the file was set to and then
-- what is added, and setting the file, watching it and reading it go well.
pub followed_file_denies_block :
    (L : Libs) (unmarshal : Bytes → DenylistHeader → DenylistHeader × Option Error)
    (seek : ℕ → Option Error) (seeks : (offset : ℕ) → seek offset ≡ none) (filename : Bytes)
    (lines : List Bytes) (rest : Bytes) (end : Option Error) (h : DenylistHeader)
    (ish : IsHeader unmarshal (empty_denylist filename) lines h) (added : Bytes) (reads : List Read)
    → text_of reads
      ≡ from_offset L unmarshal seek seeks (empty_denylist filename) lines rest end h ish ++ added
    → GoesWell max_line_size reads
    → Readable [] (rest ++ added)
    → (dl : Denylist) × (left : Bytes) × (n : ℕ) × (parse_and_follow L unmarshal seek none true
          (empty_denylist filename)
          (file_of lines rest end)
          reads
        ≡ reading dl left n)
      × ((W : World) (B : Blocks) (bs : BlockService B W.State) (s : W.State) (f : Bytes) (q : Cid)
            (e : Entry)
          → Verdict
              (pick
                (by_cid (L.b58 (L.hash q)))
                (rules_of_text L h.hints [] (count lines + 1) (rest ++ added)))
              []
              (blocked, e)
          → get (W.blocker s).denylists f ≡ some dl
          → InNames f (W.cid_order s q).lists
          → AllSay
              (ask_cid L (W.blocker s) (W.cid_order s q) q)
              (λ t. (t ≡ blocked) ⊎ (t ≡ not_found))
              (W.cid_order s q).lists
          → (wrap_block_service L W B bs).get_block q s
            ≡ (failure (status_error (record { response = response L W B s q })), s))
followed_file_denies_block L unmarshal seek seeks filename lines rest end h ish added reads text
      well readable =
    let (dl, left, n, read, header, name, holds) =
      parse_and_follow-Holds_added L unmarshal seek seeks filename lines rest end h ish added reads
        text well readable in
    (
      dl,
      left,
      n,
      read,
      λ W B bs s f q e v held asked all.
          word_denies_block L W B bs s dl f q
            (ap (λ (r : StatusResponse). r.status)
              (Holds-is_cid_blocked L dl _ holds ((W.cid_order s q).codes f) q blocked e v refl))
            held asked all,
    )
