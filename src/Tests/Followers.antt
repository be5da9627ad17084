-- ===== src/Tests/Followers.antt =====
-- Files that are followed while they grow: the theorems at concrete inputs.
use nopfs.Prelude.{
  ◌⊎◌, bytes_eq, ℕ, ◌≡◌, refl, true, false, List, [], ◌∷◌, ◌++◌, none, some, Bytes, codes, arith,
  bytes_eqb,
}
use nopfs.Prelude.GoMap.{get}
use nopfs.Entry.{Entry, blocked, not_found}
use nopfs.Entry.Deciding.{Verdict}
use nopfs.Blocker.{ask_cid}
use nopfs.Blocker.Answers.{AllSay}
use nopfs.Ipfs.{World, failure, status_error}
use nopfs.Ipfs.BlockService.{Blocks, BlockService, wrap_block_service}
use nopfs.Ipfs.Filtering.{response}
use nopfs.Ipfs.Guarding.{InNames}
use nopfs.Ipfs.WholeFiles.{followed_file_denies_block}
use nopfs.Libs.{Cid, IpfsPath}
use nopfs.Text.{contains_byte}
use nopfs.Denylist.{Denylist}
use nopfs.Denylist.Following.{Read, reading, finished, max_line_size}
use nopfs.Denylist.Tailing.{GoesWell, text_of}
use nopfs.Denylist.Header.{read_header, decode, limited, find_separator}
use nopfs.Denylist.HeaderEnd.{skip}
use nopfs.Denylist.Lookup.{is_cid_blocked, is_path_blocked}
use nopfs.Denylist.Reading.{parse_and_follow}
use nopfs.Denylist.WholeFile.{file_of, from_offset}
use nopfs.Denylist.Log.{by_cid, pick, rules_of_text}
use nopfs.Subscription.{Sync, download_and_append}
use nopfs.Subscription.Followers.{GoesThrough, bytes_of, followed_sync-answer}
use nopfs.Tests.Files.{unmarshal, seek, seeks, lines, read_as, a-IsHeader}
use nopfs.Tests.Logs.{text, call, call2, last, calls_text, calls-EndsWell, text-Readable}
use nopfs.Tests.Syncs.{server, send-range_start}
use nopfs.Tests.Toy.{toy}
use nopfs.Tests.World.{start}

abbrev pub first : Bytes
first = codes "/ipfs/Qx\n"

abbrev pub added : Bytes
added = codes "!/ipfs/Qx\n"

-- The reader waits between the two rules.
abbrev reads : List Read
reads = call ∷ last ∷ call2 ∷ []

reads_text :
    text_of reads
    ≡ from_offset toy unmarshal seek seeks start lines first none read_as a-IsHeader ++ added
unfolding skip read_header decode limited find_separator bytes_eqb
reads_text = refl

reads-GoesWell : GoesWell max_line_size reads
unfolding contains_byte
reads-GoesWell = (
  (codes "/ipfs/Qx", refl, refl),
  (refl, omega arith, refl, ((codes "!/ipfs/Qx", refl, refl), tt)),
)

abbrev sync : Sync
sync = server (bytes_of lines text)

sync-GoesThrough : GoesThrough sync (bytes_of lines first) (bytes_of lines text)
sync-GoesThrough = record {
  opens = refl;
  stats = refl;
  answers = send-range_start (bytes_of lines text) 15;
}

followed_sync-answer_example :
    (download_and_append sync (some (bytes_of lines first)) ≡ (some (bytes_of lines text), none))
    × ((dl : Denylist) × (left : Bytes) × (n : ℕ) × (dl' : Denylist) × (parse_and_follow toy
            unmarshal seek none true start
            (file_of lines first none)
            reads
          ≡ reading dl left n)
        × (parse_and_follow toy unmarshal seek none false start
              (file_of lines text none)
              (call ∷ call2 ∷ last ∷ [])
            ≡ finished dl')
        × ((order : List ℕ) (c : Cid)
            → is_cid_blocked toy dl order c ≡ is_cid_blocked toy dl' order c)
        × ((order : List ℕ) (p : IpfsPath)
            → is_path_blocked toy dl order p ≡ is_path_blocked toy dl' order p))
followed_sync-answer_example =
    followed_sync-answer toy unmarshal seek seeks (codes "a.deny") lines first added read_as
      a-IsHeader sync reads (call ∷ call2 ∷ last ∷ []) sync-GoesThrough reads_text reads-GoesWell
      calls_text calls-EndsWell text-Readable

followed_file_denies_block_example :
    (dl : Denylist) × (left : Bytes) × (n : ℕ) × (parse_and_follow toy unmarshal seek none true
        start
        (file_of lines first none)
        reads
      ≡ reading dl left n)
    × ((W : World) (B : Blocks) (bs : BlockService B W.State) (s : W.State) (f : Bytes) (q : Cid)
          (e : Entry)
        → Verdict (pick (by_cid q) (rules_of_text toy [] [] 2 text)) [] (blocked, e)
        → get (W.blocker s).denylists f ≡ some dl
        → InNames f (W.cid_order s q).lists
        → AllSay
            (ask_cid toy (W.blocker s) (W.cid_order s q) q)
            (λ t. (t ≡ blocked) ⊎ (t ≡ not_found))
            (W.cid_order s q).lists
        → (wrap_block_service toy W B bs).get_block q s
          ≡ (failure (status_error (record { response = response toy W B s q })), s))
followed_file_denies_block_example =
    followed_file_denies_block toy unmarshal seek seeks (codes "a.deny") lines first none read_as
      a-IsHeader added reads reads_text reads-GoesWell text-Readable
