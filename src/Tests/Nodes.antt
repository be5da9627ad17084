-- ===== src/Tests/Nodes.antt =====
-- A node that runs: a path of its steps, and the theorems at its states.
use nopfs.Subscription.{content}
use nopfs.Subscription.InStep.{download_and_append-remote}
use nopfs.Subscription.Node.InOrder.{Steps-append}
use nopfs.Prelude.{ap, ◌≡◌, refl, List, [], ◌∷◌, ◌++◌, none, some, Bytes, codes, arith}
use nopfs.Entry.{Entries}
use nopfs.Text.{contains_byte}
use nopfs.Text.Affixes.{Extends}
use nopfs.Denylist.{Denylist}
use nopfs.Denylist.Following.{Read, at_newline, at_eof}
use nopfs.Denylist.Calls.{Calls, Short, Short-length}
use nopfs.Denylist.Log.{by_cid}
use nopfs.Denylist.Log.Adds.{Adds, index}
use nopfs.Subscription.{Sync, download_and_append}
use nopfs.Subscription.Followers.{GoesThrough}
use nopfs.Subscription.Node.{Node, grow, fire, read_string, Steps, here, next, opened}
use nopfs.Subscription.Node.Safety.{follower, FollowsRemote, Steps-FollowsRemote}
use nopfs.Subscription.Node.Keeping.{Steps-keeps}
use nopfs.Subscription.Node.Going.{GoesOn, Steps-GoesOn}
use nopfs.Subscription.Node.CatchingUp.{Steps-catches_up}
use nopfs.Tests.Files.{unmarshal, seek, seeks, lines, read_as, a-IsHeader}
use nopfs.Tests.Followers.{first, added}
use nopfs.Tests.Logs.{text, call, call2, text-Readable}
use nopfs.Tests.Syncs.{server, server-Serves, send-range_start}
use nopfs.Tests.Toy.{toy}

abbrev pub head : Bytes
head = codes "a\n---\n"

-- The remote file has one rule, which the follower reads; then it grows.
abbrev pub remote : Bytes
remote = head ++ first

pub first-Extends : Extends remote (head ++ first)
first-Extends = ([], refl)

first-Calls : Calls 0 (call ∷ [])
unfolding contains_byte
first-Calls = ((codes "/ipfs/Qx", refl, refl), omega arith, tt)

abbrev pub grown : Node
grown = record { remote = head ++ text; file = some (head ++ first); calls = call ∷ [] }

pub grown-Steps : Steps head (opened remote (head ++ first)) grown
grown-Steps = next (next here (read_string call first-Calls ([], refl))) (grow added)

abbrev sync : Sync
sync = server (head ++ text)

sync-GoesThrough : GoesThrough sync (head ++ first) (head ++ text)
sync-GoesThrough = record {
  opens = refl;
  stats = refl;
  answers = send-range_start (head ++ text) 15;
}

Steps-FollowsRemote_example :
    FollowsRemote toy unmarshal seek seeks
      (codes "a.deny")
      lines
      first
      read_as
      a-IsHeader
      grown
      (follower toy unmarshal seek seeks (codes "a.deny") lines first read_as a-IsHeader grown)
Steps-FollowsRemote_example =
    Steps-FollowsRemote toy unmarshal seek seeks (codes "a.deny") lines first read_as a-IsHeader
      remote first-Extends grown-Steps

pub text-Short : Short 0 text
text-Short = Short-length 0 text (omega arith)

Steps-GoesOn_example :
    GoesOn toy unmarshal seek seeks (codes "a.deny") lines first read_as a-IsHeader grown first
Steps-GoesOn_example =
    Steps-GoesOn toy unmarshal seek seeks (codes "a.deny") lines first read_as a-IsHeader remote
      text first-Extends grown-Steps tt refl text-Readable text-Short

Steps-catches_up_example :
    (t : Node) × Steps head grown t
    × (t.file ≡ some t.remote)
    × (t.remote ≡ head ++ text)
    × GoesOn toy unmarshal seek seeks (codes "a.deny") lines first read_as a-IsHeader t text
Steps-catches_up_example =
    Steps-catches_up toy unmarshal seek seeks (codes "a.deny") lines first read_as a-IsHeader remote
      text sync first-Extends grown-Steps tt refl refl text-Readable text-Short
      (server-Serves (head ++ text)) sync-GoesThrough

-- The first call takes both lines and gives one, and the end of the file is met twice.
abbrev both_taken : List Read
both_taken =
    record { text = codes "/ipfs/Qx\n"; end = at_newline; taken = 19 }
    ∷ record { text = codes "!/ipfs/Qx\n"; end = at_newline; taken = 0 }
    ∷ record { text = []; end = at_eof none; taken = 0 }
    ∷ record { text = []; end = at_eof none; taken = 0 }
    ∷ []

-- The node when the sync has gone through and the follower has read the second rule.
abbrev synced : Node
synced = record {
  remote = head ++ text;
  file = (download_and_append sync (some (head ++ first))).0;
  calls = call ∷ call2 ∷ [];
}

synced_file : (download_and_append sync (some (head ++ first))).0 ≡ some (head ++ text)
synced_file =
    ap (λ t. t.0)
      (download_and_append-remote (head ++ text) sync (some (head ++ first)) (added, refl) refl refl
        sync-GoesThrough.answers)

both-Calls : Calls 0 (call ∷ call2 ∷ [])
unfolding contains_byte
both-Calls = (
  (codes "/ipfs/Qx", refl, refl),
  omega arith,
  ((codes "!/ipfs/Qx", refl, refl), omega arith, tt),
)

synced-Steps : Steps head grown synced
synced-Steps =
    next (next here (fire sync (server-Serves (head ++ text))))
      (read_string call2 both-Calls ([], ap content synced_file))

abbrev pub before :
    GoesOn toy unmarshal seek seeks (codes "a.deny") lines first read_as a-IsHeader grown first
before =
    Steps-GoesOn toy unmarshal seek seeks (codes "a.deny") lines first read_as a-IsHeader remote
      text first-Extends grown-Steps tt refl text-Readable text-Short

abbrev after :
    GoesOn toy unmarshal seek seeks (codes "a.deny") lines first read_as a-IsHeader synced text
after =
    Steps-GoesOn toy unmarshal seek seeks (codes "a.deny") lines first read_as a-IsHeader remote
      text first-Extends (Steps-append grown-Steps synced-Steps) tt refl text-Readable text-Short

Steps-keeps_example :
    (more : Entries) × (index (by_cid (codes "Qx")) after.0
      ≡ index (by_cid (codes "Qx")) before.0 ++ more)
Steps-keeps_example =
    Steps-keeps toy unmarshal seek seeks (codes "a.deny") lines first read_as a-IsHeader remote
      before.0 after.0 before.1 after.1 before.2 after.2 first-Extends grown-Steps synced-Steps
      before.3 after.3 (by_cid (codes "Qx"))
