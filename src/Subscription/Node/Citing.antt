-- ===== src/Subscription/Node/Citing.antt =====
-- What a follower answers comes from the rules of the remote file.
use nopfs.Prelude.{ℕ, ◌≡◌, subst, ◌++◌, List, Option, none, Bytes, Error}
use nopfs.Libs.{Libs}
use nopfs.Text.Affixes.{Extends}
use nopfs.Denylist.{Denylist, DenylistHeader, empty_denylist}
use nopfs.Denylist.Following.{Followed, reading}
use nopfs.Denylist.Tailing.{text_of}
use nopfs.Denylist.WholeFile.{IsHeader}
use nopfs.Denylist.Citing.Files.{CitesRules, Holds-CitesRules}
use nopfs.Subscription.Node.{Node, Steps, opened}
use nopfs.Subscription.Node.Safety.{header, follower, FollowsRemote, rules_of, Steps-FollowsRemote}

module _ (L : Libs) (unmarshal : Bytes → DenylistHeader → DenylistHeader × Option Error)
    (seek : ℕ → Option Error) (seeks : (offset : ℕ) → seek offset ≡ none) (filename : Bytes)
    (lines : List Bytes) (rest : Bytes) (h : DenylistHeader)
    (ish : IsHeader unmarshal (empty_denylist filename) lines h) where
  abbrev head : Bytes
  head = header L unmarshal seek seeks filename lines rest h ish

  abbrev run : Node → Followed
  run = follower L unmarshal seek seeks filename lines rest h ish

  -- Nothing is said without a rule of the remote file: at every moment, in whatever order the remote
  -- file grows, syncs meet what they meet and the follower reads, the text that the follower has
  -- read begins the remote file behind its header, and what its denylist says of any CID and any
  -- path comes from the rules of that text, whatever the order in which the maps are ranged over. A
  -- word "blocked" or "allowed" comes with no error and with the last rule that matches among those
  -- for a key that the query asks; an error comes with no rule, and "not found" with neither. The
  -- follower goes on, the local file began the remote one when it was opened, each partial response
  -- begins what the remote file has from the requested offset on, calls give what stands next in the
  -- local file, and setting the file and watching it go well.
  pub Steps-CitesRules :
      (remote : Bytes) {s : Node} (dl : Denylist) (left : Bytes) (n : ℕ)
      → Extends remote (head ++ rest)
      → Steps head (opened remote (head ++ rest)) s
      → run s ≡ reading dl left n
      → Extends s.remote (head ++ text_of s.calls)
        × CitesRules L dl
            (rules_of L unmarshal seek seeks filename lines rest h ish (text_of s.calls))
  Steps-CitesRules remote {s} dl left n x steps now =
      let follows =
        subst (FollowsRemote L unmarshal seek seeks filename lines rest h ish s) now
          (Steps-FollowsRemote L unmarshal seek seeks filename lines rest h ish remote x steps) in
      (follows.0, Holds-CitesRules L dl _ follows.3)
