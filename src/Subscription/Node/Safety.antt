-- ===== src/Subscription/Node/Safety.antt =====
-- The rules that the follower holds at every moment of a node's life.
use nopfs.Prelude.{
  arith, ℕ, ◌+◌, ◌≡◌, sym, ap, ◌∙◌, subst, true, List, [], ◌++◌, append_assoc, Option, none, Bytes,
  codes, Error,
}
use nopfs.Libs.{Libs}
use nopfs.Text.Affixes.{Extends}
use nopfs.Denylist.{Denylist, DenylistHeader, empty_denylist}
use nopfs.Denylist.Following.{Followed, reading, finished, closed, crashed, follow_lines}
use nopfs.Denylist.Tailing.{text_of, read_text}
use nopfs.Denylist.Stopping.{HasRead, follow_lines-HasRead}
use nopfs.Denylist.HeaderEnd.{concat, count}
use nopfs.Denylist.Reading.{parse_and_follow}
use nopfs.Denylist.WholeFile.{file_of, IsHeader, parse_and_follow-follow_lines}
use nopfs.Denylist.Log.{Rule, rules_of_text}
use nopfs.Denylist.Log.Files.{ReadsOn, ReadsOn-read_text}
use nopfs.Denylist.Log.Readable.{Readable, read_text-rules}
use nopfs.Denylist.Log.Holding.{Holds}
use nopfs.Denylist.Log.Deciding.{index-empty}
use nopfs.Subscription.InStep.{Extends-trans}
use nopfs.Subscription.Node.{Node, Steps, opened}
use nopfs.Subscription.Node.InOrder.{opened-InOrder, Steps-InOrder}

Extends-behind : (p s t : Bytes) → Extends s t → Extends (p ++ s) (p ++ t)
Extends-behind p s t (r, e) = (r, ap (λ (u : Bytes). p ++ u) e ∙ sym (append_assoc p t r))

module _ (L : Libs) (unmarshal : Bytes → DenylistHeader → DenylistHeader × Option Error)
    (seek : ℕ → Option Error) (seeks : (offset : ℕ) → seek offset ≡ none) (filename : Bytes)
    (lines : List Bytes) (rest : Bytes) (h : DenylistHeader)
    (ish : IsHeader unmarshal (empty_denylist filename) lines h) where
  abbrev pub header : Bytes
  header = concat lines ++ codes "---\n"

  -- The run of the follower, on the file as it was when it was opened.
  abbrev pub follower : Node → Followed
  follower s =
      parse_and_follow L unmarshal seek none true (empty_denylist filename)
        (file_of lines rest none) s.calls

  abbrev pub rules_of : Bytes → List Rule
  rules_of text = rules_of_text L h.hints [] (count lines + 1) text

  -- The denylist holds the rules of a text that begins the remote file behind the header.
  abbrev pub FollowsUpTo : Node → Bytes → Denylist → Type 0
  FollowsUpTo s text dl =
      Extends s.remote (header ++ text)
      × (dl.header ≡ h)
      × (dl.filename ≡ filename)
      × Holds dl (rules_of text)

  -- A run that goes on follows up to all that it has read, one that has been closed up to a part of
  -- it, and one that has panicked has met a line of white space in the remote file.
  abbrev pub FollowsRemote : Node → Followed → Type 0
  FollowsRemote s (reading dl left n) = FollowsUpTo s (text_of s.calls) dl
  FollowsRemote s (finished dl) = ⊥
  FollowsRemote s (closed dl error) = (text : Bytes) × FollowsUpTo s text dl
  FollowsRemote s crashed =
      (text : Bytes) × Extends s.remote (header ++ text) × (¬ Readable [] text)

  start : Denylist
  start = record (empty_denylist filename) { header = h }

  holds :
      (text left : Bytes) (dl : Denylist) (n : ℕ)
      → read_text L start [] (count lines + 1) text ≡ reading dl left n
      → (dl.header ≡ h) × (dl.filename ≡ filename) × Holds dl (rules_of text)
  unfolding start
  holds text left dl n e =
      let (adds, head, name) =
        subst (λ (f : Followed). ReadsOn start f (rules_of text)) e
          (ReadsOn-read_text L start [] (count lines + 1) text) in
      (head, name, λ r. adds r ∙ rw (index-empty r filename h))

  HasRead-FollowsRemote :
      (s : Node) (f : Followed)
      → Extends s.remote (header ++ text_of s.calls)
      → HasRead L start [] (count lines + 1) (text_of s.calls) f
      → FollowsRemote s f
  unfolding start
  HasRead-FollowsRemote s (reading dl left n) x e =
      let (head, name, all) = holds (text_of s.calls) left dl n e in (x, head, name, all)
  HasRead-FollowsRemote s (finished dl) x e = e
  HasRead-FollowsRemote s (closed dl error) x (t, part, (left, n, e)) =
      let (head, name, all) = holds t left dl n e in
      (t, (Extends-trans _ _ _ x (Extends-behind header _ t part), head, name, all))
  HasRead-FollowsRemote s crashed x (t, part, e) =
      (t, Extends-trans _ _ _ x (Extends-behind header _ t part), not_readable)
    where
      not_readable : ¬ Readable [] t
      not_readable sound =
          let (dl, left, n, e', _, _, _) = read_text-rules L start [] (count lines + 1) t sound in
          absurd (ground arith)

  -- In whatever order the remote file is appended to, syncs meet what they meet and the follower
  -- reads, from the opening of a local file that begins the remote one: the follower's denylist
  -- holds exactly the rules of a text that begins the remote file behind its header, in the order of
  -- that text, and has the header and the name of the file. While the follower goes on, the text is
  -- all that it has read; when it has been closed, a part of it. The run does not end with nil, and
  -- panics only if the remote file has a line of white space alone. Each partial response begins
  -- what the remote file has from the requested offset on, calls give what stands next in the local
  -- file, and setting the file and watching it go well.
  pub Steps-FollowsRemote :
      (remote : Bytes) {s : Node}
      → Extends remote (header ++ rest)
      → Steps header (opened remote (header ++ rest)) s
      → FollowsRemote s (follower s)
  unfolding start
  Steps-FollowsRemote remote {s} x steps =
      let order = Steps-InOrder (opened-InOrder header remote rest x) steps in
      let run =
        parse_and_follow-follow_lines L unmarshal seek seeks (empty_denylist filename) lines rest
          none h ish s.calls in
      subst (FollowsRemote s) (sym run) (
        HasRead-FollowsRemote s (follow_lines L true start (count lines + 1) s.calls)
          (Extends-trans _ _ _ order.local order.read)
          (follow_lines-HasRead L start (count lines + 1) s.calls order.calls))
