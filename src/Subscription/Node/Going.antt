-- ===== src/Subscription/Node/Going.antt =====
-- A follower goes on as long as its file is sound, and can catch up with the remote file.
use nopfs.Prelude.{
  ℕ, ◌+◌, ◌≡◌, refl, sym, ap, ◌∙◌, subst, List, [], ◌++◌, append_assoc, Option, none, Bytes, length,
  Error, arith,
}
use nopfs.Libs.{Libs}
use nopfs.Text.Affixes.{Extends}
use nopfs.Denylist.{Denylist, DenylistHeader, empty_denylist}
use nopfs.Denylist.Following.{Followed, reading, max_line_size}
use nopfs.Denylist.Tailing.{text_of, follow_lines-read_text}
use nopfs.Denylist.Calls.{Unfailing, Short, Short-prefix, Calls-GoesWell}
use nopfs.Denylist.HeaderEnd.{count, skip, skip-append}
use nopfs.Denylist.WholeFile.{IsHeader, parse_and_follow-follow_lines}
use nopfs.Denylist.Log.Readable.{Readable, Readable-prefix, read_text-rules}
use nopfs.Denylist.Log.Holding.{Holds}
use nopfs.Subscription.InStep.{Extends-trans}
use nopfs.Subscription.Node.{Node, Steps, opened}
use nopfs.Subscription.Node.InOrder.{opened-InOrder, Steps-InOrder}
use nopfs.Subscription.Node.Safety.{header, follower, FollowsRemote, rules_of, Steps-FollowsRemote}

-- What stands behind the same bytes.
pub behind_same : (p s t : Bytes) → Extends (p ++ s) (p ++ t) → Extends s t
behind_same p s t (r, e) = (
  r,
  sym (skip-append p s (length p) refl)
      ∙ ap (skip (length p)) (e ∙ append_assoc p t r)
      ∙ skip-append p (t ++ r) (length p) refl,
)

module _ (L : Libs) (unmarshal : Bytes → DenylistHeader → DenylistHeader × Option Error)
    (seek : ℕ → Option Error) (seeks : (offset : ℕ) → seek offset ≡ none) (filename : Bytes)
    (lines : List Bytes) (rest : Bytes) (h : DenylistHeader)
    (ish : IsHeader unmarshal (empty_denylist filename) lines h) where
  abbrev head : Bytes
  head = header L unmarshal seek seeks filename lines rest h ish

  abbrev run : Node → Followed
  run = follower L unmarshal seek seeks filename lines rest h ish

  -- The follower goes on, with the rules of this text.
  abbrev pub GoesOn : Node → Bytes → Type 0
  GoesOn s text =
      (dl : Denylist) × (left : Bytes) × (n : ℕ) × (run s ≡ reading dl left n)
      × Holds dl (rules_of L unmarshal seek seeks filename lines rest h ish text)

  -- A follower does not stop by itself: whatever the order in which the remote file grows, syncs
  -- meet what they meet and lines or parts of lines are read, the run goes on with the rules of all
  -- that it has read, as long as no call and no wait fails, no line of the remote file is white space alone and
  -- none reaches the limit, however much the buffered reader takes at a time. The local file began
  -- the remote one when it was opened, each partial response begins what the remote file has from
  -- the requested offset on, calls give what stands next in the local file, and setting the file and
  -- watching it go well.
  pub Steps-GoesOn :
      (remote body : Bytes) {s : Node}
      → Extends remote (head ++ rest)
      → Steps head (opened remote (head ++ rest)) s
      → Unfailing s.calls
      → s.remote ≡ head ++ body
      → Readable [] body
      → Short 0 body
      → GoesOn s (text_of s.calls)
  Steps-GoesOn remote body {s} x steps fine at_body readable short =
      let order = Steps-InOrder (opened-InOrder head remote rest x) steps in
      let (r, e) = behind_same head body (text_of s.calls) (
        subst (λ (t : Bytes). Extends t (head ++ text_of s.calls)) at_body
          (Extends-trans _ _ _ order.local order.read)) in
      let sound = Readable-prefix [] (text_of s.calls) r (subst (Readable []) e readable) in
      let fits = Short-prefix 0 (text_of s.calls) r (subst (Short 0) e short) in
      let well = Calls-GoesWell s.calls max_line_size 0 0 (omega arith) order.calls fine fits in
      let start : Denylist = record (empty_denylist filename) { header = h } in
      let (dl, left, n, read, _, _, _) =
        read_text-rules L start [] (count lines + 1) (text_of s.calls) sound in
      let goes : run s ≡ reading dl left n =
        parse_and_follow-follow_lines L unmarshal seek seeks (empty_denylist filename) lines rest
          none h ish s.calls
        ∙ follow_lines-read_text L start (count lines + 1) s.calls well
        ∙ read in
      let follows =
        subst (FollowsRemote L unmarshal seek seeks filename lines rest h ish s) goes
          (Steps-FollowsRemote L unmarshal seek seeks filename lines rest h ish remote x steps) in
      (dl, left, n, goes, follows.3)
