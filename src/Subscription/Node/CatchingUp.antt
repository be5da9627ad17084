-- ===== src/Subscription/Node/CatchingUp.antt =====
-- A follower that waits can catch up with the remote file.
use nopfs.Prelude.{
  ℕ, ◌≡◌, refl, sym, ap, ◌∙◌, subst, List, [], ◌∷◌, ◌++◌, append-nil, append_assoc, Option, none,
  some, Bytes, Error,
}
use nopfs.Libs.{Libs}
use nopfs.Text.{contains_byte}
use nopfs.Text.Affixes.{Extends}
use nopfs.Denylist.{DenylistHeader, empty_denylist}
use nopfs.Denylist.Following.{Read, Followed}
use nopfs.Denylist.Tailing.{text_of}
use nopfs.Denylist.Calls.{
  Calls, Unfailing, Short, held_after, Calls-append, Calls-prefix, Unfailing-append,
}
use nopfs.Denylist.Feeding.{calls_of, text_of-calls_of, calls_of-Calls, calls_of-Unfailing}
use nopfs.Denylist.WholeFile.{IsHeader}
use nopfs.Denylist.Log.Readable.{Readable}
use nopfs.Subscription.{Sync, content, download_and_append}
use nopfs.Subscription.InStep.{Serves, Extends-trans, download_and_append-remote}
use nopfs.Subscription.Followers.{GoesThrough}
use nopfs.Subscription.Node.{Node, Step, fire, read_string, Steps, here, next, opened}
use nopfs.Subscription.Node.InOrder.{opened-InOrder, Steps-InOrder, Steps-append, text_of-append}
use nopfs.Subscription.Node.Going.{behind_same, GoesOn, Steps-GoesOn}
use nopfs.Subscription.Node.Safety.{header, follower}

module _ {header : Bytes} where
  -- Calls that give what stands next in the local file, one after the other.
  calls-Steps :
      (s : Node) (qs : List Read)
      → Calls 0 (s.calls ++ qs)
      → Extends (content s.file) (header ++ text_of (s.calls ++ qs))
      → Steps header s (record s { calls = s.calls ++ qs })
  calls-Steps s [] calls x =
      subst (λ (rs : List Read). Steps header s (record s { calls = rs }))
        (sym (append-nil s.calls)) here
  calls-Steps s (q ∷ qs) calls x =
      let rs = s.calls ++ q ∷ [] in
      let same : rs ++ qs ≡ s.calls ++ q ∷ qs = append_assoc s.calls (q ∷ []) qs in
      let calls' = subst (Calls 0) (sym same) calls in
      let x' =
        subst (λ (ts : List Read). Extends (content s.file) (header ++ text_of ts)) (sym same) x in
      let first : Step header s (record s { calls = rs }) =
        read_string q (Calls-prefix rs 0 qs calls') (
          Extends-trans _ _ _ x' (
            text_of qs,
            ap (λ (t : Bytes). header ++ t) (text_of-append rs qs)
                ∙ sym (append_assoc header (text_of rs) (text_of qs)),
          )) in
      subst (λ (ts : List Read). Steps header s (record s { calls = ts })) same
        (Steps-append (next here first) (calls-Steps (record s { calls = rs }) qs calls' x'))

module _ (L : Libs) (unmarshal : Bytes → DenylistHeader → DenylistHeader × Option Error)
    (seek : ℕ → Option Error) (seeks : (offset : ℕ) → seek offset ≡ none) (filename : Bytes)
    (lines : List Bytes) (rest : Bytes) (h : DenylistHeader)
    (ish : IsHeader unmarshal (empty_denylist filename) lines h) where
  abbrev head : Bytes
  head = header L unmarshal seek seeks filename lines rest h ish

  abbrev run : Node → Followed
  run = follower L unmarshal seek seeks filename lines rest h ish

  -- A node can always catch up: from whatever state it has reached, if the follower waits with
  -- nothing held back by its buffer and a sync would go through, there are steps after which the
  -- local file is the remote one, which is as it was, and the follower goes on with the rules of the
  -- whole remote file. No call and no wait has failed, and no line of the remote file is white space
  -- alone or reaches the limit; the local file began the remote one when it was opened, each partial
  -- response begins what the remote file has from the requested offset on, calls give what stands
  -- next in the local file, and setting the file and watching it go well.
  pub Steps-catches_up :
      (remote body : Bytes) {s : Node} (sync : Sync)
      → Extends remote (head ++ rest)
      → Steps head (opened remote (head ++ rest)) s
      → Unfailing s.calls
      → held_after 0 s.calls ≡ 0
      → s.remote ≡ head ++ body
      → Readable [] body
      → Short 0 body
      → Serves s.remote sync
      → GoesThrough sync (content s.file) s.remote
      → (t : Node) × Steps head s t
        × (t.file ≡ some t.remote)
        × (t.remote ≡ s.remote)
        × GoesOn L unmarshal seek seeks filename lines rest h ish t body
  Steps-catches_up remote body {s} sync x steps fine empty at_body readable short serves sound =
      let order = Steps-InOrder (opened-InOrder head remote rest x) steps in
      let (r, e) = behind_same head body (text_of s.calls) (
        subst (λ (t : Bytes). Extends t (head ++ text_of s.calls)) at_body
          (Extends-trans _ _ _ order.local order.read)) in
      let file : (download_and_append sync s.file).0 ≡ some s.remote =
        ap (λ (t : Option Bytes × Option Error). t.0)
          (download_and_append-remote s.remote sync s.file order.local sound.opens sound.stats
            sound.answers) in
      let synced : Node = record s { file = (download_and_append sync s.file).0 } in
      let qs = calls_of [] r in
      let read : text_of (s.calls ++ qs) ≡ body =
        text_of-append s.calls qs
        ∙ ap (λ (t : Bytes). text_of s.calls ++ t) (text_of-calls_of [] r)
        ∙ sym e in
      let there =
        calls-Steps synced qs
          (Calls-append s.calls 0 qs order.calls (
            subst (λ (k : ℕ). Calls k qs) (sym empty)
              (calls_of-Calls [] r (unfold contains_byte in refl))))
          (
            [],
            ap content file
                ∙ at_body
                ∙ ap (λ (t : Bytes). head ++ t) (sym read)
                ∙ sym (append-nil (head ++ text_of (s.calls ++ qs))),
          ) in
      let path = Steps-append (next here (fire sync serves)) there in
      let goes =
        Steps-GoesOn L unmarshal seek seeks filename lines rest h ish remote body x
          (Steps-append steps path) (Unfailing-append s.calls qs fine (calls_of-Unfailing [] r))
          at_body readable short in
      (
        record synced { calls = s.calls ++ qs },
        path,
        file,
        refl,
        subst
            (GoesOn L unmarshal seek seeks filename lines rest h ish
              (record synced { calls = s.calls ++ qs }))
            read goes,
      )
