-- ===== src/Subscription/Node/Keeping.antt =====
-- What a follower holds it goes on to hold.
use nopfs.Prelude.{
  ℕ, ◌+◌, ◌≡◌, refl, sym, ap, ◌∙◌, subst, List, [], ◌∷◌, ◌++◌, append_assoc, Option, none, Bytes,
  nat_eqb, Error, Bool-cases, inl, inr,
}
use nopfs.Libs.{Libs}
use nopfs.Text.Affixes.{Extends}
use nopfs.Entry.{Entries}
use nopfs.Prelude.GoMap.{GoMap}
use nopfs.Denylist.{Denylist, DenylistHeader, empty_denylist}
use nopfs.Denylist.Following.{Followed, reading, next_number}
use nopfs.Denylist.HeaderEnd.{count}
use nopfs.Denylist.WholeFile.{IsHeader}
use nopfs.Denylist.Tailing.{text_of}
use nopfs.Denylist.Log.{Reader, Rule, pick, line_rules, rules_of_text}
use nopfs.Denylist.Log.Adds.{index, pick-append}
use nopfs.Subscription.Node.{Node, Steps, opened}
use nopfs.Subscription.Node.InOrder.{Steps-text_of, Steps-append}
use nopfs.Subscription.Node.Safety.{header, follower, FollowsRemote, Steps-FollowsRemote}

-- A longer text has more rules, behind the others.
rules_of_text-append :
    (L : Libs) (hints : GoMap Bytes Bytes) (line : Bytes) (number : ℕ) (s t : Bytes)
    → (more : List Rule) × (rules_of_text L hints line number (s ++ t)
        ≡ rules_of_text L hints line number s ++ more)
unfolding rules_of_text
rules_of_text-append L hints line number [] t = (rules_of_text L hints line number t, refl)
rules_of_text-append L hints line number (c ∷ s) t = elim (Bool-cases (nat_eqb c b'\n')) [
  | inl newline ↦
      let (more, e) = rules_of_text-append L hints [] (next_number number) s t in
      (
        more,
        rw newline (
            ap (λ rs. line_rules L hints (line ++ c ∷ []) (next_number number) ++ rs) e
            ∙ sym (
                append_assoc (line_rules L hints (line ++ c ∷ []) (next_number number))
                  (rules_of_text L hints [] (next_number number) s) more)),
      )
  | inr other ↦
      let (more, e) = rules_of_text-append L hints (line ++ c ∷ []) number s t in (more, rw other e)
]

module _ (L : Libs) (unmarshal : Bytes → DenylistHeader → DenylistHeader × Option Error)
    (seek : ℕ → Option Error) (seeks : (offset : ℕ) → seek offset ≡ none) (filename : Bytes)
    (lines : List Bytes) (rest : Bytes) (h : DenylistHeader)
    (ish : IsHeader unmarshal (empty_denylist filename) lines h) where
  abbrev head : Bytes
  head = header L unmarshal seek seeks filename lines rest h ish

  abbrev run : Node → Followed
  run = follower L unmarshal seek seeks filename lines rest h ish

  -- While the follower goes on, every rule that it holds stays, and in its place: whatever steps the
  -- node takes, each reader finds the entries that it found before, in the same order, and only
  -- behind them those that came since. The local file began the remote one when it was opened, each partial response begins
  -- what the remote file has from the requested offset on, calls give what stands next in the local
  -- file, and setting the file and watching it go well.
  pub Steps-keeps :
      (remote : Bytes) {s t : Node} (dl dl' : Denylist) (left left' : Bytes) (n n' : ℕ)
      → Extends remote (head ++ rest)
      → Steps head (opened remote (head ++ rest)) s
      → Steps head s t
      → run s ≡ reading dl left n
      → run t ≡ reading dl' left' n'
      → (r : Reader) → (more : Entries) × (index r dl' ≡ index r dl ++ more)
  Steps-keeps remote {s} {t} dl dl' left left' n n' x before after now later r =
      let at_s =
        subst (FollowsRemote L unmarshal seek seeks filename lines rest h ish s) now
          (Steps-FollowsRemote L unmarshal seek seeks filename lines rest h ish remote x before) in
      let at_t = subst (FollowsRemote L unmarshal seek seeks filename lines rest h ish t) later (
        Steps-FollowsRemote L unmarshal seek seeks filename lines rest h ish remote x
          (Steps-append before after)) in
      let (u, longer) = Steps-text_of after in
      let (more, e) = rules_of_text-append L h.hints [] (count lines + 1) (text_of s.calls) u in
      (
        pick r more,
        at_t.3 r
            ∙ ap (λ (text : Bytes). pick r (rules_of_text L h.hints [] (count lines + 1) text))
                longer
            ∙ ap (pick r) e
            ∙ pick-append r (rules_of_text L h.hints [] (count lines + 1) (text_of s.calls)) more
            ∙ ap (λ (es : Entries). es ++ pick r more) (sym (at_s.3 r)),
      )
