-- ===== src/Denylist/Abstract/Swapping.antt =====
-- Lines whose rules no reader finds together can change places.
use mathlib.Core.Quot
use mathlib.Core.Quot.{Quot, Quot-set}
use nopfs.Prelude.{
  ℕ, ◌≡◌, ◌⊎◌, inl, inr, refl, sym, ap, ◌∙◌, List, [], ◌++◌, append-nil, Option, none, some, Bytes,
  Error, arith,
}
use nopfs.Libs.{Libs}
use nopfs.Entry.{Entries}
use nopfs.Prelude.GoMap.{GoMap}
use nopfs.Denylist.{Denylist, DenylistHeader}
use nopfs.Denylist.Rules.{Outcome, returned, panics}
use nopfs.Denylist.Parsing.{parse_line}
use nopfs.Denylist.Log.{Reader, Rule, pick, line_rules}
use nopfs.Denylist.Log.Adds.{index}
use nopfs.Denylist.Overlap.Answering.{AnswersAs}
use nopfs.Denylist.Abstract.{
  cid_answer, path_answer, SameView, AbstractDenylist, view, Option-view-set, panics_anywhere,
  left_by, read_line,
}

-- No reader finds rules of both lines.
abbrev pub Apart : List Rule → List Rule → Type 0
Apart rs qs = (r : Reader) → (pick r rs ≡ []) ⊎ (pick r qs ≡ [])

-- A line, and another behind it.
abbrev pub and_then :
    Option AbstractDenylist → (AbstractDenylist → Option AbstractDenylist) → Option AbstractDenylist
and_then none next = none
and_then (some d) next = next d

swap : (es rs qs : Entries) → (rs ≡ []) ⊎ (qs ≡ []) → (es ++ rs) ++ qs ≡ (es ++ qs) ++ rs
swap es rs qs (inl e) = rw e (rw (append-nil es, append-nil (es ++ qs)))
swap es rs qs (inr e) = rw e (rw (append-nil es, append-nil (es ++ rs)))

module _ (L : Libs) (line line' : Bytes) (number number' : ℕ)
    (apart : (hints : GoMap Bytes Bytes)
      → Apart (line_rules L hints line number) (line_rules L hints line' number'))
    (dl : Denylist) where
  swapped :
      (a b x y : Denylist) (e e' g g' : Option Error)
      → parse_line L dl line number ≡ returned a e
      → parse_line L dl line' number' ≡ returned b e'
      → parse_line L a line' number' ≡ returned x g
      → parse_line L b line number ≡ returned y g'
      → SameView x y
  swapped a b x y e e' g g' p q u v =
      let (adds, head, name) = left_by L line number dl a e p in
      let (adds', head', name') = left_by L line' number' dl b e' q in
      let (more, head2, name2) = left_by L line' number' a x g u in
      let (more', head2', name2') = left_by L line number b y g' v in
      let hints = dl.header.hints in
      let rs = λ (r : Reader). pick r (line_rules L hints line number) in
      let qs = λ (r : Reader). pick r (line_rules L hints line' number') in
      let at_x : (r : Reader) → index r x ≡ (index r dl ++ rs r) ++ qs r = λ r.
        more r
        ∙ ap (λ (h : DenylistHeader). index r a ++ pick r (line_rules L h.hints line' number')) head
        ∙ ap (λ (es : Entries). es ++ qs r) (adds r) in
      let at_y : (r : Reader) → index r y ≡ (index r dl ++ qs r) ++ rs r = λ r.
        more' r
        ∙ ap (λ (h : DenylistHeader). index r b ++ pick r (line_rules L h.hints line number)) head'
        ∙ ap (λ (es : Entries). es ++ rs r) (adds' r) in
      record {
        same = record {
          rules =
              λ r. at_y r ∙ sym (swap (index r dl) (rs r) (qs r) (apart hints r)) ∙ sym (at_x r);
          names = name2' ∙ name' ∙ sym (name2 ∙ name);
        };
        hints = ap (λ h. h.hints) (head2' ∙ head' ∙ sym (head2 ∙ head));
      }

  past_both :
      (a b : Denylist) (e e' : Option Error) (o o' : Outcome)
      → parse_line L dl line number ≡ returned a e
      → parse_line L dl line' number' ≡ returned b e'
      → parse_line L a line' number' ≡ o
      → parse_line L b line number ≡ o'
      → view o ≡ view o'
  past_both a b e e' (returned x g) (returned y g') p q u v =
      ap some (Quot.sound (swapped a b x y e e' g g' p q u v))
  past_both a b e e' panics o' p q u v =
      absurd (ground (arith, panics_anywhere L line' number' a dl u))
  past_both a b e e' (returned x g) panics p q u v =
      absurd (ground (arith, panics_anywhere L line number b dl v))

  either_order :
      (o o' : Outcome)
      → parse_line L dl line number ≡ o
      → parse_line L dl line' number' ≡ o'
      → and_then (view o) (read_line L line' number') ≡ and_then (view o') (read_line L line number)
  unfolding read_line
  either_order (returned a e) (returned b e') p q = past_both a b e e' _ _ p q refl refl
  either_order panics panics p q = refl
  either_order panics (returned b e') p q = rw (panics_anywhere L line number dl b p) refl
  either_order (returned a e) panics p q = rw (panics_anywhere L line' number' dl a q) refl

-- Lines of a file whose rules no reader finds together, such as rules for different CIDs or for a
-- CID and a name, can change places, each with its number: what they leave of a denylist is the same
-- up to what queries and later lines see of it, and one panics either way or none does.
pub read_line_swap :
    (L : Libs) (line line' : Bytes) (number number' : ℕ)
    → ((hints : GoMap Bytes Bytes)
        → Apart (line_rules L hints line number) (line_rules L hints line' number'))
    → (d : AbstractDenylist)
    → and_then (read_line L line number d) (read_line L line' number')
      ≡ and_then (read_line L line' number' d) (read_line L line number)
unfolding read_line
read_line_swap L line line' number number' apart =
    Quot.ind (λ d. Option-view-set _ _)
      (λ dl. either_order L line line' number number' apart dl _ _ refl refl)

held : AbstractDenylist → Option AbstractDenylist → AbstractDenylist
held d none = d
held d (some d') = d'

-- Two lines whose rules no reader finds together, such as rules for different CIDs or for a CID and a
-- name, can change places in a file, each with its number: read in either order with no panic, they
-- leave denylists that give the same response for every CID and every path, in whatever order the
-- map of double hashes is ranged over.
pub swapped_lines-AnswersAs :
    (L : Libs) (line line' : Bytes) (number number' : ℕ) (dl a b x y : Denylist)
    (e e' g g' : Option Error)
    → ((hints : GoMap Bytes Bytes)
        → Apart (line_rules L hints line number) (line_rules L hints line' number'))
    → parse_line L dl line number ≡ returned a e
    → parse_line L a line' number' ≡ returned x g
    → parse_line L dl line' number' ≡ returned b e'
    → parse_line L b line number ≡ returned y g'
    → AnswersAs L x y
unfolding read_line cid_answer path_answer held
swapped_lines-AnswersAs L line line' number number' dl a b x y e e' g g' apart p u q v order =
    let one : and_then (read_line L line number (Quot.mk dl)) (read_line L line' number')
        ≡ some (Quot.mk x) =
      ap (λ (o : Outcome). and_then (view o) (read_line L line' number')) p ∙ ap view u in
    let other : and_then (read_line L line' number' (Quot.mk dl)) (read_line L line number)
        ≡ some (Quot.mk y) =
      ap (λ (o : Outcome). and_then (view o) (read_line L line number)) q ∙ ap view v in
    let same : ◌≡◌ {A = AbstractDenylist} (Quot.mk x) (Quot.mk y) =
      ap (held (Quot.mk dl))
        (sym one ∙ read_line_swap L line line' number number' apart (Quot.mk dl) ∙ other) in
    (λ c. ap (cid_answer L order c) same, λ p. ap (path_answer L order p) same)
