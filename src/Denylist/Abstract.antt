-- ===== src/Denylist/Abstract.antt =====
-- A denylist up to what its readers find: the quotient forgets the order of the entries of different
-- keys, the list of all entries and the header but for its hints.
pub mod Sets
pub mod Swapping
use mathlib.Core.Quot
use mathlib.Core.Quot.{Quot, Quot-set}
use nopfs.Prelude.{
  ℕ, ◌≡◌, refl, sym, ap, ◌∙◌, subst, List, ◌++◌, Option, none, some, Bytes, Error, arith,
}
use nopfs.Libs.{Libs, Cid, IpfsPath}
use nopfs.Entry.{Entries}
use nopfs.Prelude.GoMap.{GoMap}
use nopfs.Status.{StatusResponse}
use nopfs.Denylist.{Denylist}
use nopfs.Denylist.Rules.{Outcome, returned, panics}
use nopfs.Denylist.Parsing.{parse_line}
use nopfs.Denylist.Failures.{parse_line-panics_iff}
use nopfs.Denylist.Lookup.{is_cid_blocked, is_path_blocked}
use nopfs.Denylist.Log.{Reader, pick, line_rules}
use nopfs.Denylist.Log.Adds.{index}
use nopfs.Denylist.Log.Lines.{Reads, Reads-parse_line}
use nopfs.Denylist.Log.Answers.{SameRules, SameRules-answer}
use nopfs.Denylist.Abstract.Sets.{StatusResponse-set}

-- The same rules for every reader, the same name and the same hints.
pub record SameView (dl dl' : Denylist) : Type 0 where
  pub same : SameRules dl dl'
  pub hints : dl'.header.hints ≡ dl.header.hints

abbrev pub AbstractDenylist : Type 0
AbstractDenylist = Quot SameView

-- The queries of an abstract denylist.
unfoldable pub cid_answer : Libs → List ℕ → Cid → AbstractDenylist → StatusResponse
cid_answer L order c =
    Quot.lift StatusResponse-set (λ dl. is_cid_blocked L dl order c)
      (λ dl dl' v. sym ((SameRules-answer L dl dl' v.same order).0 c))

unfoldable pub path_answer : Libs → List ℕ → IpfsPath → AbstractDenylist → StatusResponse
path_answer L order p =
    Quot.lift StatusResponse-set (λ dl. is_path_blocked L dl order p)
      (λ dl dl' v. sym ((SameRules-answer L dl dl' v.same order).1 p))

-- What is left of an outcome: nothing of a panic.
abbrev pub view : Outcome → Option AbstractDenylist
view (returned dl error) = some (Quot.mk dl)
view panics = none

pub Option-view-set : IsSet (Option AbstractDenylist)
Option-view-set = hlevel (Quot-set)

module _ (L : Libs) (line : Bytes) (number : ℕ) where
  -- Whether a line panics does not depend on the denylist.
  pub panics_anywhere :
      (dl dl' : Denylist)
      → parse_line L dl line number ≡ panics
      → parse_line L dl' line number ≡ panics
  panics_anywhere dl dl' h =
      (parse_line-panics_iff L dl' line number).1 ((parse_line-panics_iff L dl line number).0 h)

  pub left_by :
      (dl dl' : Denylist) (error : Option Error)
      → parse_line L dl line number ≡ returned dl' error
      → Reads dl (returned dl' error) (line_rules L dl.header.hints line number)
  left_by dl dl' error parsed =
      subst (λ (o : Outcome). Reads dl o (line_rules L dl.header.hints line number)) parsed
        (Reads-parse_line L dl line number)

  pub view-SameView :
      (dl dl' : Denylist) (o o' : Outcome)
      → SameView dl dl'
      → parse_line L dl line number ≡ o
      → parse_line L dl' line number ≡ o'
      → view o ≡ view o'
  view-SameView dl dl' (returned a e) (returned b e') v p q =
      let (adds, head, name) = left_by dl a e p in
      let (adds', head', name') = left_by dl' b e' q in
      let rules : (r : Reader) → index r b ≡ index r a = λ r.
        adds' r
        ∙ ap (λ (es : Entries). es ++ pick r (line_rules L dl'.header.hints line number))
            (v.same.rules r)
        ∙ ap (λ (hints : GoMap Bytes Bytes). index r dl ++ pick r (line_rules L hints line number))
            v.hints
        ∙ sym (adds r) in
      ap some (
        Quot.sound (record {
          same = record { rules = rules; names = name' ∙ v.same.names ∙ sym name };
          hints = ap (λ h. h.hints) head' ∙ v.hints ∙ sym (ap (λ h. h.hints) head);
        }))
  view-SameView dl dl' panics panics v p q = refl
  view-SameView dl dl' (returned a e) panics v p q =
      absurd (ground (arith, panics_anywhere dl' dl q))
  view-SameView dl dl' panics (returned b e) v p q =
      absurd (ground (arith, panics_anywhere dl dl' p))

  -- `parseLine` on an abstract denylist.
  unfoldable pub read_line : AbstractDenylist → Option AbstractDenylist
  read_line =
      Quot.lift Option-view-set (λ dl. view (parse_line L dl line number))
        (λ dl dl' v. view-SameView dl dl' _ _ v refl refl)
