-- ===== src/Denylist/Overlap/Answering.antt =====
-- What queries answer that overlap with the parsing of a line.
use nopfs.Prelude.{
  ℕ, ◌≡◌, ◌⊎◌, inl, inr, refl, sym, subst, Bool, List, Bytes, Option, Error, Bool-cases,
}
use nopfs.Libs.{Libs, Cid, IpfsPath}
use nopfs.Denylist.{Denylist}
use nopfs.Denylist.Rules.{Outcome, returned}
use nopfs.Denylist.Parsing.{parse_line}
use nopfs.Denylist.Lookup.{is_cid_blocked, is_path_blocked}
use nopfs.Denylist.Log.{line_rules}
use nopfs.Denylist.Log.Lines.{Reads, Reads-parse_line}
use nopfs.Denylist.Log.Answers.{SameRules-answer}
use nopfs.Denylist.Overlap.{Field, torn, torn-new, torn-old}
use nopfs.Denylist.Overlap.OneField.{OneField-line_rules}

-- The denylist answers as the other one, whatever is asked.
abbrev pub AnswersAs : Libs → Denylist → Denylist → Type 0
AnswersAs L dl other =
    (order : List ℕ)
    → ((c : Cid) → is_cid_blocked L dl order c ≡ is_cid_blocked L other order c)
      × ((p : IpfsPath) → is_path_blocked L dl order p ≡ is_path_blocked L other order p)

-- A query that overlaps with the parsing of a line answers as it would have before the line or as it
-- would after it, never something in between: if each field that holds rules is read at one moment,
-- before the line has changed it or after, then either all CIDs and paths get the responses of the
-- denylist before the line, or all get those of the denylist that the line leaves, with or without
-- an error of the line and in whatever order the map of double hashes is ranged over.
pub parse_line-AnswersAs :
    (L : Libs) (dl dl' : Denylist) (line : Bytes) (number : ℕ) (error : Option Error)
    (new : Field → Bool)
    → parse_line L dl line number ≡ returned dl' error
    → AnswersAs L (torn new dl dl') dl ⊎ AnswersAs L (torn new dl dl') dl'
parse_line-AnswersAs L dl dl' line number error new parsed =
    let rules = line_rules L dl.header.hints line number in
    let (adds, header, name) =
      subst (λ (o : Outcome). Reads dl o rules) parsed (Reads-parse_line L dl line number) in
    let (f, one) = OneField-line_rules L dl.header.hints line number in
    elim (Bool-cases (new f)) [
      | inl later ↦ inr (
          SameRules-answer L dl' (torn new dl dl') (record {
            rules = torn-new new dl dl' rules f adds one later;
            names = unfold torn in sym name;
          }))
      | inr before ↦ inl (
          SameRules-answer L dl (torn new dl dl') (record {
            rules = torn-old new dl dl' rules f adds one before;
            names = unfold torn in refl;
          }))
    ]
