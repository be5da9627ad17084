-- ===== src/Denylist/Log/Files.antt =====
-- What reading a file does to each reader.
use nopfs.Prelude.{
  ℕ, ◌≡◌, refl, ◌∙◌, List, [], ◌∷◌, ◌++◌, Bytes, nat_eqb, Bool-cases, inl, inr, subst,
}
use nopfs.Libs.{Libs}
use nopfs.Denylist.{Denylist, DenylistHeader}
use nopfs.Denylist.Rules.{Outcome, returned, panics}
use nopfs.Denylist.Parsing.{parse_line}
use nopfs.Denylist.Following.{Followed, reading, finished, closed, crashed, next_number, after_line}
use nopfs.Denylist.Tailing.{read_text, finish}
use nopfs.Denylist.Log.{Rule, rules_of_text, line_rules}
use nopfs.Denylist.Log.Adds.{Adds, Adds-nil, Adds-append}
use nopfs.Denylist.Log.Lines.{Reads, Reads-parse_line}

-- What a run leaves: the rules added behind the others, the header and the name.
abbrev pub ReadsOn : Denylist → Followed → List Rule → Type 0
ReadsOn dl (reading dl' line number) rules =
    Adds dl dl' rules × (dl'.header ≡ dl.header) × (dl'.filename ≡ dl.filename)
ReadsOn dl (finished dl') rules =
    Adds dl dl' rules × (dl'.header ≡ dl.header) × (dl'.filename ≡ dl.filename)
ReadsOn dl (closed dl' error) rules = Unit {0}
ReadsOn dl crashed rules = Unit {0}

-- One run behind another.
ReadsOn-append :
    (dl dl' : Denylist) (f : Followed) (rs qs : List Rule)
    → Adds dl dl' rs × (dl'.header ≡ dl.header) × (dl'.filename ≡ dl.filename)
    → ReadsOn dl' f qs
    → ReadsOn dl f (rs ++ qs)
ReadsOn-append dl dl' (reading dl'' line number) rs qs (h, header, name) (k, header', name') =
    (Adds-append dl dl' dl'' rs qs h k, header' ∙ header, name' ∙ name)
ReadsOn-append dl dl' (finished dl'') rs qs (h, header, name) (k, header', name') =
    (Adds-append dl dl' dl'' rs qs h k, header' ∙ header, name' ∙ name)
ReadsOn-append dl dl' (closed dl'' error) rs qs h k = tt
ReadsOn-append dl dl' crashed rs qs h k = tt

ReadsOn-after_line :
    (dl : Denylist) (o : Outcome) (next : Denylist → Followed) (rs : List Rule)
    (qs : DenylistHeader → List Rule)
    → Reads dl o rs
    → ((dl' : Denylist) → ReadsOn dl' (next dl') (qs dl'.header))
    → ReadsOn dl (after_line o next) (rs ++ qs dl.header)
ReadsOn-after_line dl panics next rs qs h k = tt
ReadsOn-after_line dl (returned dl' error) next rs qs h k =
    ReadsOn-append dl dl' (next dl') rs (qs dl.header) h
      (subst (λ (header : DenylistHeader). ReadsOn dl' (next dl') (qs header)) h.1 (k dl'))

ReadsOn-finish :
    (dl : Denylist) (f : Followed) (rules : List Rule)
    → ReadsOn dl f rules
    → ReadsOn dl (finish f) rules
ReadsOn-finish dl (reading dl' line number) rules h = h
ReadsOn-finish dl (finished dl') rules h = h
ReadsOn-finish dl (closed dl' error) rules h = tt
ReadsOn-finish dl crashed rules h = tt

module _ (L : Libs) where
  -- Reading a text adds its rules to the log, line by line, for every reader behind those that it
  -- found before, and leaves the header and the file name, if no line panics.
  pub ReadsOn-read_text :
      (dl : Denylist) (line : Bytes) (number : ℕ) (text : Bytes)
      → ReadsOn dl
          (read_text L dl line number text)
          (rules_of_text L dl.header.hints line number text)
  unfolding read_text rules_of_text
  ReadsOn-read_text dl line number [] = (Adds-nil dl, refl, refl)
  ReadsOn-read_text dl line number (c ∷ s) = elim (Bool-cases (nat_eqb c b'\n')) [
    | inl newline ↦ rw newline (
        ReadsOn-after_line dl (parse_line L dl (line ++ c ∷ []) (next_number number))
          (λ dl'. read_text L dl' [] (next_number number) s)
          (line_rules L dl.header.hints (line ++ c ∷ []) (next_number number))
          (λ (h : DenylistHeader). rules_of_text L h.hints [] (next_number number) s)
          (Reads-parse_line L dl (line ++ c ∷ []) (next_number number))
          (λ dl'. ReadsOn-read_text dl' [] (next_number number) s))
    | inr other ↦ rw other (ReadsOn-read_text dl (line ++ c ∷ []) number s)
  ]
