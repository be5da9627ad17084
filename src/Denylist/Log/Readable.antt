-- ===== src/Denylist/Log/Readable.antt =====
-- Texts that are read with no panic.
use nopfs.Prelude.{
  ℕ, ◌≡◌, ◌≢◌, refl, sym, Bool, true, false, [], ◌∷◌, ◌++◌, append_assoc, arith, Bytes, codes,
  nat_eqb, Bool-cases, inl, inr, if◌then◌else◌, subst,
}
use nopfs.Libs.{Libs}
use nopfs.Text.{trim_suffix, contains_byte, space_width}
use nopfs.Text.Affixes.{contains_byte-cons}
use nopfs.Text.Fields.{IsBlank}
use nopfs.Denylist.{Denylist}
use nopfs.Denylist.Rules.{Outcome, returned, panics}
use nopfs.Denylist.Parsing.{parse_line}
use nopfs.Denylist.Failures.{parse_line-panics_iff}
use nopfs.Denylist.Following.{Followed, reading, next_number, after_line}
use nopfs.Denylist.Tailing.{read_text}
use nopfs.Denylist.Log.{rules_of_text}
use nopfs.Denylist.Log.Adds.{Adds}
use nopfs.Denylist.Log.Files.{ReadsOn, ReadsOn-read_text}

-- The line, without its newline, is empty or has a character that is not white space.
abbrev pub IsSound : Bytes → Type 0
IsSound line = ¬ ((trim_suffix line (codes "\n") ≢ []) × IsBlank 0 (trim_suffix line (codes "\n")))

-- Every line of the text is sound, where `line` is what stands before the text.
abbrev pub Readable : Bytes → Bytes → Type 0
Readable line [] = Unit {0}
Readable line (c ∷ s) =
    (nat_eqb c b'\n' ≡ true → IsSound (line ++ c ∷ []))
    × Readable (if nat_eqb c b'\n' then [] else line ++ c ∷ []) s

-- A line that begins with a character is sound.
pub IsSound-start :
    (line : Bytes) (c : ℕ) (s : Bytes)
    → trim_suffix line (codes "\n") ≡ c ∷ s
    → space_width (c ∷ s) ≡ 0
    → IsSound line
IsSound-start line c s e w (n, b) = no_blank (subst (IsBlank 0) e b)
  where
    no_blank : ¬ IsBlank 0 (c ∷ s)
    no_blank (IsBlank.space v h) = ground arith

-- One line before others.
pub Readable-line :
    (line w s : Bytes)
    → contains_byte w b'\n' ≡ false
    → IsSound (line ++ (w ++ codes "\n"))
    → Readable [] s
    → Readable line (w ++ b'\n' ∷ s)
Readable-line line [] s plain sound later = ((λ e. sound), later)
Readable-line line (c ∷ w) s plain sound later =
    let (other, rest) = contains_byte-cons c w b'\n' plain in
    rw other (
      (λ e. absurd (ground arith)),
      Readable-line (line ++ c ∷ []) w s rest
          (subst IsSound (sym (append_assoc line (c ∷ []) (w ++ codes "\n"))) sound) later,
    )

pub Readable-prefix : (line s t : Bytes) → Readable line (s ++ t) → Readable line s
Readable-prefix line [] t h = tt
Readable-prefix line (c ∷ s) t h =
    (h.0, Readable-prefix (if nat_eqb c b'\n' then [] else line ++ c ∷ []) s t h.1)

-- The run waits for more.
abbrev Reading : Followed → Type 0
Reading f = (dl' : Denylist) × (left : Bytes) × (n : ℕ) × (f ≡ reading dl' left n)

Reading-after_line :
    (o : Outcome) (next : Denylist → Followed)
    → o ≢ panics
    → ((dl : Denylist) → Reading (next dl))
    → Reading (after_line o next)
Reading-after_line panics next h k = absurd (h refl)
Reading-after_line (returned dl e) next h k = k dl

module _ (L : Libs) where
  Reading-read_text :
      (dl : Denylist) (line : Bytes) (number : ℕ) (text : Bytes)
      → Readable line text
      → Reading (read_text L dl line number text)
  unfolding read_text
  Reading-read_text dl line number [] h = (dl, line, number, refl)
  Reading-read_text dl line number (c ∷ s) (sound, later) = elim (Bool-cases (nat_eqb c b'\n')) [
    | inl newline ↦ rw newline (
        Reading-after_line (parse_line L dl (line ++ c ∷ []) (next_number number))
          (λ dl'. read_text L dl' [] (next_number number) s)
          (λ p.
            sound newline ((parse_line-panics_iff L dl (line ++ c ∷ []) (next_number number)).0 p))
          (λ dl'.
            Reading-read_text dl' [] (next_number number) s
              (subst (λ (b : Bool). Readable (if b then [] else line ++ c ∷ []) s) newline later)))
    | inr other ↦ rw other (
        Reading-read_text dl (line ++ c ∷ []) number s
          (subst (λ (b : Bool). Readable (if b then [] else line ++ c ∷ []) s) other later))
  ]

  -- A text with no blank line is read to its end, and leaves its rules in the log.
  pub read_text-rules :
      (dl : Denylist) (line : Bytes) (number : ℕ) (text : Bytes)
      → Readable line text
      → (dl' : Denylist) × (left : Bytes) × (n : ℕ) × (read_text L dl line number text
          ≡ reading dl' left n)
        × Adds dl dl' (rules_of_text L dl.header.hints line number text)
        × (dl'.header ≡ dl.header)
        × (dl'.filename ≡ dl.filename)
  read_text-rules dl line number text h =
      let (dl', left, n, e) = Reading-read_text dl line number text h in
      let added =
        subst (λ (f : Followed). ReadsOn dl f (rules_of_text L dl.header.hints line number text)) e
          (ReadsOn-read_text L dl line number text) in
      (dl', left, n, e, added.0, added.1, added.2)
