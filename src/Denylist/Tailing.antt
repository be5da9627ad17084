-- ===== src/Denylist/Tailing.antt =====
-- How the text of a file is read.
use nopfs.Prelude.{
  ℕ, ◌-◌, ◌≡◌, ◌≢◌, refl, sym, ap, ◌∙◌, true, false, List, [], ◌∷◌, ◌++◌, append-nil, append_assoc,
  none, Bytes, codes, nat_eqb, nat_eqb-ne, if◌then◌else◌,
}
use nopfs.Libs.{Libs}
use nopfs.Text.{contains_byte}
use nopfs.Text.Affixes.{contains_byte-cons}
use nopfs.Denylist.{Denylist}
use nopfs.Denylist.Rules.{Outcome, returned, panics}
use nopfs.Denylist.Parsing.{parse_line}
use nopfs.Denylist.Following.{
  ReadEnd, at_newline, at_eof, failed, Read, Followed, reading, finished, closed, crashed,
  max_line_size, next_number, follow_lines_from, follow_lines, after_line,
}

-- The text that the calls give.
abbrev pub text_of : List Read → Bytes
text_of [] = []
text_of (r ∷ rs) = r.text ++ text_of rs

-- A line with its newline.
abbrev pub IsLine : Bytes → Type 0
IsLine text = (s : Bytes) × (text ≡ s ++ codes "\n") × (contains_byte s b'\n' ≡ false)

-- Calls that give lines or parts of lines, where no limit is met and waiting goes well. The number
-- is `limRdr.N` before them.
abbrev pub GoesWell : ℕ → List Read → Type 0
GoesWell n [] = Unit {0}
GoesWell n (r ∷ rs) = elim r.end [
  | at_newline ↦ IsLine r.text × GoesWell max_line_size rs
  | at_eof waited ↦
      (contains_byte r.text b'\n' ≡ false)
      × (n - r.taken ≢ 0)
      × (waited ≡ none)
      × GoesWell (n - r.taken) rs
  | failed error ↦ ⊥
]

pub after_line_cong :
    (o : Outcome) (f g : Denylist → Followed)
    → ((dl : Denylist) → f dl ≡ g dl)
    → after_line o f ≡ after_line o g
after_line_cong (returned dl e) f g h = h dl
after_line_cong panics f g h = refl

-- Calls on a file that is not followed: lines, and behind them the end of the file, with what is
-- left of the text and no limit met.
abbrev pub EndsWell : ℕ → List Read → Type 0
EndsWell n [] = ⊥
EndsWell n (r ∷ rs) = elim r.end [
  | at_newline ↦ IsLine r.text × EndsWell max_line_size rs
  | at_eof waited ↦ (contains_byte r.text b'\n' ≡ false) × (n - r.taken ≢ 0) × (rs ≡ [])
  | failed error ↦ ⊥
]

-- At the end of the file the part of a line that is left is dropped.
abbrev pub finish : Followed → Followed
finish (reading dl line number) = finished dl
finish (finished dl) = finished dl
finish (closed dl error) = closed dl error
finish crashed = crashed

finish-after_line :
    (o : Outcome) (f : Denylist → Followed)
    → finish (after_line o f) ≡ after_line o (λ dl. finish (f dl))
finish-after_line (returned dl e) f = refl
finish-after_line panics f = refl

module _ (L : Libs) where
  -- The text byte by byte: each newline ends a line, which is parsed.
  unfoldable pub read_text : Denylist → Bytes → ℕ → Bytes → Followed
  read_text dl line number [] = reading dl line number
  read_text dl line number (c ∷ s) =
      let more = read_text dl (line ++ c ∷ []) number s in
      let parsed =
        after_line (parse_line L dl (line ++ c ∷ []) (next_number number))
          (λ dl'. read_text dl' [] (next_number number) s) in
      if nat_eqb c b'\n' then parsed else more

  pub read_text-append :
      (dl : Denylist) (line : Bytes) (number : ℕ) (s t : Bytes)
      → contains_byte s b'\n' ≡ false
      → read_text dl line number (s ++ t) ≡ read_text dl (line ++ s) number t
  unfolding read_text
  read_text-append dl line number [] t h = rw append-nil refl
  read_text-append dl line number (c ∷ s) t h =
      let (plain, rest) = contains_byte-cons c s b'\n' h in
      rw plain
        (read_text-append dl (line ++ c ∷ []) number s t rest ∙ rw (append_assoc line (c ∷ []) s))

  read_text-line :
      (dl : Denylist) (line : Bytes) (number : ℕ) (t : Bytes)
      → read_text dl line number (b'\n' ∷ t)
        ≡ after_line
            (parse_line L dl (line ++ codes "\n") (next_number number))
            (λ dl'. read_text dl' [] (next_number number) t)
  unfolding read_text
  read_text-line dl line number t = refl

  -- A line that comes whole.
  pub read_text-IsLine :
      (dl : Denylist) (line : Bytes) (number : ℕ) (text t : Bytes)
      → IsLine text
      → read_text dl line number (text ++ t)
        ≡ after_line
            (parse_line L dl (line ++ text) (next_number number))
            (λ dl'. read_text dl' [] (next_number number) t)
  read_text-IsLine dl line number text t (s, e, plain) =
      rw (e, append_assoc s (codes "\n") t)
        (read_text-append dl line number s (b'\n' ∷ t) plain
          ∙ read_text-line dl (line ++ s) number t
          ∙ rw (append_assoc line s (codes "\n")))

  abbrev ReadsOn : List Read → Type 0
  ReadsOn rs =
      (dl : Denylist) (line : Bytes) (number n : ℕ)
      → GoesWell n rs
      → follow_lines_from L true dl line number n rs ≡ read_text dl line number (text_of rs)

  ReadsOn-cons :
      (text : Bytes) (end : ReadEnd) (taken : ℕ) (rs : List Read)
      → ReadsOn rs
      → ReadsOn (record { text = text; end = end; taken = taken } ∷ rs)
  unfolding follow_lines_from
  ReadsOn-cons text at_newline taken rs later dl line number n (whole, well) =
      after_line_cong _ _ _ (λ dl'. later dl' [] (next_number number) max_line_size well)
      ∙ sym (read_text-IsLine dl line number text (text_of rs) whole)
  ReadsOn-cons text (at_eof waited) taken rs later dl line number n (plain, left, on, well) =
      rw (on, nat_eqb-ne (n - taken) 0 left)
        (later dl (line ++ text) number (n - taken) well
          ∙ sym (read_text-append dl line number text (text_of rs) plain))
  ReadsOn-cons text (failed error) taken rs later dl line number n well = absurd well

  follow_lines_from-ReadsOn : (rs : List Read) → ReadsOn rs
  follow_lines_from-ReadsOn [] dl line number n well = unfold follow_lines_from read_text in refl
  follow_lines_from-ReadsOn (r ∷ rs) dl line number n well =
      ReadsOn-cons r.text r.end r.taken rs (follow_lines_from-ReadsOn rs) dl line number n well

  -- A followed file is read as its text is: whatever the pieces in which the text comes, and however
  -- often the reader waits between them, the denylist, the part of a line that is left and the line
  -- number are those of reading the text at once, each newline ending a line. The limit of a line is
  -- not met, waiting does not fail and no other error comes.
  pub follow_lines-read_text :
      (dl : Denylist) (number : ℕ) (rs : List Read)
      → GoesWell max_line_size rs
      → follow_lines L true dl number rs ≡ read_text dl [] number (text_of rs)
  unfolding follow_lines
  follow_lines-read_text dl number rs well =
      follow_lines_from-ReadsOn rs dl [] number max_line_size well

  pub read_text-nil :
      (dl : Denylist) (line : Bytes) (number : ℕ)
      → read_text dl line number [] ≡ reading dl line number
  unfolding read_text
  read_text-nil dl line number = refl

  abbrev EndsRead : List Read → Type 0
  EndsRead rs =
      (dl : Denylist) (line : Bytes) (number n : ℕ)
      → EndsWell n rs
      → follow_lines_from L false dl line number n rs
        ≡ finish (read_text dl line number (text_of rs))

  EndsRead-cons :
      (text : Bytes) (end : ReadEnd) (taken : ℕ) (rs : List Read)
      → EndsRead rs
      → EndsRead (record { text = text; end = end; taken = taken } ∷ rs)
  unfolding follow_lines_from
  EndsRead-cons text at_newline taken rs later dl line number n (whole, well) =
      after_line_cong _ _ _ (λ dl'. later dl' [] (next_number number) max_line_size well)
      ∙ sym (finish-after_line (parse_line L dl (line ++ text) (next_number number)) _)
      ∙ ap finish (sym (read_text-IsLine dl line number text (text_of rs) whole))
  EndsRead-cons text (at_eof waited) taken rs later dl line number n (plain, left, on) =
      rw (nat_eqb-ne (n - taken) 0 left, on)
        (ap finish (
          sym (
            read_text-append dl line number text [] plain
            ∙ read_text-nil dl (line ++ text) number)))
  EndsRead-cons text (failed error) taken rs later dl line number n well = absurd well

  follow_lines_from-EndsRead : (rs : List Read) → EndsRead rs
  follow_lines_from-EndsRead [] dl line number n well = absurd well
  follow_lines_from-EndsRead (r ∷ rs) dl line number n well =
      EndsRead-cons r.text r.end r.taken rs (follow_lines_from-EndsRead rs) dl line number n well

  -- A file that is not followed is read to its end: the run finishes with the denylist of reading
  -- its text at once, or panics where a line does, and what stands behind the last newline is not
  -- parsed. The limit of a line is not met and no error comes.
  pub follow_lines_once :
      (dl : Denylist) (number : ℕ) (rs : List Read)
      → EndsWell max_line_size rs
      → follow_lines L false dl number rs ≡ finish (read_text dl [] number (text_of rs))
  unfolding follow_lines
  follow_lines_once dl number rs well =
      follow_lines_from-EndsRead rs dl [] number max_line_size well
