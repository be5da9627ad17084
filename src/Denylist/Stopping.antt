-- ===== src/Denylist/Stopping.antt =====
-- What a followed file's run has read when it ends, however it ends.
use nopfs.Prelude.{
  ℕ, ◌-◌, ◌≡◌, refl, sym, ap, ◌∙◌, true, List, [], ◌∷◌, ◌++◌, append-nil, append_assoc, Option,
  none, some, Bytes, nat_eqb, Error, if_cases,
}
use nopfs.Libs.{Libs}
use nopfs.Text.Affixes.{Extends}
use nopfs.Denylist.{Denylist}
use nopfs.Denylist.Rules.{Outcome, returned, panics}
use nopfs.Denylist.Parsing.{parse_line}
use nopfs.Denylist.Following.{
  ReadEnd, at_newline, at_eof, failed, Read, Followed, reading, finished, closed, crashed,
  max_line_size, next_number, follow_lines_from, follow_lines, after_line, at_end,
}
use nopfs.Denylist.Tailing.{
  text_of, IsLine, read_text, read_text-append, read_text-IsLine, read_text-nil,
}
use nopfs.Denylist.Calls.{Calls}

module _ (L : Libs) where
  -- A part of the text, from its start, is read with this denylist.
  abbrev pub ReadPart : Denylist → Bytes → ℕ → Bytes → Denylist → Type 0
  ReadPart dl line number text dl' =
      (t : Bytes) × Extends text t
      × ((left : Bytes) × (n : ℕ) × (read_text L dl line number t ≡ reading dl' left n))

  -- A run that goes on has read its text. One that has been closed has read a part of it from the
  -- start, and one that has panicked has done so in such a part.
  abbrev pub HasRead : Denylist → Bytes → ℕ → Bytes → Followed → Type 0
  HasRead dl line number text (reading dl' left n) =
      read_text L dl line number text ≡ reading dl' left n
  HasRead dl line number text (finished dl') = ⊥
  HasRead dl line number text (closed dl' error) = ReadPart dl line number text dl'
  HasRead dl line number text crashed =
      (t : Bytes) × Extends text t × (read_text L dl line number t ≡ crashed)

  -- What is read behind a first part.
  HasRead-append :
      (dl dl' : Denylist) (line line' : Bytes) (number number' : ℕ) (first text : Bytes)
      (f : Followed)
      → ((t : Bytes) → read_text L dl line number (first ++ t) ≡ read_text L dl' line' number' t)
      → HasRead dl' line' number' text f
      → HasRead dl line number (first ++ text) f
  HasRead-append dl dl' line line' number number' first text (reading d l n) step h = step text ∙ h
  HasRead-append dl dl' line line' number number' first text (finished d) step h = h
  HasRead-append dl dl' line line' number number' first text (closed d e) step
        (t, (r, x), (l, n, h)) =
      (
        first ++ t,
        (r, ap (λ (u : Bytes). first ++ u) x ∙ sym (append_assoc first t r)),
        (l, n, step t ∙ h),
      )
  HasRead-append dl dl' line line' number number' first text crashed step (t, (r, x), h) =
      (first ++ t, (r, ap (λ (u : Bytes). first ++ u) x ∙ sym (append_assoc first t r)), step t ∙ h)

  ReadPart-nil :
      (dl : Denylist) (line : Bytes) (number : ℕ) (text : Bytes) → ReadPart dl line number text dl
  ReadPart-nil dl line number text =
      ([], (text, refl), (line, number, read_text-nil L dl line number))

  HasRead-line :
      (dl : Denylist) (line : Bytes) (number : ℕ) (text rest : Bytes) (o : Outcome)
      (next : Denylist → Followed)
      → IsLine text
      → parse_line L dl (line ++ text) (next_number number) ≡ o
      → ((dl' : Denylist) → HasRead dl' [] (next_number number) rest (next dl'))
      → HasRead dl line number (text ++ rest) (after_line o next)
  HasRead-line dl line number text rest (returned dl' e) next whole parsed later =
      HasRead-append dl dl' line [] number (next_number number) text rest (next dl')
        (λ t.
          read_text-IsLine L dl line number text t whole
          ∙ ap (λ (o : Outcome). after_line o (λ d. read_text L d [] (next_number number) t))
              parsed)
        (later dl')
  HasRead-line dl line number text rest panics next whole parsed later = (
    text,
    (rest, refl),
    ap (read_text L dl line number) (sym (append-nil text))
        ∙ read_text-IsLine L dl line number text [] whole
        ∙ ap (λ (o : Outcome). after_line o (λ d. read_text L d [] (next_number number) [])) parsed,
  )

  HasRead-waited :
      (dl : Denylist) (line : Bytes) (number : ℕ) (text : Bytes) (n : ℕ) (waited : Option Error)
      (next : Followed)
      → HasRead dl line number text next
      → HasRead dl line number text (at_end true dl number n waited next)
  HasRead-waited dl line number text n none next h =
      if_cases (HasRead dl line number text) (nat_eqb n 0) (ReadPart-nil dl line number text) h
  HasRead-waited dl line number text n (some error) next h =
      if_cases (HasRead dl line number text) (nat_eqb n 0) (ReadPart-nil dl line number text)
        (ReadPart-nil dl line number text)

  abbrev AllRead : List Read → Type 0
  AllRead rs =
      (dl : Denylist) (line : Bytes) (number n held : ℕ)
      → Calls held rs
      → HasRead dl line number (text_of rs) (follow_lines_from L true dl line number n rs)

  AllRead-cons :
      (text : Bytes) (end : ReadEnd) (taken : ℕ) (rs : List Read)
      → AllRead rs
      → AllRead (record { text = text; end = end; taken = taken } ∷ rs)
  unfolding follow_lines_from
  AllRead-cons text at_newline taken rs later dl line number n held (whole, most, calls) =
      HasRead-line dl line number text (text_of rs) _ _ whole refl
        (λ dl'. later dl' [] (next_number number) max_line_size _ calls)
  AllRead-cons text (at_eof waited) taken rs later dl line number n held (plain, all, calls) =
      HasRead-waited dl line number _ (n - taken) waited _ (
        HasRead-append dl dl line (line ++ text) number number text (text_of rs) _
          (λ t. read_text-append L dl line number text t plain)
          (later dl (line ++ text) number (n - taken) 0 calls))
  AllRead-cons text (failed error) taken rs later dl line number n held calls =
      ReadPart-nil dl line number _

  AllRead-follow_lines_from : (rs : List Read) → AllRead rs
  AllRead-follow_lines_from [] dl line number n held calls =
      unfold follow_lines_from in read_text-nil L dl line number
  AllRead-follow_lines_from (r ∷ rs) dl line number n held calls =
      AllRead-cons r.text r.end r.taken rs (AllRead-follow_lines_from rs) dl line number n held
        calls

  -- However a run on a followed file stands, it has read the text of its calls from the start: all
  -- of it if it goes on, a part of it if it has been closed, for the limit, a failed wait or another
  -- error, and a part of it in which a line panics if it has panicked.
  pub follow_lines-HasRead :
      (dl : Denylist) (number : ℕ) (rs : List Read)
      → Calls 0 rs
      → HasRead dl [] number (text_of rs) (follow_lines L true dl number rs)
  unfolding follow_lines
  follow_lines-HasRead dl number rs calls =
      AllRead-follow_lines_from rs dl [] number max_line_size 0 calls
