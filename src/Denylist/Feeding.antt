-- ===== src/Denylist/Feeding.antt =====
-- Calls that give a text line by line.
use nopfs.Prelude.{
  ℕ, ◌+◌, ◌-◌, ◌≡◌, refl, ap, ◌∙◌, true, false, List, [], ◌∷◌, ◌++◌, append_assoc, none, Bytes,
  nat_eqb, nat_eqb_iff, length, arith, if◌then◌else◌, Bool-cases, inl, inr,
}
use nopfs.Text.{contains_byte}
use nopfs.Denylist.Following.{Read, ReadEnd, at_newline, at_eof}
use nopfs.Denylist.Tailing.{IsLine, text_of}
use nopfs.Denylist.Calls.{Calls, Unfailing}

-- A call that takes what it gives.
abbrev give : Bytes → ReadEnd → Read
give text end = record { text = text; end = end; taken = length text }

-- One call for each line of the text, and one for what stands behind the last newline; `line` stands
-- before the text.
unfoldable pub calls_of : Bytes → Bytes → List Read
calls_of line [] = give line (at_eof none) ∷ []
calls_of line (c ∷ s) =
    let more = calls_of (line ++ c ∷ []) s in
    let next = give (line ++ c ∷ []) at_newline ∷ calls_of [] s in
    if nat_eqb c b'\n' then next else more

pub text_of-calls_of : (line s : Bytes) → text_of (calls_of line s) ≡ line ++ s
unfolding calls_of
text_of-calls_of line [] = refl
text_of-calls_of line (c ∷ s) = elim (Bool-cases (nat_eqb c b'\n')) [
  | inl newline ↦ rw newline (
      ap (λ (t : Bytes). (line ++ c ∷ []) ++ t) (text_of-calls_of [] s)
      ∙ append_assoc line (c ∷ []) s)
  | inr other ↦ rw other (text_of-calls_of (line ++ c ∷ []) s ∙ append_assoc line (c ∷ []) s)
]

-- No newline.
abbrev Plain : Bytes → Type 0
Plain line = contains_byte line b'\n' ≡ false

Plain-append :
    (line : Bytes) (c : ℕ) → Plain line → nat_eqb c b'\n' ≡ false → Plain (line ++ c ∷ [])
unfolding contains_byte
Plain-append [] c plain other = ground arith
Plain-append (x ∷ line) c plain other = ground (arith, Plain-append line c)

IsLine-append :
    (line : Bytes) (c : ℕ) → Plain line → nat_eqb c b'\n' ≡ true → IsLine (line ++ c ∷ [])
IsLine-append line c plain newline =
    (line, ap (λ (n : ℕ). line ++ n ∷ []) ((nat_eqb_iff c b'\n').0 newline), plain)

pub calls_of-Calls : (line s : Bytes) → Plain line → Calls 0 (calls_of line s)
unfolding calls_of
calls_of-Calls line [] plain = (plain, omega arith, tt)
calls_of-Calls line (c ∷ s) plain = elim (Bool-cases (nat_eqb c b'\n')) [
  | inl newline ↦
      let none_held : 0 + length (line ++ c ∷ []) - length (line ++ c ∷ []) ≡ 0 = omega arith in
      rw newline (
        IsLine-append line c plain newline,
        omega arith,
        rw none_held (calls_of-Calls [] s (unfold contains_byte in refl)),
      )
  | inr other ↦ rw other (calls_of-Calls (line ++ c ∷ []) s (Plain-append line c plain other))
]

pub calls_of-Unfailing : (line s : Bytes) → Unfailing (calls_of line s)
unfolding calls_of
calls_of-Unfailing line [] = (refl, tt)
calls_of-Unfailing line (c ∷ s) = elim (Bool-cases (nat_eqb c b'\n')) [
  | inl newline ↦ rw newline (calls_of-Unfailing [] s)
  | inr other ↦ rw other (calls_of-Unfailing (line ++ c ∷ []) s)
]
