-- ===== src/Denylist/Ending.antt =====
-- Runs on a file that does not grow, which end.
use nopfs.Prelude.{ℕ, ◌+◌, ◌<◌, ◌≡◌, false, List, [], ◌∷◌, Bytes, nat_eqb, length, if◌then◌else◌}
use nopfs.Libs.{Libs}
use nopfs.Text.{contains_byte}
use nopfs.Denylist.{Denylist}
use nopfs.Denylist.Following.{Read, at_newline, at_eof, failed, max_line_size, follow_lines_from}
use nopfs.Denylist.Tailing.{EndsWell, text_of}
use nopfs.Denylist.Calls.{Calls, Short}
use nopfs.Denylist.Log.Adds.{Adds}
use nopfs.Denylist.Log.Readable.{Readable}

-- No newline.
abbrev Plain : Bytes → Type 0
Plain line = contains_byte line b'\n' ≡ false

abbrev pub newlines : Bytes → ℕ
newlines [] = 0
newlines (c ∷ s) = (if nat_eqb c b'\n' then 1 else 0) + newlines s

-- Calls on a file that does not grow: none fails before the end of the file is met, and behind it
-- nothing is given.
abbrev pub IsStill : List Read → Type 0
IsStill [] = Unit {0}
IsStill (r ∷ rs) = elim r.end [
  | at_newline ↦ IsStill rs
  | at_eof waited ↦ text_of rs ≡ []
  | failed error ↦ ⊥
]

-- The calls up to the one that meets the end of the file.
unfoldable upto_end : List Read → List Read
upto_end [] = []
upto_end (r ∷ rs) = elim r.end [
  | at_newline ↦ r ∷ upto_end rs
  | at_eof waited ↦ r ∷ []
  | failed error ↦ r ∷ rs
]

abbrev StopsAtEnd : Libs → List Read → Type 0
StopsAtEnd L rs =
    (dl : Denylist) (line : Bytes) (number n : ℕ)
    → follow_lines_from L false dl line number n rs
      ≡ follow_lines_from L false dl line number n (upto_end rs)

abbrev MeetsEnd : List Read → Type 0
MeetsEnd rs =
    (held : ℕ)
    → Calls held rs
    → IsStill rs
    → Short 0 (text_of rs)
    → newlines (text_of rs) < length rs
    → EndsWell max_line_size (upto_end rs) × (text_of (upto_end rs) ≡ text_of rs)
