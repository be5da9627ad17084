-- ===== src/Denylist/LineBound.antt =====
-- How much of a line `followLines` keeps.
use nopfs.Prelude.{ℕ, ◌+◌, ◌-◌, ◌≤◌, ◌≡◌, Bool, List, [], ◌∷◌, Bytes, length}
use nopfs.Libs.{Libs}
use nopfs.Denylist.{Denylist}
use nopfs.Denylist.Following.{at_newline, Read, Followed, reading, max_line_size, follow_lines_from}

-- The buffer of a `bufio.Reader`.
abbrev pub buffer_size : ℕ
buffer_size = 4096

-- What the buffered reader and the limited reader promise of each call: what was in the buffer and
-- what the call takes is the text that it gives and what the buffer holds then, the buffer holds no
-- more than its size, and no more is taken than the limit lets through. `buffered` bytes are in the
-- buffer at first, and the limit is `n`.
abbrev pub IsBuffered : ℕ → ℕ → List Read → Type 0
IsBuffered buffered n [] = Unit {0}
IsBuffered buffered n (r ∷ rs) =
    (left : ℕ) × (buffered + r.taken ≡ length r.text + left)
    × (left ≤ buffer_size)
    × (r.taken ≤ n)
    × IsBuffered left (elim r.end [ at_newline ↦ max_line_size | _ ↦ n - r.taken ]) rs

-- The part of a line that a run keeps.
abbrev pub KeepsAtMost : ℕ → Followed → Type 0
KeepsAtMost bound (reading dl line number) = length line ≤ bound
KeepsAtMost bound _ = Unit {0}

module _ (L : Libs) (follow : Bool) where
  abbrev KeepsLine : List Read → Type 0
  KeepsLine rs =
      (dl : Denylist) (line : Bytes) (number buffered n : ℕ)
      → IsBuffered buffered n rs
      → length line + buffered + n ≤ max_line_size + buffer_size
      → KeepsAtMost (max_line_size + buffer_size) (follow_lines_from L follow dl line number n rs)
