-- ===== src/Denylist/Following.antt =====
-- `followLines`: the lines of a file, read as they come. A run is a list of calls of
-- `r.ReadString('\n')` with what each of them gives; the file and its watcher are not modelled.
use nopfs.Prelude.{
  ℕ, ◌+◌, ◌-◌, ◌*◌, ◌%◌, ◌^◌, Bool, List, [], ◌∷◌, ◌++◌, Option, none, some, Bytes, nat_eqb,
  if◌then◌else◌, Error, line_too_long,
}
use nopfs.Libs.{Libs}
use nopfs.Denylist.{Denylist}
use nopfs.Denylist.Rules.{Outcome, returned, panics}
use nopfs.Denylist.Parsing.{parse_line}

-- How a call ends: behind a newline, at the end of the file, where `waitWrite` may be called and
-- returns what it returns, or with another error.
pub data ReadEnd : Type 0 where
  at_newline : ReadEnd
  at_eof : Option Error → ReadEnd
  failed : Error → ReadEnd

-- One call: the text that it gives, its end, and the bytes that the buffered reader took from the
-- limited one during the call.
pub record Read : Type 0 where
  pub text : Bytes
  pub end : ReadEnd
  pub taken : ℕ

-- What `followLines` has done when the calls are used up: it goes on with part of a line, or it has
-- returned nil, or it has closed the denylist and returned an error, or it has panicked.
pub data Followed : Type 0 where
  reading : Denylist → Bytes → ℕ → Followed
  finished : Denylist → Followed
  closed : Denylist → Error → Followed
  crashed : Followed

abbrev pub max_line_size : ℕ
max_line_size = 2 * 2 ^ 20

-- `lineNumber++` on a `uint64`.
unfoldable pub next_number : ℕ → ℕ
next_number number = (number + 1) % 2 ^ 64

-- The line has been parsed: an error is logged, and the next line is read.
abbrev pub after_line : Outcome → (Denylist → Followed) → Followed
after_line (returned dl error) next = next dl
after_line panics next = crashed

-- The end of the file: the limit, then `waitWrite` or the return.
abbrev pub at_end : Bool → Denylist → ℕ → ℕ → Option Error → Followed → Followed
at_end follow dl number n waited next =
    if nat_eqb n 0
    then closed dl (line_too_long dl.filename (next_number number))
    else if follow
    then elim waited [ none ↦ next | some error ↦ closed dl error ]
    else finished dl

module _ (L : Libs) where
  -- The loop, with the line so far, its number and `limRdr.N`. `follow` says whether there is a
  -- `waitWrite`.
  unfoldable pub follow_lines_from : Bool → Denylist → Bytes → ℕ → ℕ → List Read → Followed
  follow_lines_from follow dl line number n [] = reading dl line number
  follow_lines_from follow dl line number n (r ∷ rs) = elim r.end [
    | at_eof waited ↦
        at_end follow dl number (n - r.taken) waited
          (follow_lines_from follow dl (line ++ r.text) number (n - r.taken) rs)
    | failed error ↦ closed dl error
    | at_newline ↦
        after_line (parse_line L dl (line ++ r.text) (next_number number))
          (λ dl'. follow_lines_from follow dl' [] (next_number number) max_line_size rs)
  ]

  unfoldable pub follow_lines : Bool → Denylist → ℕ → List Read → Followed
  follow_lines follow dl number rs = follow_lines_from follow dl [] number max_line_size rs
