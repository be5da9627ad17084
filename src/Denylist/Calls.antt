-- ===== src/Denylist/Calls.antt =====
-- What the calls of `ReadString` on a `bufio.Reader` over a limited one may give.
use nopfs.Prelude.{
  ℕ, suc, ◌+◌, ◌-◌, ◌≤◌, ◌<◌, ◌≡◌, ap, ◌∙◌, Bool, false, List, [], ◌∷◌, ◌++◌, append_assoc, none,
  Bytes, codes, nat_eqb, length, arith, if◌then◌else◌, if_cases, subst,
}
use nopfs.Text.{contains_byte}
use nopfs.Text.Affixes.{contains_byte-cons}
use nopfs.Denylist.Following.{Read, ReadEnd, at_newline, at_eof, failed, max_line_size}
use nopfs.Denylist.Tailing.{IsLine, GoesWell, text_of}

-- The calls of a buffered reader that holds this many bytes: each takes some more, and gives a line
-- and keeps the rest, or ends with no newline and gives all that it holds.
abbrev pub Calls : ℕ → List Read → Type 0
Calls held [] = Unit {0}
Calls held (r ∷ rs) = elim r.end [
  | at_newline ↦
      IsLine r.text × (length r.text ≤ held + r.taken) × Calls (held + r.taken - length r.text) rs
  | at_eof waited ↦
      (contains_byte r.text b'\n' ≡ false) × (length r.text ≡ held + r.taken) × Calls 0 rs
  | failed error ↦
      (contains_byte r.text b'\n' ≡ false) × (length r.text ≡ held + r.taken) × Calls 0 rs
]

-- No call meets an error but the end of the file, and no wait does.
abbrev pub Unfailing : List Read → Type 0
Unfailing [] = Unit {0}
Unfailing (r ∷ rs) = elim r.end [
  | at_newline ↦ Unfailing rs
  | at_eof waited ↦ (waited ≡ none) × Unfailing rs
  | failed error ↦ ⊥
]

-- Each line of the text is shorter than the limit, its newline left out, where `n` bytes of the first
-- one stand before the text.
abbrev pub Short : ℕ → Bytes → Type 0
Short n [] = n < max_line_size
Short n (c ∷ s) = (n < max_line_size) × Short (if nat_eqb c b'\n' then 0 else suc n) s

pub Short-start : (n : ℕ) (s : Bytes) → Short n s → n < max_line_size
Short-start n [] h = h
Short-start n (c ∷ s) h = h.0

pub Short-append :
    (n : ℕ) (s t : Bytes)
    → contains_byte s b'\n' ≡ false
    → Short n (s ++ t)
    → Short (n + length s) t
Short-append n [] t plain h =
    let same : n ≡ n + length {A = ℕ} [] = omega arith in subst (λ (k : ℕ). Short k t) same h
Short-append n (c ∷ s) t plain h =
    let (other, rest) = contains_byte-cons c s b'\n' plain in
    let next : Short (suc n) (s ++ t) =
      subst (λ (b : Bool). Short (if b then 0 else suc n) (s ++ t)) other h.1 in
    let same : suc n + length s ≡ n + length (c ∷ s) = omega arith in
    subst (λ (k : ℕ). Short k t) same (Short-append (suc n) s t rest next)

pub Short-IsLine : (n : ℕ) (text t : Bytes) → IsLine text → Short n (text ++ t) → Short 0 t
Short-IsLine n text t (s, e, plain) h =
    (Short-append n s (codes "\n" ++ t) plain
      (subst (Short n) (ap (λ (u : Bytes). u ++ t) e ∙ append_assoc s (codes "\n") t) h)).1

abbrev AllGoWell : List Read → Type 0
AllGoWell rs =
    (n seen held : ℕ)
    → max_line_size ≤ n + seen + held
    → Calls held rs
    → Unfailing rs
    → Short seen (text_of rs)
    → GoesWell n rs

AllGoWell-cons :
    (text : Bytes) (end : ReadEnd) (taken : ℕ) (rs : List Read)
    → AllGoWell rs
    → AllGoWell (record { text = text; end = end; taken = taken } ∷ rs)
AllGoWell-cons text at_newline taken rs later n seen held room (line, most, calls) fine short =
    (line, later max_line_size 0 _ (omega arith) calls fine (Short-IsLine seen text _ line short))
AllGoWell-cons text (at_eof waited) taken rs later n seen held room (plain, all, calls) (on, fine)
      short =
    let short' = Short-append seen text (text_of rs) plain short in
    let less = Short-start _ _ short' in
    (
      plain,
      (λ z. omega arith),
      on,
      later (n - taken) (seen + length text) 0 (omega arith) calls fine short',
    )
AllGoWell-cons text (failed error) taken rs later n seen held room calls fine short = absurd fine

-- Calls that do not fail go well when no line of their text reaches the limit: what they take for a
-- line is no more than what they give of it, but for what the reader held before.
pub Calls-GoesWell : (rs : List Read) → AllGoWell rs
Calls-GoesWell [] n seen held room calls fine short = tt
Calls-GoesWell (r ∷ rs) n seen held room calls fine short =
    AllGoWell-cons r.text r.end r.taken rs (Calls-GoesWell rs) n seen held room calls fine short

pub Short-prefix : (n : ℕ) (s t : Bytes) → Short n (s ++ t) → Short n s
Short-prefix n [] t h = Short-start n t h
Short-prefix n (c ∷ s) t h = (h.0, Short-prefix (if nat_eqb c b'\n' then 0 else suc n) s t h.1)

-- What the reader holds behind the calls.
abbrev pub held_after : ℕ → List Read → ℕ
held_after held [] = held
held_after held (r ∷ rs) = elim r.end [
  | at_newline ↦ held_after (held + r.taken - length r.text) rs
  | at_eof waited ↦ held_after 0 rs
  | failed error ↦ held_after 0 rs
]

abbrev CallsAppend : List Read → Type 0
CallsAppend rs =
    (held : ℕ) (qs : List Read)
    → Calls held rs
    → Calls (held_after held rs) qs
    → Calls held (rs ++ qs)

CallsAppend-cons :
    (text : Bytes) (end : ReadEnd) (taken : ℕ) (rs : List Read)
    → CallsAppend rs
    → CallsAppend (record { text = text; end = end; taken = taken } ∷ rs)
CallsAppend-cons text at_newline taken rs later held qs (a, b, c) d = (a, b, later _ qs c d)
CallsAppend-cons text (at_eof w) taken rs later held qs (a, b, c) d = (a, b, later 0 qs c d)
CallsAppend-cons text (failed e) taken rs later held qs (a, b, c) d = (a, b, later 0 qs c d)

-- Calls behind others.
pub Calls-append : (rs : List Read) → CallsAppend rs
Calls-append [] held qs c d = d
Calls-append (r ∷ rs) held qs c d =
    CallsAppend-cons r.text r.end r.taken rs (Calls-append rs) held qs c d

abbrev CallsPrefix : List Read → Type 0
CallsPrefix rs = (held : ℕ) (qs : List Read) → Calls held (rs ++ qs) → Calls held rs

CallsPrefix-cons :
    (text : Bytes) (end : ReadEnd) (taken : ℕ) (rs : List Read)
    → CallsPrefix rs
    → CallsPrefix (record { text = text; end = end; taken = taken } ∷ rs)
CallsPrefix-cons text at_newline taken rs later held qs (a, b, c) = (a, b, later _ qs c)
CallsPrefix-cons text (at_eof w) taken rs later held qs (a, b, c) = (a, b, later 0 qs c)
CallsPrefix-cons text (failed e) taken rs later held qs (a, b, c) = (a, b, later 0 qs c)

pub Calls-prefix : (rs : List Read) → CallsPrefix rs
Calls-prefix [] held qs c = tt
Calls-prefix (r ∷ rs) held qs c =
    CallsPrefix-cons r.text r.end r.taken rs (Calls-prefix rs) held qs c

abbrev UnfailingAppend : List Read → Type 0
UnfailingAppend rs = (qs : List Read) → Unfailing rs → Unfailing qs → Unfailing (rs ++ qs)

UnfailingAppend-cons :
    (text : Bytes) (end : ReadEnd) (taken : ℕ) (rs : List Read)
    → UnfailingAppend rs
    → UnfailingAppend (record { text = text; end = end; taken = taken } ∷ rs)
UnfailingAppend-cons text at_newline taken rs later qs a b = later qs a b
UnfailingAppend-cons text (at_eof w) taken rs later qs (on, a) b = (on, later qs a b)
UnfailingAppend-cons text (failed e) taken rs later qs a b = a

pub Unfailing-append : (rs : List Read) → UnfailingAppend rs
Unfailing-append [] qs a b = b
Unfailing-append (r ∷ rs) qs a b =
    UnfailingAppend-cons r.text r.end r.taken rs (Unfailing-append rs) qs a b

-- A text that is short altogether.
pub Short-length : (n : ℕ) (s : Bytes) → n + length s < max_line_size → Short n s
Short-length n [] h = omega arith
Short-length n (c ∷ s) h = (
  omega arith,
  if_cases (λ (k : ℕ). Short k s) (nat_eqb c b'\n') (Short-length 0 s (omega arith))
      (Short-length (suc n) s (omega arith)),
)
