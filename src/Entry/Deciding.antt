-- ===== src/Entry/Deciding.antt =====
-- Which rule of a list decides.
use mathlib.Core.List.{reverse, reverse-append, reverse-reverse}
use nopfs.Prelude.{
  ◌≡◌, refl, subst, ◌∙◌, ◌↔◌, true, false, [], ◌∷◌, ◌++◌, append-nil, append_assoc, Bytes,
  Bool-cases, inl, inr, arith, if◌then◌else◌,
}
use nopfs.Entry.{
  Entry, Entries, Status, not_found, blocked, allowed, matches, scan, check_path_status, zero_entry,
}

-- The status that a rule gives to the paths that it matches.
abbrev pub rule_status : Entry → Status
rule_status e = if e.allow_rule then allowed else blocked

abbrev pub NoMatch : Entries → Bytes → Type 0
NoMatch [] p = Unit {0}
NoMatch (e ∷ es) p = (matches e.path p ≡ false) × NoMatch es p

-- What a list of rules says of a path: the word of the last rule that matches, or nothing.
pub data Verdict (es : Entries) (p : Bytes) (r : Status × Entry) : Type 0 where
  rule :
      (before : Entries) (e : Entry) (after : Entries)
      → es ≡ before ++ e ∷ after
      → matches e.path p ≡ true
      → NoMatch after p
      → r ≡ (rule_status e, e)
      → Verdict es p r
  silent : NoMatch es p → r ≡ (not_found, zero_entry) → Verdict es p r

NoMatch-append : (es fs : Entries) (p : Bytes) → NoMatch es p → NoMatch fs p → NoMatch (es ++ fs) p
NoMatch-append [] fs p h k = k
NoMatch-append (e ∷ es) fs p h k = (h.0, NoMatch-append es fs p h.1 k)

-- A rule appended to the list is asked first.
pub check_path_status-concat :
    (es : Entries) (e : Entry) (p : Bytes)
    → check_path_status (es ++ e ∷ []) p
      ≡ (if matches e.path p then (rule_status e, e) else check_path_status es p)
unfolding check_path_status scan
check_path_status-concat es e p = rw (reverse-append es (e ∷ [])) (ground arith)

pub check_path_status_silent :
    (before after : Entries) (p : Bytes)
    → NoMatch after p
    → check_path_status (before ++ after) p ≡ check_path_status before p
check_path_status_silent before [] p h = rw append-nil
check_path_status_silent before (e ∷ after) p h = rw (← append_assoc before (e ∷ []) after) (
    check_path_status_silent (before ++ e ∷ []) after p h.1
    ∙ rw (check_path_status-concat before e p, h.0))

Verdict-concat :
    (es : Entries) (e : Entry) (p : Bytes) (r : Status × Entry)
    → Verdict es p r
    → matches e.path p ≡ false
    → Verdict (es ++ e ∷ []) p r
Verdict-concat es e p r (rule before f after s m n q) h =
    rule before f (after ++ e ∷ []) (rw s (append_assoc before (f ∷ after) (e ∷ []))) m
      (NoMatch-append after (e ∷ []) p n (h, tt)) q
Verdict-concat es e p r (silent n q) h = silent (NoMatch-append es (e ∷ []) p n (h, tt)) q

Verdict-check_path_status :
    (es : Entries) (p : Bytes) (r : Status × Entry) → Verdict es p r → check_path_status es p ≡ r
Verdict-check_path_status es p r (rule before e after s m n q) =
    rw (s, q, ← append_assoc before (e ∷ []) after)
      (check_path_status_silent (before ++ e ∷ []) after p n
        ∙ rw (check_path_status-concat before e p, m))
Verdict-check_path_status es p r (silent n q) =
    rw q (check_path_status_silent [] es p n ∙ (unfold check_path_status scan in refl))

-- Induction from the last entry.
from_last : (l : Entries) (p : Bytes) → Verdict (reverse l) p (check_path_status (reverse l) p)
from_last [] p = silent tt (unfold check_path_status scan in refl)
from_last (e ∷ l) p =
    rw (reverse-append (e ∷ []) l, check_path_status-concat (reverse l) e p)
      (elim (Bool-cases (matches e.path p)) [
        | inl y ↦ rw y (rule (reverse l) e [] refl y tt refl)
        | inr n ↦ rw n (Verdict-concat (reverse l) e p _ (from_last l p) n)
      ])

check_path_status-Verdict : (es : Entries) (p : Bytes) → Verdict es p (check_path_status es p)
check_path_status-Verdict es p =
    subst (λ (l : Entries). Verdict l p (check_path_status l p)) (reverse-reverse es)
      (from_last (reverse es) p)

-- `CheckPathStatus` returns the word of the last entry that matches the path, an allow rule or a
-- block rule, with that entry, and "not found" with the zero entry exactly when none matches.
pub check_path_status_iff :
    (es : Entries) (p : Bytes) (r : Status × Entry) → (check_path_status es p ≡ r) ↔ Verdict es p r
check_path_status_iff es p r =
    (λ e. subst (Verdict es p) e (check_path_status-Verdict es p), Verdict-check_path_status es p r)
