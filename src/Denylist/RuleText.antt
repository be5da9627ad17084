-- ===== src/Denylist/RuleText.antt =====
-- A line that is one rule, written by its parts: a mark, the kind of path, and what follows.
use nopfs.Prelude.{
  ℕ, ◌≡◌, ◌≢◌, refl, Bool, true, false, [], ◌∷◌, ◌++◌, Option, none, some, Bytes, codes, arith,
}
use nopfs.Libs.{Libs}
use nopfs.Text.{has_prefix, trim_prefix, strip_prefix, cut, contains_byte, cut_prefix, fields}
use nopfs.Text.Affixes.{trim_suffix-append}
use nopfs.Text.Fields.{IsVisible, IsVisible-append, fields_visible}
use nopfs.Denylist.{Denylist}
use nopfs.Denylist.Rules.{strip_allow, is_ignored, append_entry, line_entry}
use nopfs.Denylist.Parsing.{parse_rule, parse_fields, parse_trimmed, parse_line}

-- `-`, `+` and `!` mark an allow rule.
pub data Mark : Type 0 where
  block minus plus bang : Mark

abbrev pub mark_text : Mark → Bytes
mark_text block = []
mark_text minus = codes "-"
mark_text plus = codes "+"
mark_text bang = codes "!"

abbrev pub allows : Mark → Bool
allows block = false
allows minus = true
allows plus = true
allows bang = true

-- The subpath of a rule, behind its slash.
abbrev pub tail_text : Option Bytes → Bytes
tail_text none = []
tail_text (some sub) = b'/' ∷ sub

abbrev pub sub_text : Option Bytes → Bytes
sub_text none = []
sub_text (some sub) = sub

pub cut-tail_text :
    (name : Bytes) (sub : Option Bytes)
    → contains_byte name b'/' ≡ false
    → ((cut (name ++ tail_text sub) b'/').0 ≡ name)
      × ((cut (name ++ tail_text sub) b'/').1 ≡ sub_text sub)
unfolding cut contains_byte
cut-tail_text [] none h = (refl, refl)
cut-tail_text [] (some sub) h = (refl, refl)
cut-tail_text (c ∷ name) sub h = ground (arith, cut-tail_text name sub)

strip_allow-mark :
    (m : Mark) (r : Bytes) → strip_allow (mark_text m ++ b'/' ∷ r) ≡ (b'/' ∷ r, allows m)
unfolding strip_allow cut_prefix has_prefix trim_prefix strip_prefix
strip_allow-mark block r = refl
strip_allow-mark minus r = refl
strip_allow-mark plus r = refl
strip_allow-mark bang r = refl

IsVisible-mark : (m : Mark) → IsVisible (mark_text m)
IsVisible-mark block = tt
IsVisible-mark minus = omega arith
IsVisible-mark plus = omega arith
IsVisible-mark bang = omega arith

mark-ne-nil : (m : Mark) (r : Bytes) → mark_text m ++ b'/' ∷ r ≢ []
mark-ne-nil block r e = cc
mark-ne-nil minus r e = cc
mark-ne-nil plus r e = cc
mark-ne-nil bang r e = cc

module _ (L : Libs) where
  parse_trimmed-mark :
      (dl : Denylist) (m : Mark) (r : Bytes) (number : ℕ)
      → fields (mark_text m ++ b'/' ∷ r) ≡ (mark_text m ++ b'/' ∷ r) ∷ []
      → parse_trimmed L dl (mark_text m ++ b'/' ∷ r) number
        ≡ append_entry (
            parse_rule L dl
              (line_entry dl (mark_text m ++ b'/' ∷ r) number [] (allows m))
              (b'/' ∷ r)
              number)
  unfolding parse_trimmed parse_fields is_ignored
  parse_trimmed-mark dl block r number h = rw h (rw (strip_allow-mark block r))
  parse_trimmed-mark dl minus r number h = rw h (rw (strip_allow-mark minus r))
  parse_trimmed-mark dl plus r number h = rw h (rw (strip_allow-mark plus r))
  parse_trimmed-mark dl bang r number h = rw h (rw (strip_allow-mark bang r))

  -- A line of one word, a mark and a rule that begins with a slash, goes to the switch whole.
  pub parse_line-mark :
      (dl : Denylist) (m : Mark) (r : Bytes) (number : ℕ)
      → IsVisible r
      → parse_line L dl ((mark_text m ++ b'/' ∷ r) ++ codes "\n") number
        ≡ append_entry (
            parse_rule L dl
              (line_entry dl (mark_text m ++ b'/' ∷ r) number [] (allows m))
              (b'/' ∷ r)
              number)
  unfolding parse_line
  parse_line-mark dl m r number v = rw (trim_suffix-append (mark_text m ++ b'/' ∷ r) (codes "\n")) (
      parse_trimmed-mark dl m r number (
        fields_visible _ (mark-ne-nil m r) (
          IsVisible-append (mark_text m) (b'/' ∷ r) (IsVisible-mark m)
            (omega arith, omega arith, v))))
