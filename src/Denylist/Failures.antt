-- ===== src/Denylist/Failures.antt =====
-- When `parseLine` panics, and what it leaves behind when it returns an error.
use nopfs.Prelude.{
  ℕ, ◌≡◌, ◌≢◌, refl, ◌↔◌, inl, inr, false, ◌||◌, List, [], ◌∷◌, some, Bytes, codes, nat_eqb,
  if_cases, Bool-cases, Error, Result, ok, err, arith,
}
use nopfs.Libs.{Libs, Cid, Multihash}
use nopfs.Text.{space_width, trim_suffix, has_prefix, fields}
use nopfs.Text.Fields.{IsBlank, space, fields-nil_iff}
use nopfs.Entry.{Entry, BlockedPath, new_blocked_path, clone}
use nopfs.Denylist.{Denylist}
use nopfs.Denylist.Rules.{
  returned, panics, Case, returns, falls_out, is_ignored, append_entry, both_failed, fall_or_return,
  store_path, path_case, store_ipns,
}
use nopfs.Denylist.Parsing.{
  parse_rule, parse_fields, parse_line, parse_trimmed, add_parsed, double_hash_case, ipfs_case,
  ipfs_rule, store_ipfs, ipns_case, is_safe,
}

append_entry-ne-panics : (c : Case) → append_entry c ≢ panics
append_entry-ne-panics (returns dl e) h = cc
append_entry-ne-panics (falls_out dl e) h = cc

blank_head : (c : ℕ) (s : Bytes) → IsBlank 0 (c ∷ s) → nat_eqb c b'#' ≡ false
blank_head c [] (space e b) = unfold space_width in ground arith
blank_head c (d ∷ []) (space e b) = unfold space_width in ground arith
blank_head c (d ∷ f ∷ s) (space e b) = unfold space_width in ground arith

module _ (L : Libs) where
  parse_fields-panics :
      (dl : Denylist) (line : Bytes) (number : ℕ) (fs : List Bytes)
      → parse_fields L dl line number fs ≡ panics
      → fs ≡ []
  unfolding parse_fields
  parse_fields-panics dl line number [] h = refl
  parse_fields-panics dl line number (f ∷ fs) h = absurd (append_entry-ne-panics _ h)

  panics→IsBlank :
      (dl : Denylist) (t : Bytes) (number : ℕ)
      → parse_trimmed L dl t number ≡ panics
      → (t ≢ []) × IsBlank 0 t
  unfolding parse_trimmed
  panics→IsBlank dl [] number h = absurd (unfold is_ignored in cc h)
  panics→IsBlank dl (c ∷ t) number h = elim (Bool-cases (is_ignored (c ∷ t))) [
    | inl ignored ↦ absurd (ground arith)
    | inr read ↦
        ((cc), (fields-nil_iff (c ∷ t)).0 (parse_fields-panics dl (c ∷ t) number _ (rw read at h)))
  ]

  IsBlank→panics :
      (dl : Denylist) (t : Bytes) (number : ℕ)
      → t ≢ []
      → IsBlank 0 t
      → parse_trimmed L dl t number ≡ panics
  unfolding parse_trimmed is_ignored parse_fields
  IsBlank→panics dl [] number n b = absurd (n refl)
  IsBlank→panics dl (c ∷ t) number n b = rw (blank_head c t b, (fields-nil_iff (c ∷ t)).1 b)

  -- `parseLine` panics exactly on the lines that, without their newline, are not empty and are white
  -- space alone.
  pub parse_line-panics_iff :
      (dl : Denylist) (line : Bytes) (number : ℕ)
      → (parse_line L dl line number ≡ panics)
        ↔ ((trim_suffix line (codes "\n") ≢ []) × IsBlank 0 (trim_suffix line (codes "\n")))
  unfolding parse_line
  parse_line-panics_iff dl line number =
      (panics→IsBlank dl _ number, λ h. IsBlank→panics dl _ number h.0 h.1)

  -- A case that returns leaves the denylist as it was.
  abbrev Untouched : Denylist → Case → Type 0
  Untouched dl (returns dl' e) = dl' ≡ dl
  Untouched dl (falls_out dl' e) = Unit {0}

  double_hash-Untouched :
      (dl : Denylist) (e : Entry) (number : ℕ) (parsed1 parsed2 : Result (ℕ × Multihash))
      → Untouched dl (
          fall_or_return
            (add_parsed L (add_parsed L dl (clone e) parsed1) e parsed2)
            e
            (both_failed parsed1 parsed2 dl.filename number))
  double_hash-Untouched dl e number (ok a) (ok b) = tt
  double_hash-Untouched dl e number (ok a) (err b) = tt
  double_hash-Untouched dl e number (err a) (ok b) = tt
  double_hash-Untouched dl e number (err a) (err b) = refl

  store_ipfs-Untouched :
      (dl : Denylist) (e : Entry) (path : Result BlockedPath)
      → Untouched dl (store_ipfs L dl e path)
  store_ipfs-Untouched dl e (ok path) = tt
  store_ipfs-Untouched dl e (err x) = refl

  ipfs_rule-Untouched :
      (dl : Denylist) (e : Entry) (cid_str sub : Bytes) (number : ℕ) (c : Result Cid)
      → Untouched dl (ipfs_rule L dl e cid_str sub number c)
  ipfs_rule-Untouched dl e cid_str sub number (err x) = refl
  ipfs_rule-Untouched dl e cid_str sub number (ok c) = elim (Bool-cases (is_safe L c)) [
    | inl safe ↦ rw safe
    | inr other ↦
        rw other
          (store_ipfs-Untouched dl (record e { multihash = L.hash c }) (new_blocked_path sub))
  ]

  store_ipns-Untouched :
      (dl : Denylist) (e : Entry) (key : Bytes) (path : Result BlockedPath)
      → Untouched dl (store_ipns dl e key path)
  store_ipns-Untouched dl e key (ok path) = tt
  store_ipns-Untouched dl e key (err x) = refl

  store_path-Untouched :
      (dl : Denylist) (e : Entry) (rule : Bytes) (path : Result BlockedPath)
      → Untouched dl (store_path dl e rule path)
  store_path-Untouched dl e rule (ok path) = ground arith
  store_path-Untouched dl e rule (err x) = refl

  parse_rule-Untouched :
      (dl : Denylist) (e : Entry) (rule : Bytes) (number : ℕ)
      → Untouched dl (parse_rule L dl e rule number)
  unfolding parse_rule double_hash_case ipfs_case ipns_case path_case
  parse_rule-Untouched dl e rule number =
      if_cases (Untouched dl) (has_prefix rule (codes "//")) (double_hash-Untouched dl e number _ _)
        (if_cases (Untouched dl)
          (has_prefix rule (codes "/ipfs/") || has_prefix rule (codes "/ipld/"))
          (ipfs_rule-Untouched dl e _ _ number _)
          (if_cases (Untouched dl) (has_prefix rule (codes "/ipns/"))
            (store_ipns-Untouched dl e _ _) (store_path-Untouched dl e rule _)))

  append_entry-Untouched :
      (dl dl' : Denylist) (c : Case) (error : Error)
      → Untouched dl c
      → append_entry c ≡ returned dl' (some error)
      → dl' ≡ dl
  append_entry-Untouched dl dl' (returns d e) error u h = ground arith
  append_entry-Untouched dl dl' (falls_out d e) error u h = absurd (ground arith)

  parse_fields_error :
      (dl dl' : Denylist) (t : Bytes) (number : ℕ) (fs : List Bytes) (error : Error)
      → parse_fields L dl t number fs ≡ returned dl' (some error)
      → dl' ≡ dl
  unfolding parse_fields
  parse_fields_error dl dl' t number [] error h = absurd (ground arith)
  parse_fields_error dl dl' t number (f ∷ fs) error h =
      append_entry-Untouched dl dl' _ error (parse_rule-Untouched dl _ _ number) h

  -- A line that is refused with an error adds nothing: no index and no list of rules changes.
  pub parse_line_error :
      (dl dl' : Denylist) (line : Bytes) (number : ℕ) (error : Error)
      → parse_line L dl line number ≡ returned dl' (some error)
      → dl' ≡ dl
  unfolding parse_line parse_trimmed
  parse_line_error dl dl' line number error h =
      elim (Bool-cases (is_ignored (trim_suffix line (codes "\n")))) [
        | inl ignored ↦ absurd (ground arith)
        | inr read ↦ parse_fields_error dl dl' _ number (fields _) error (rw read at h)
      ]
