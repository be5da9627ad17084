-- ===== src/Denylist/DoubleHash.antt =====
-- What the queries by double hash answer once a double-hash rule has been read.
use nopfs.Prelude.{
  ℕ, ◌≡◌, ◌≢◌, ◌⊎◌, inl, inr, refl, subst, sym, ap, ◌∙◌, true, List, [], ◌∷◌, ◌++◌, none, some,
  Bytes, codes, nat_eq, arith, Result, ok, err,
}
use native.Mathlib.Decide.{ℕ_discrete}
use nopfs.Prelude.GoMap.{get}
use nopfs.Libs.{Libs, Multihash}
use nopfs.Text.Affixes.{trim_prefix-append, has_prefix-append}
use nopfs.Text.Fields.{IsVisible}
use nopfs.Entry.{Entry, Status, not_found, clone}
use nopfs.Denylist.{Denylist}
use nopfs.Denylist.Rules.{returned, append_entry, both_failed, line_entry, blocks_of}
use nopfs.Denylist.Parsing.{
  parse_line, parse_rule, double_hash_case, add_parsed, parse_multihash, parse_hex_string,
}
use nopfs.Denylist.RuleText.{Mark, mark_text, allows, parse_line-mark}
use nopfs.Denylist.Lookup.{
  or_next, is_hit, Checked, check_double_hash, check_double_hash_with_fn, sum_status,
}
use nopfs.Denylist.SameHashes.{SameHashes, with_fn-SameHashes, check_double_hash-SameHashes}
use nopfs.Denylist.Blocking.{mark_status, is_hit-rule}
use nopfs.Denylist.HashStore.{fn_status, with_fn-blocks_of, both_added}

-- The codes that a range gives.
abbrev pub InOrder : ℕ → List ℕ → Type 0
InOrder code [] = ⊥
InOrder code (c ∷ order) = (c ≡ code) ⊎ InOrder code order

-- A double-hash rule, with its newline.
abbrev pub double_hash_line : Mark → Bytes → Bytes
double_hash_line m text = (mark_text m ++ (codes "//" ++ text)) ++ codes "\n"

entries-SameHashes :
    (dl : Denylist) (e : Entry) → SameHashes dl (record dl { entries = dl.entries ++ e ∷ [] })
entries-SameHashes dl e = record { hashes = λ code k. refl; names = refl }

module _ (L : Libs) where
  not_both_failed :
      (parsed1 parsed2 : Result (ℕ × Multihash)) (code : ℕ) (mh : Multihash) (file : Bytes)
      (number : ℕ)
      → (parsed1 ≡ ok (code, mh)) ⊎ (parsed2 ≡ ok (code, mh))
      → both_failed parsed1 parsed2 file number ≡ none
  not_both_failed parsed1 parsed2 code mh file number h = ground arith

  with_fn-no_error :
      (dl : Denylist) (key : Bytes) (code : ℕ) → (check_double_hash_with_fn L dl key code).2 ≡ none
  with_fn-no_error dl key code =
      ap (λ (x : Checked). x.2) (with_fn-blocks_of L dl key code) ∙ go (L.sum key code)
    where
      go :
          (r : Result Bytes)
          → (sum_status L (blocks_of (get dl.double_hash_blocks_db code)) r).2 ≡ none
      go (ok h) = refl
      go (err x) = refl

  or_next_hit : (x y : Checked) → x.2 ≡ none → is_hit x.0 ≡ true → or_next L x y ≡ x
  or_next_hit (s, e, none) y n h = ground arith
  or_next_hit (s, e, some x) y n h = absurd (ground arith)

  or_next_miss : (x y : Checked) → x.2 ≡ none → x.0 ≡ not_found → or_next L x y ≡ y
  or_next_miss (s, e, none) y n h = ground arith
  or_next_miss (s, e, some x) y n h = absurd (ground arith)

  InOrder-later :
      (c : ℕ) {code : ℕ} (order : List ℕ) → InOrder code (c ∷ order) → c ≢ code → InOrder code order
  InOrder-later c order (inl e) n = absurd (n e)
  InOrder-later c order (inr i) n = i

  -- The loop over the codes finds the one code that knows the key.
  check_double_hash_only :
      (dl : Denylist) (key : Bytes) (code : ℕ) (order : List ℕ) (s : Status)
      → InOrder code order
      → fn_status L dl key code ≡ s
      → is_hit s ≡ true
      → ((other : ℕ) → other ≢ code → fn_status L dl key other ≡ not_found)
      → (check_double_hash L dl order key).0 ≡ s
  unfolding check_double_hash
  check_double_hash_only dl key code [] s i f h silent = absurd i
  check_double_hash_only dl key code (c ∷ order) s i f h silent = elim (ℕ_discrete c code) [
    | yes same ↦
        let here : fn_status L dl key c ≡ s =
          subst (λ (x : ℕ). fn_status L dl key x ≡ s) (sym same) f in
        let hit : is_hit (fn_status L dl key c) ≡ true =
          subst (λ (x : Status). is_hit x ≡ true) (sym here) h in
        ap (λ (x : Checked). x.0)
          (or_next_hit (check_double_hash_with_fn L dl key c) (check_double_hash L dl order key)
            (with_fn-no_error dl key c) hit)
        ∙ here
    | no differs ↦
        ap (λ (x : Checked). x.0) (or_next_miss _ _ (with_fn-no_error dl key c) (silent c differs))
        ∙ check_double_hash_only dl key code order s (InOrder-later c order i differs) f h silent
  ]

  double_hash_line-case :
      (dl : Denylist) (m : Mark) (text : Bytes) (number : ℕ)
      → IsVisible text
      → parse_line L dl (double_hash_line m text) number
        ≡ append_entry (
            double_hash_case L dl
              (line_entry dl (mark_text m ++ (codes "//" ++ text)) number [] (allows m))
              (codes "//" ++ text)
              number)
  double_hash_line-case dl m text number v =
      parse_line-mark L dl m (codes "/" ++ text) number (omega arith, omega arith, v)
      ∙ (unfold parse_rule in rw (has_prefix-append (codes "//") text))

  -- A printable double-hash line, marked or not, is read with no error when one of its two readings,
  -- as a base58 multihash and as the hex text of a sha2-256, succeeds. Then a key whose hash has the
  -- base58 text of that multihash, with a hash function that the range over the index meets, is
  -- blocked, or allowed if the rule has a mark, when no other hash function finds a rule for the key.
  pub double_hash_rule_decides :
      (dl : Denylist) (m : Mark) (text : Bytes) (number code : ℕ) (mh : Multihash)
      → IsVisible text
      → (parse_multihash L text ≡ ok (code, mh)) ⊎ (parse_hex_string L text ≡ ok (code, mh))
      → (dl' : Denylist) × (parse_line L dl (double_hash_line m text) number ≡ returned dl' none)
        × ((order : List ℕ) (key : Bytes) (h : Multihash)
            → InOrder code order
            → L.sum key code ≡ ok h
            → L.b58 h ≡ L.b58 mh
            → ((other : ℕ)
                → other ≢ code
                → (check_double_hash_with_fn L dl' key other).0 ≡ not_found)
            → (check_double_hash L dl' order key).0 ≡ mark_status m)
  double_hash_rule_decides dl m text number code mh v readings =
      let e = line_entry dl (mark_text m ++ (codes "//" ++ text)) number [] (allows m) in
      let dl2 =
        add_parsed L (add_parsed L dl e (parse_multihash L text)) e (parse_hex_string L text) in
      (
        record dl2 { entries = dl2.entries ++ e ∷ [] },
        double_hash_line-case dl m text number v
            ∙ (unfold double_hash_case clone in
                rw (
                  trim_prefix-append (codes "//") text,
                  not_both_failed (parse_multihash L text) (parse_hex_string L text) code mh
                      dl.filename number readings,
                )),
        λ order key h i sums same silent.
            ap (λ (x : Checked). x.0)
              (check_double_hash-SameHashes L (entries-SameHashes dl2 e) order key)
            ∙ check_double_hash_only dl2 key code order (mark_status m) i
                (both_added L dl e code mh h key (parse_multihash L text) (parse_hex_string L text)
                  readings sums same)
                (is_hit-rule e)
                (λ other n.
                  ap (λ (x : Checked). x.0)
                    (sym (with_fn-SameHashes L (entries-SameHashes dl2 e) key other))
                  ∙ silent other n),
      )
