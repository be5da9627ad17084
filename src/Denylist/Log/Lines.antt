-- ===== src/Denylist/Log/Lines.antt =====
-- What reading a line does to each reader.
use nopfs.Prelude.{
  ℕ, ◌≡◌, refl, ap, ◌∙◌, Bool, true, false, ◌||◌, List, [], ◌∷◌, ◌++◌, Option, none, some, Bytes,
  codes, nat_eq, if◌then◌else◌, Result, ok, err, Error,
}
use nopfs.Libs.{Libs, Cid, Multihash}
use nopfs.Text.{has_prefix, trim_prefix, trim_suffix}
use nopfs.Entry.{Entry, BlockedPath, new_blocked_path, clone}
use nopfs.Denylist.{Denylist}
use nopfs.Denylist.Rules.{
  Outcome, returned, panics, Case, returns, falls_out, both_failed, fall_or_return, append_entry,
  store_ipns, store_path, path_case, is_ignored,
}
use nopfs.Denylist.Parsing.{
  add_rule, add_parsed, parse_multihash, parse_hex_string, double_hash_case, is_safe, store_ipfs,
  ipfs_rule, ipfs_case, ipns_case, parse_rule, parse_fields, parse_trimmed, parse_line,
}
use nopfs.Denylist.Log.{
  Rule, of_cid, of_name, with_path, path_or_paths, hash_rules, cid_rules, text_rule, words_rules,
  line_rules,
}
use nopfs.Denylist.Log.Adds.{
  index, Adds, Adds-nil, Adds-append, Adds-of_cid, Adds-of_name, Adds-of_path, Adds-of_paths,
  Adds-add_rule, index-entries,
}

-- The denylist that a case of the switch leaves.
abbrev case_denylist : Case → Denylist
case_denylist (returns dl error) = dl
case_denylist (falls_out dl e) = dl

case_denylist-fall_or_return :
    (dl : Denylist) (e : Entry) (o : Option Error) → case_denylist (fall_or_return dl e o) ≡ dl
case_denylist-fall_or_return dl e none = refl
case_denylist-fall_or_return dl e (some error) = refl

if_both {ℓ κ ι} :
    {A : Type ℓ} {B : Type κ} (P : A → B → Type ι) (b : Bool) {x x' : A} {y y' : B}
    → P x y
    → P x' y'
    → P (if b then x else x') (if b then y else y')
if_both P true h h' = h
if_both P false h h' = h'

-- A case adds these rules and leaves the header and the name.
record CaseAdds (dl : Denylist) (c : Case) (rules : List Rule) : Type 0 where
  adds : Adds dl (case_denylist c) rules
  same_header : (case_denylist c).header ≡ dl.header
  same_name : (case_denylist c).filename ≡ dl.filename

-- What reading a line leaves: the rules added behind the others, the header and the name.
abbrev pub Reads : Denylist → Outcome → List Rule → Type 0
Reads dl panics rules = Unit {0}
Reads dl (returned dl' error) rules =
    Adds dl dl' rules × (dl'.header ≡ dl.header) × (dl'.filename ≡ dl.filename)

module _ (L : Libs) where
  Adds-add_parsed :
      (dl : Denylist) (e : Entry) (parsed : Result (ℕ × Multihash))
      → Adds dl (add_parsed L dl e parsed) (hash_rules L e parsed)
  Adds-add_parsed dl e (err x) = Adds-nil dl
  Adds-add_parsed dl e (ok (c, mh)) = Adds-add_rule L dl e c mh

  add_parsed_same :
      (dl : Denylist) (e : Entry) (parsed : Result (ℕ × Multihash))
      → ((add_parsed L dl e parsed).header ≡ dl.header)
        × ((add_parsed L dl e parsed).filename ≡ dl.filename)
  unfolding add_rule
  add_parsed_same dl e (err x) = (refl, refl)
  add_parsed_same dl e (ok (c, mh)) = (refl, refl)

  CaseAdds-double_hash_case :
      (dl : Denylist) (e : Entry) (text : Bytes) (number : ℕ)
      → CaseAdds dl (double_hash_case L dl e text number) (
          hash_rules L e (parse_multihash L (trim_prefix text (codes "//")))
          ++ hash_rules L e (parse_hex_string L (trim_prefix text (codes "//"))))
  unfolding double_hash_case clone
  CaseAdds-double_hash_case dl e text number =
      let hash = trim_prefix text (codes "//") in
      let dl1 = add_parsed L dl e (parse_multihash L hash) in
      let dl2 = add_parsed L dl1 e (parse_hex_string L hash) in
      let end =
        case_denylist-fall_or_return dl2 e
          (both_failed (parse_multihash L hash) (parse_hex_string L hash) dl.filename number) in
      let (header1, name1) = add_parsed_same dl e (parse_multihash L hash) in
      let (header2, name2) = add_parsed_same dl1 e (parse_hex_string L hash) in
      record {
        adds = λ r.
            ap (index r) end
            ∙ Adds-append dl dl1 dl2 _ _ (Adds-add_parsed dl e _) (Adds-add_parsed dl1 e _) r;
        same_header = ap (λ (d : Denylist). d.header) end ∙ header2 ∙ header1;
        same_name = ap (λ (d : Denylist). d.filename) end ∙ name2 ∙ name1;
      }

  CaseAdds-store_ipfs :
      (dl : Denylist) (e : Entry) (path : Result BlockedPath)
      → CaseAdds dl (store_ipfs L dl e path) (with_path e (of_cid (L.b58 e.multihash)) path)
  CaseAdds-store_ipfs dl e (err x) = record {
    adds = Adds-nil dl;
    same_header = refl;
    same_name = refl;
  }
  CaseAdds-store_ipfs dl e (ok path) = record {
    adds = Adds-of_cid dl _ _;
    same_header = refl;
    same_name = refl;
  }

  CaseAdds-ipfs_rule :
      (dl : Denylist) (e : Entry) (name sub : Bytes) (number : ℕ) (c : Result Cid)
      → CaseAdds dl (ipfs_rule L dl e name sub number c) (cid_rules L e sub c)
  CaseAdds-ipfs_rule dl e name sub number (err x) = record {
    adds = Adds-nil dl;
    same_header = refl;
    same_name = refl;
  }
  CaseAdds-ipfs_rule dl e name sub number (ok c) =
      if_both (CaseAdds dl) (is_safe L c)
        (record { adds = Adds-nil dl; same_header = refl; same_name = refl })
        (CaseAdds-store_ipfs dl (record e { multihash = L.hash c }) (new_blocked_path sub))

  CaseAdds-store_ipns :
      (dl : Denylist) (e : Entry) (key : Bytes) (path : Result BlockedPath)
      → CaseAdds dl (store_ipns dl e key path) (with_path e (of_name key) path)
  CaseAdds-store_ipns dl e key (err x) = record {
    adds = Adds-nil dl;
    same_header = refl;
    same_name = refl;
  }
  CaseAdds-store_ipns dl e key (ok path) = record {
    adds = Adds-of_name dl key _;
    same_header = refl;
    same_name = refl;
  }

  CaseAdds-store_path :
      (dl : Denylist) (e : Entry) (text : Bytes) (path : Result BlockedPath)
      → CaseAdds dl (store_path dl e text path) (with_path e (path_or_paths text) path)
  CaseAdds-store_path dl e text (err x) = record {
    adds = Adds-nil dl;
    same_header = refl;
    same_name = refl;
  }
  CaseAdds-store_path dl e text (ok path) =
      if_both (λ c rule. CaseAdds dl c (rule ∷ [])) path.prefix
        (record { adds = Adds-of_paths dl _; same_header = refl; same_name = refl })
        (record { adds = Adds-of_path dl text _; same_header = refl; same_name = refl })

  CaseAdds-parse_rule :
      (dl : Denylist) (e : Entry) (text : Bytes) (number : ℕ)
      → CaseAdds dl (parse_rule L dl e text number) (text_rule L e text)
  unfolding parse_rule text_rule ipfs_case ipns_case path_case
  CaseAdds-parse_rule dl e text number =
      if_both (CaseAdds dl) (has_prefix text (codes "//"))
        (CaseAdds-double_hash_case dl e text number)
        (if_both (CaseAdds dl)
          (has_prefix text (codes "/ipfs/") || has_prefix text (codes "/ipld/"))
          (CaseAdds-ipfs_rule dl e _ _ number _)
          (if_both (CaseAdds dl) (has_prefix text (codes "/ipns/")) (CaseAdds-store_ipns dl e _ _)
            (CaseAdds-store_path dl e text _)))

  Reads-append_entry :
      (dl : Denylist) (c : Case) (rules : List Rule)
      → CaseAdds dl c rules
      → Reads dl (append_entry c) rules
  Reads-append_entry dl (returns dl' error) rules h = (h.adds, h.same_header, h.same_name)
  Reads-append_entry dl (falls_out dl' e) rules h =
      (λ r. index-entries r dl' _ ∙ h.adds r, h.same_header, h.same_name)

  Reads-parse_fields :
      (dl : Denylist) (line : Bytes) (number : ℕ) (words : List Bytes)
      → Reads dl
          (parse_fields L dl line number words)
          (words_rules L dl.header.hints line number words)
  unfolding parse_fields
  Reads-parse_fields dl line number [] = tt
  Reads-parse_fields dl line number (word ∷ words) =
      Reads-append_entry dl _ _ (CaseAdds-parse_rule dl _ _ number)

  -- A line that is read with or without an error adds its rules to the log, for every reader behind
  -- those that it found before, and leaves the header and the file name.
  pub Reads-parse_line :
      (dl : Denylist) (line : Bytes) (number : ℕ)
      → Reads dl (parse_line L dl line number) (line_rules L dl.header.hints line number)
  unfolding parse_line parse_trimmed line_rules
  Reads-parse_line dl line number =
      if_both (Reads dl) (is_ignored (trim_suffix line (codes "\n"))) (Adds-nil dl, refl, refl)
        (Reads-parse_fields dl _ number _)
