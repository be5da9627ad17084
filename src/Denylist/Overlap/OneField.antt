-- ===== src/Denylist/Overlap/OneField.antt =====
-- The rules of a line all go to one field.
use nopfs.Prelude.{
  ℕ, refl, ◌∙◌, Bool, true, false, ◌||◌, List, [], ◌∷◌, ◌++◌, Bytes, codes, if◌then◌else◌, if_cases,
  Result, ok, err, arith,
}
use nopfs.Prelude.GoMap.{GoMap}
use nopfs.Libs.{Libs, Cid, Multihash}
use nopfs.Text.{cut, cut_prefix, has_prefix, trim_suffix, trim_prefix, fields}
use nopfs.Entry.{Entry, BlockedPath, new_blocked_path}
use nopfs.Denylist.Rules.{is_ignored, strip_allow}
use nopfs.Denylist.Parsing.{parse_multihash, parse_hex_string, ipns_key, is_safe}
use nopfs.Denylist.Log.{
  Rule, of_cid, of_name, of_hash, of_path, of_paths, by_cid, by_name, by_hash, by_path, by_paths,
  with_path, path_or_paths, hash_rules, cid_rules, text_rule, words_rules, line_rules, blank_entry,
}
use nopfs.Denylist.Log.Adds.{pick-append}
use nopfs.Denylist.Overlap.{
  Field, ipfs_blocks, ipns_blocks, double_hash_blocks, path_blocks, path_prefix_blocks, InField,
}

InField-cid : (key : Bytes) (e : Entry) → InField ipfs_blocks (of_cid key e ∷ [])
InField-cid key e (by_cid k) other = absurd (ground arith)
InField-cid key e _ other = refl

InField-name : (key : Bytes) (e : Entry) → InField ipns_blocks (of_name key e ∷ [])
InField-name key e (by_name k) other = absurd (ground arith)
InField-name key e _ other = refl

InField-hash :
    (code : ℕ) (key : Bytes) (e : Entry) → InField double_hash_blocks (of_hash code key e ∷ [])
InField-hash code key e (by_hash c k) other = absurd (ground arith)
InField-hash code key e _ other = refl

InField-path : (key : Bytes) (e : Entry) → InField path_blocks (of_path key e ∷ [])
InField-path key e (by_path k) other = absurd (ground arith)
InField-path key e _ other = refl

InField-paths : (e : Entry) → InField path_prefix_blocks (of_paths e ∷ [])
InField-paths e by_paths other = absurd (ground arith)
InField-paths e _ other = refl

InField-append :
    (f : Field) (rs qs : List Rule) → InField f rs → InField f qs → InField f (rs ++ qs)
InField-append f rs qs h k r other = pick-append r rs qs ∙ rw (h r other, k r other)

-- Some field has them all.
abbrev pub OneField : List Rule → Type 0
OneField rules = (f : Field) × InField f rules

InField-nil : (f : Field) → InField f []
InField-nil f r other = refl

OneField-with_path :
    (f : Field) (e : Entry) (rule : Entry → Rule) (path : Result BlockedPath)
    → ((e' : Entry) → InField f (rule e' ∷ []))
    → OneField (with_path e rule path)
OneField-with_path f e rule (err x) h = (f, InField-nil f)
OneField-with_path f e rule (ok path) h = (f, h (record e { path = path }))

OneField-path_or_paths :
    (text : Bytes) (e : Entry) (b : Bool)
    → OneField ((if b then of_paths e else of_path text e) ∷ [])
OneField-path_or_paths text e true = (path_prefix_blocks, InField-paths e)
OneField-path_or_paths text e false = (path_blocks, InField-path text e)

OneField-path_rule :
    (text : Bytes) (e : Entry) (path : Result BlockedPath)
    → OneField (with_path e (path_or_paths text) path)
OneField-path_rule text e (err x) = (path_blocks, InField-nil path_blocks)
OneField-path_rule text e (ok path) =
    OneField-path_or_paths text (record e { path = path }) path.prefix

module _ (L : Libs) where
  InField-hash_rules :
      (e : Entry) (r : Result (ℕ × Multihash)) → InField double_hash_blocks (hash_rules L e r)
  InField-hash_rules e (err x) = InField-nil double_hash_blocks
  InField-hash_rules e (ok (code, mh)) = InField-hash code _ _

  OneField-cid_rules : (e : Entry) (sub : Bytes) (c : Result Cid) → OneField (cid_rules L e sub c)
  OneField-cid_rules e sub (err x) = (ipfs_blocks, InField-nil ipfs_blocks)
  OneField-cid_rules e sub (ok c) =
      if_cases OneField (is_safe L c) (ipfs_blocks, InField-nil ipfs_blocks)
        (OneField-with_path ipfs_blocks (record e { multihash = L.hash c })
          (of_cid (L.b58 (L.hash c))) (new_blocked_path sub) (InField-cid (L.b58 (L.hash c))))

  OneField-text_rule : (e : Entry) (text : Bytes) → OneField (text_rule L e text)
  unfolding text_rule
  OneField-text_rule e text =
      let hash = trim_prefix text (codes "//") in
      let (name, name_sub, _) = cut (cut_prefix text (codes "/ipns/")).0 b'/' in
      if_cases OneField (has_prefix text (codes "//"))
        (
          double_hash_blocks,
          InField-append double_hash_blocks (hash_rules L e (parse_multihash L hash))
              (hash_rules L e (parse_hex_string L hash))
              (InField-hash_rules e (parse_multihash L hash))
              (InField-hash_rules e (parse_hex_string L hash)),
        )
        (if_cases OneField (has_prefix text (codes "/ipfs/") || has_prefix text (codes "/ipld/"))
          (OneField-cid_rules e _ _)
          (if_cases OneField (has_prefix text (codes "/ipns/"))
            (OneField-with_path ipns_blocks e (of_name (ipns_key L name (L.decode_cid name)))
              (new_blocked_path name_sub) (InField-name (ipns_key L name (L.decode_cid name))))
            (OneField-path_rule text e (new_blocked_path text))))

  OneField-words_rules :
      (hints : GoMap Bytes Bytes) (line : Bytes) (number : ℕ) (words : List Bytes)
      → OneField (words_rules L hints line number words)
  OneField-words_rules hints line number [] = (path_blocks, InField-nil path_blocks)
  OneField-words_rules hints line number (word ∷ words) =
      OneField-text_rule (blank_entry hints line number words (strip_allow word).1)
        (strip_allow word).0

  pub OneField-line_rules :
      (hints : GoMap Bytes Bytes) (line : Bytes) (number : ℕ)
      → OneField (line_rules L hints line number)
  unfolding line_rules
  OneField-line_rules hints line number =
      let trimmed = trim_suffix line (codes "\n") in
      if_cases OneField (is_ignored trimmed) (path_blocks, InField-nil path_blocks)
        (OneField-words_rules hints trimmed number (fields trimmed))
