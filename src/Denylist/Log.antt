-- ===== src/Denylist/Log.antt =====
-- A denylist as a log of rules: what each index is to hold, with no index. A line adds the rules
-- that it says, in the order of the file.
pub mod Adds
pub mod Lines
pub mod Files
pub mod Answers
pub mod Silence
pub mod Fitting
pub mod Readable
pub mod Holding
pub mod Deciding
use nopfs.Prelude.{
  ℕ, Bool, true, false, ◌||◌, List, [], ◌∷◌, ◌++◌, Option, none, some, Bytes, codes, nat_eqb,
  bytes_eqb, if◌then◌else◌, Result, ok, err,
}
use nopfs.Prelude.GoMap.{GoMap}
use nopfs.Libs.{Libs, Cid, Multihash}
use nopfs.Text.{has_prefix, trim_prefix, trim_suffix, cut_prefix, cut, fields}
use nopfs.Entry.{Entry, Entries, BlockedPath, new_blocked_path, zero_path}
use nopfs.Denylist.Rules.{add_hints, strip_allow, is_ignored}
use nopfs.Denylist.Parsing.{parse_multihash, parse_hex_string, is_safe, ipns_key}
use nopfs.Denylist.Following.{next_number}

-- A rule with its key: for a CID, for a name, by double hash, for one path, for paths below one.
pub data Rule : Type 0 where
  of_cid : Bytes → Entry → Rule
  of_name : Bytes → Entry → Rule
  of_hash : ℕ → Bytes → Entry → Rule
  of_path : Bytes → Entry → Rule
  of_paths : Entry → Rule

-- What the log is asked for: the rules of a key, or those for paths below one.
pub data Reader : Type 0 where
  by_cid : Bytes → Reader
  by_name : Bytes → Reader
  by_hash : ℕ → Bytes → Reader
  by_path : Bytes → Reader
  by_paths : Reader

abbrev pub if_key : Bool → Entry → Entries
if_key true e = e ∷ []
if_key false e = []

-- What a reader sees of a rule.
abbrev pub see : Reader → Rule → Entries
see (by_cid k) (of_cid key e) = if_key (bytes_eqb key k) e
see (by_name k) (of_name key e) = if_key (bytes_eqb key k) e
see (by_hash code k) (of_hash c key e) = if nat_eqb c code then if_key (bytes_eqb key k) e else []
see (by_path k) (of_path key e) = if_key (bytes_eqb key k) e
see by_paths (of_paths e) = e ∷ []
see _ _ = []

-- The entries that a reader finds, in the order of the log.
abbrev pub pick : Reader → List Rule → Entries
pick reader [] = []
pick reader (rule ∷ rules) = see reader rule ++ pick reader rules

-- The entry of a line, before its path and its multihash are known.
abbrev pub blank_entry : GoMap Bytes Bytes → Bytes → ℕ → List Bytes → Bool → Entry
blank_entry hints line number words allow = record {
  line = number;
  allow_rule = allow;
  hints = add_hints hints words;
  raw_value = line;
  multihash = [];
  path = zero_path;
}

-- A path that does not unescape makes no rule.
abbrev pub with_path : Entry → (Entry → Rule) → Result BlockedPath → List Rule
with_path e rule (err error) = []
with_path e rule (ok path) = rule (record e { path = path }) ∷ []

abbrev pub path_or_paths : Bytes → Entry → Rule
path_or_paths text e = if e.path.prefix then of_paths e else of_path text e

module _ (L : Libs) where
  abbrev pub hash_rules : Entry → Result (ℕ × Multihash) → List Rule
  hash_rules e (err error) = []
  hash_rules e (ok (code, mh)) =
      of_hash code (L.b58 mh) (record e { path = zero_path; multihash = mh }) ∷ []

  abbrev pub cid_rules : Entry → Bytes → Result Cid → List Rule
  cid_rules e sub (err error) = []
  cid_rules e sub (ok c) =
      if is_safe L c
      then []
      else with_path (record e { multihash = L.hash c }) (of_cid (L.b58 (L.hash c)))
          (new_blocked_path sub)

  -- The rules that a rule's text says.
  unfoldable pub text_rule : Entry → Bytes → List Rule
  text_rule e text =
      let hash = trim_prefix text (codes "//") in
      let (cid_name, cid_sub, _) =
        cut (trim_prefix (trim_prefix text (codes "/ipfs/")) (codes "/ipld/")) b'/' in
      let (name, name_sub, _) = cut (cut_prefix text (codes "/ipns/")).0 b'/' in
      if has_prefix text (codes "//")
      then hash_rules e (parse_multihash L hash) ++ hash_rules e (parse_hex_string L hash)
      else if has_prefix text (codes "/ipfs/") || has_prefix text (codes "/ipld/")
      then cid_rules e cid_sub (L.decode_cid cid_name)
      else if has_prefix text (codes "/ipns/")
      then with_path e (of_name (ipns_key L name (L.decode_cid name))) (new_blocked_path name_sub)
      else with_path e (path_or_paths text) (new_blocked_path text)

  abbrev pub words_rules : GoMap Bytes Bytes → Bytes → ℕ → List Bytes → List Rule
  words_rules hints line number [] = []
  words_rules hints line number (word ∷ words) =
      let (text, allow) = strip_allow word in
      text_rule (blank_entry hints line number words allow) text

  -- The rules of a line.
  unfoldable pub line_rules : GoMap Bytes Bytes → Bytes → ℕ → List Rule
  line_rules hints line number =
      let trimmed = trim_suffix line (codes "\n") in
      if is_ignored trimmed then [] else words_rules hints trimmed number (fields trimmed)

  -- The rules of a text, where `line` is what stands before it and `number` counts the lines.
  unfoldable pub rules_of_text : GoMap Bytes Bytes → Bytes → ℕ → Bytes → List Rule
  rules_of_text hints line number [] = []
  rules_of_text hints line number (c ∷ s) =
      let whole = line ++ c ∷ [] in
      let more = rules_of_text hints whole number s in
      let next =
        line_rules hints whole (next_number number)
        ++ rules_of_text hints [] (next_number number) s in
      if nat_eqb c b'\n' then next else more
