-- ===== src/Denylist/Parsing.antt =====
-- `parseLine`, each case of its switch a function.
use nopfs.Prelude.{
  ℕ, Bool, false, ◌||◌, List, [], ◌∷◌, none, some, Bytes, codes, nat_eq, bytes_eq, nat_eqb, length,
  if◌then◌else◌, identity_double_hash, hex_string_length, extracting_cid, Result, ok, err, ◌>>=◌,
}
use nopfs.Prelude.GoMap.{get, put}
use nopfs.Libs.{Libs, Cid, Multihash}
use nopfs.Text.{has_prefix, trim_prefix, trim_suffix, cut_prefix, cut, fields, hex_decode}
use nopfs.Entry.{Entry, BlockedPath, new_blocked_path, zero_path, clone}
use nopfs.BlocksDb.{store}
use nopfs.Denylist.{Denylist}
use nopfs.Denylist.Rules.{
  Outcome, returned, panics, Case, returns, falls_out, strip_allow, is_ignored, blocks_of,
  both_failed, fall_or_return, safe_cids, decodes_to, store_ipns, path_case, append_entry,
  line_entry,
}

module _ (L : Libs) where
  -- `parseMultihash`: the code and the multihash of a base58 text, if it can be hashed with.
  unfoldable pub parse_multihash : Bytes → Result (ℕ × Multihash)
  parse_multihash rule = do
    mh ← L.from_b58 rule
    dmh ← L.decode_multihash mh
    if nat_eqb dmh.code 0
        then err identity_double_hash
        else do hasher ← L.variable_hasher dmh.code dmh.size; ok (dmh.code, mh)

  -- `parseHexString`.
  unfoldable pub parse_hex_string : Bytes → Result (ℕ × Multihash)
  parse_hex_string rule =
      if nat_eqb (length rule) 64
      then (do bs ← hex_decode rule; mh ← L.encode_multihash bs L.sha2_256; ok (L.sha2_256, mh))
      else err hex_string_length

  -- `addRule`. The entry that it stores is its own copy.
  unfoldable pub add_rule : Denylist → Entry → ℕ × Multihash → Denylist
  add_rule dl e (code, mh) =
      let key = L.b58 mh in
      let blocks = blocks_of (get dl.double_hash_blocks_db code) in
      record dl {
        double_hash_blocks_db =
            put dl.double_hash_blocks_db code
              (store blocks key (record e { path = zero_path; multihash = mh }));
      }

  -- The two readings of a double-hash rule; a reading that fails adds nothing.
  abbrev pub add_parsed : Denylist → Entry → Result (ℕ × Multihash) → Denylist
  add_parsed dl e (ok parsed) = add_rule dl e parsed
  add_parsed dl e (err _) = dl

  -- `case strings.HasPrefix(rule, "//")`.
  unfoldable pub double_hash_case : Denylist → Entry → Bytes → ℕ → Case
  double_hash_case dl e rule number =
      let rest = trim_prefix rule (codes "//") in
      let parsed1 = parse_multihash rest in
      let dl1 = add_parsed dl (clone e) parsed1 in
      let parsed2 = parse_hex_string rest in
      let dl2 = add_parsed dl1 e parsed2 in
      fall_or_return dl2 e (both_failed parsed1 parsed2 dl.filename number)

  unfoldable pub in_cids : List Bytes → Cid → Bool
  in_cids [] c = false
  in_cids (text ∷ texts) c = decodes_to (L.decode_cid text) c || in_cids texts c

  -- `_, ok := SafeCids[c]`.
  unfoldable pub is_safe : Cid → Bool
  is_safe c = in_cids safe_cids c

  abbrev pub store_ipfs : Denylist → Entry → Result BlockedPath → Case
  store_ipfs dl e (err error) = returns dl (some error)
  store_ipfs dl e (ok path) =
      let e' = record e { path = path } in
      falls_out (record dl { ipfs_blocks_db = store dl.ipfs_blocks_db (L.b58 e'.multihash) e' }) e'

  abbrev pub ipfs_rule : Denylist → Entry → Bytes → Bytes → ℕ → Result Cid → Case
  ipfs_rule dl e cid_str sub_path number (err error) =
      returns dl (some (extracting_cid cid_str dl.filename number error))
  ipfs_rule dl e cid_str sub_path number (ok c) =
      if is_safe c
      then returns dl none
      else store_ipfs dl (record e { multihash = L.hash c }) (new_blocked_path sub_path)

  -- `case strings.HasPrefix(rule, "/ipfs/"), strings.HasPrefix(rule, "/ipld/")`.
  unfoldable pub ipfs_case : Denylist → Entry → Bytes → ℕ → Case
  ipfs_case dl e rule number =
      let trimmed = trim_prefix (trim_prefix rule (codes "/ipfs/")) (codes "/ipld/") in
      let (cid_str, sub_path, _) = cut trimmed b'/' in
      ipfs_rule dl e cid_str sub_path number (L.decode_cid cid_str)

  -- The key of an IPNS rule: that of the CID, if it is one, or the name.
  abbrev pub ipns_key : Bytes → Result Cid → Bytes
  ipns_key name (ok c) = L.b58 (L.hash c)
  ipns_key name (err _) = name

  -- `case strings.HasPrefix(rule, "/ipns/")`.
  unfoldable pub ipns_case : Denylist → Entry → Bytes → Case
  ipns_case dl e rule =
      let (unprefixed, _) = cut_prefix rule (codes "/ipns/") in
      let (name, sub_path, _) = cut unprefixed b'/' in
      store_ipns dl e (ipns_key name (L.decode_cid name)) (new_blocked_path sub_path)

  -- The switch.
  unfoldable pub parse_rule : Denylist → Entry → Bytes → ℕ → Case
  parse_rule dl e rule number =
      if has_prefix rule (codes "//")
      then double_hash_case dl e rule number
      else if has_prefix rule (codes "/ipfs/") || has_prefix rule (codes "/ipld/")
      then ipfs_case dl e rule number
      else if has_prefix rule (codes "/ipns/")
      then ipns_case dl e rule
      else path_case dl e rule

  -- `splitFields[0]` of no fields is a panic.
  unfoldable pub parse_fields : Denylist → Bytes → ℕ → List Bytes → Outcome
  parse_fields dl line number [] = panics
  parse_fields dl line number (field ∷ hint_slice) =
      let (rule, allow) = strip_allow field in
      append_entry (parse_rule dl (line_entry dl line number hint_slice allow) rule number)

  -- `parseLine` behind the trimming of the line's end.
  unfoldable pub parse_trimmed : Denylist → Bytes → ℕ → Outcome
  parse_trimmed dl line number =
      if is_ignored line then returned dl none else parse_fields dl line number (fields line)

  unfoldable pub parse_line : Denylist → Bytes → ℕ → Outcome
  parse_line dl line number = parse_trimmed dl (trim_suffix line (codes "\n")) number
