-- ===== src/Denylist/IpnsRules.antt =====
-- What an IPNS rule does to the denylist, and what the queries answer then.
use nopfs.Prelude.{
  ℕ, ◌≡◌, ◌≢◌, ◌⊎◌, refl, sym, ap, ◌∙◌, true, false, List, [], ◌∷◌, ◌++◌, Option, none, some, Bytes,
  codes, ok, arith,
}
use nopfs.Libs.{Libs, Cid, IpfsPath}
use nopfs.Text.{has_prefix, trim_prefix, strip_prefix, cut_prefix, contains_byte}
use nopfs.Text.Affixes.{trim_prefix-append, has_prefix-append}
use nopfs.Text.Fields.{IsVisible, IsVisible-append}
use nopfs.Entry.{Entry, BlockedPath, new_blocked_path, matches}
use nopfs.Entry.Deciding.{rule_status}
use nopfs.Status.{StatusResponse}
use nopfs.BlocksDb.{store}
use nopfs.Denylist.{Denylist}
use nopfs.Denylist.Rules.{returned, line_entry, append_entry, store_ipns}
use nopfs.Denylist.Parsing.{parse_rule, parse_line, ipns_case, ipns_key}
use nopfs.Denylist.RuleText.{
  Mark, mark_text, allows, tail_text, sub_text, cut-tail_text, parse_line-mark,
}
use nopfs.Denylist.IpfsRules.{IsVisible-tail}
use nopfs.Denylist.SameHashes.{SameHashes, ipns_double_hash-SameHashes}
use nopfs.Denylist.Blocking.{mark_status, check-covered, check_other, is_hit-rule}
use nopfs.Denylist.Lookup.{
  respond, full_path, decoded, ipns_lookup_key, ipns_legacy_key, ipns_at_path, is_ipns_path_blocked,
}

-- A rule's text for a name under `/ipns/`, with its newline.
abbrev pub ipns_line : Mark → Bytes → Option Bytes → Bytes
ipns_line m name sub = (mark_text m ++ (codes "/ipns/" ++ (name ++ tail_text sub))) ++ codes "\n"

cut_prefix-append : (p r : Bytes) → (cut_prefix (p ++ r) p).0 ≡ r
unfolding cut_prefix
cut_prefix-append p r = rw (has_prefix-append p r, trim_prefix-append p r)

module _ (L : Libs) where
  parse_rule-ipns :
      (dl : Denylist) (e : Entry) (r : Bytes) (number : ℕ)
      → parse_rule L dl e (codes "/ipns/" ++ r) number ≡ ipns_case L dl e (codes "/ipns/" ++ r)
  unfolding parse_rule has_prefix strip_prefix
  parse_rule-ipns dl e [] number = refl
  parse_rule-ipns dl e (c ∷ r) number = refl

  ipns_case-name :
      (dl : Denylist) (e : Entry) (name : Bytes) (sub : Option Bytes)
      → contains_byte name b'/' ≡ false
      → ipns_case L dl e (codes "/ipns/" ++ (name ++ tail_text sub))
        ≡ store_ipns dl e (ipns_key L name (L.decode_cid name)) (new_blocked_path (sub_text sub))
  unfolding ipns_case
  ipns_case-name dl e name sub h =
      let (key, sub_path) = cut-tail_text name sub h in
      rw (cut_prefix-append (codes "/ipns/") (name ++ tail_text sub), key, sub_path)

  -- The entry that a rule for a name stores, and the denylist with it.
  abbrev ipns_entry : Denylist → Mark → Bytes → Option Bytes → ℕ → BlockedPath → Entry
  ipns_entry dl m name sub number b =
      record (line_entry dl (mark_text m ++ (codes "/ipns/" ++ (name ++ tail_text sub))) number []
        (allows m)) { path = b }

  abbrev add_ipns_entry : Denylist → Bytes → Entry → Denylist
  add_ipns_entry dl key e = record dl {
    entries = dl.entries ++ e ∷ [];
    ipns_blocks_db = store dl.ipns_blocks_db key e;
  }

  parse_line-ipns_line :
      (dl : Denylist) (m : Mark) (name : Bytes) (sub : Option Bytes) (number : ℕ) (b : BlockedPath)
      → IsVisible name
      → contains_byte name b'/' ≡ false
      → IsVisible (sub_text sub)
      → new_blocked_path (sub_text sub) ≡ ok b
      → parse_line L dl (ipns_line m name sub) number
        ≡ returned
            (add_ipns_entry dl
              (ipns_key L name (L.decode_cid name))
              (ipns_entry dl m name sub number b))
            none
  parse_line-ipns_line dl m name sub number b seen one v path =
      parse_line-mark L dl m (codes "ipns/" ++ (name ++ tail_text sub)) number (
        IsVisible-append (codes "ipns/") _ (omega arith)
          (IsVisible-append name _ seen (IsVisible-tail sub v)))
      ∙ ap append_entry
          (parse_rule-ipns dl _ (name ++ tail_text sub) number ∙ ipns_case-name dl _ name sub one)
      ∙ rw path

  module _ (dl : Denylist) (order : List ℕ) (key : Bytes) (e : Entry) where
    add_ipns_entry-SameHashes : SameHashes dl (add_ipns_entry dl key e)
    add_ipns_entry-SameHashes = record { hashes = λ code k. refl; names = refl }

    ipns_at_path-covered :
        (q subpath : Bytes) (c : Option Cid) (p : IpfsPath)
        → ipns_lookup_key L q c ≡ key
        → matches e.path subpath ≡ true
        → ipns_at_path L (add_ipns_entry dl key e) order q subpath c (ok p)
          ≡ respond dl none (some p) (rule_status e, e, none)
    ipns_at_path-covered q subpath c p same m = rw (
      check-covered dl.ipns_blocks_db key e (ipns_lookup_key L q c) subpath same m,
      is_hit-rule e,
    )

    ipns_at_path_other :
        (q subpath : Bytes) (c : Option Cid) (p : IpfsPath)
        → (ipns_lookup_key L q c ≢ key) ⊎ (matches e.path subpath ≡ false)
        → ipns_at_path L (add_ipns_entry dl key e) order q subpath c (ok p)
          ≡ ipns_at_path L dl order q subpath c (ok p)
    ipns_at_path_other q subpath c p h = rw (
      check_other dl.ipns_blocks_db key e (ipns_lookup_key L q c) subpath h,
      ipns_double_hash-SameHashes L add_ipns_entry-SameHashes order subpath p c
          (ipns_legacy_key L q subpath c),
    )

  is_ipns_path_blocked-at :
      (dl : Denylist) (order : List ℕ) (q subpath : Bytes) (p : IpfsPath)
      → L.new_path (full_path (codes "ipns") q (trim_prefix subpath (codes "/"))) ≡ ok p
      → is_ipns_path_blocked L dl order q subpath
        ≡ ipns_at_path L dl order q
            (trim_prefix subpath (codes "/"))
            (decoded (L.decode_cid q))
            (ok p)
  unfolding is_ipns_path_blocked
  is_ipns_path_blocked-at dl order q subpath p n = rw n

  -- A line that is a rule for an IPNS name, with or without a mark and a subpath, is read with no
  -- error when the name is printable and has no slash, and the subpath is printable and makes a rule
  -- path `b`. The rule's key is the base58 multihash of the name if it is a CID, and else the name.
  -- Then a name whose lookup key is that key is blocked with each subpath that `b` matches, or
  -- allowed if the rule has a mark; and a name with another lookup key, or with a subpath that `b`
  -- does not match, gets the response that it got before. The names and subpaths make paths.
  pub ipns_rule_decides :
      (dl : Denylist) (order : List ℕ) (m : Mark) (name : Bytes) (sub : Option Bytes) (number : ℕ)
      (b : BlockedPath)
      → IsVisible name
      → contains_byte name b'/' ≡ false
      → IsVisible (sub_text sub)
      → new_blocked_path (sub_text sub) ≡ ok b
      → (dl' : Denylist) × (parse_line L dl (ipns_line m name sub) number ≡ returned dl' none)
        × ((q subpath : Bytes) (p : IpfsPath)
            → L.new_path (full_path (codes "ipns") q (trim_prefix subpath (codes "/"))) ≡ ok p
            → ipns_lookup_key L q (decoded (L.decode_cid q)) ≡ ipns_key L name (L.decode_cid name)
            → matches b (trim_prefix subpath (codes "/")) ≡ true
            → (is_ipns_path_blocked L dl' order q subpath).status ≡ mark_status m)
        × ((q subpath : Bytes) (p : IpfsPath)
            → L.new_path (full_path (codes "ipns") q (trim_prefix subpath (codes "/"))) ≡ ok p
            → (ipns_lookup_key L q (decoded (L.decode_cid q)) ≢ ipns_key L name (L.decode_cid name))
              ⊎ (matches b (trim_prefix subpath (codes "/")) ≡ false)
            → is_ipns_path_blocked L dl' order q subpath
              ≡ is_ipns_path_blocked L dl order q subpath)
  ipns_rule_decides dl order m name sub number b seen one v path =
      let key = ipns_key L name (L.decode_cid name) in
      let e = ipns_entry dl m name sub number b in
      let dl' = add_ipns_entry dl key e in
      (
        dl',
        parse_line-ipns_line dl m name sub number b seen one v path,
        λ q subpath p n same covered.
            ap (λ (r : StatusResponse). r.status)
              (is_ipns_path_blocked-at dl' order q subpath p n
                ∙ ipns_at_path-covered dl order key e q _ _ p same covered),
        λ q subpath p n h.
            is_ipns_path_blocked-at dl' order q subpath p n
            ∙ ipns_at_path_other dl order key e q _ _ p h
            ∙ sym (is_ipns_path_blocked-at dl order q subpath p n),
      )
