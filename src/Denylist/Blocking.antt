-- ===== src/Denylist/Blocking.antt =====
-- What the queries answer once a CID rule has been read.
use nopfs.Prelude.{
  ℕ, ◌≡◌, ◌≢◌, ◌⊎◌, inl, inr, refl, sym, ap, ◌∙◌, true, false, List, [], none, some, Bytes, codes,
  bytes_eqb, bytes_eqb_iff, if◌then◌else◌, Bool-cases, arith, Result, ok,
}
use nopfs.Libs.{Libs, Cid, IpfsPath}
use nopfs.Text.{trim_prefix, trim_suffix, strip_prefix, strip_suffix}
use nopfs.Text.Fields.{IsVisible}
use nopfs.Entry.{
  zero_path, sanitize, Entry, BlockedPath, Status, allowed, blocked, matches, new_blocked_path,
  check_path_status,
}
use nopfs.Entry.Deciding.{rule_status}
use nopfs.Status.{StatusResponse}
use nopfs.BlocksDb.{BlocksDb, load, store, check_path_status-store}
use nopfs.Denylist.{Denylist}
use nopfs.Denylist.Rules.{returned}
use nopfs.Denylist.Parsing.{parse_line, is_safe}
use nopfs.Denylist.RuleText.{Mark, allows}
use nopfs.Denylist.IpfsRules.{ipfs_line, IsName, ipfs_entry, add_ipfs_entry, parse_line-ipfs_line}
use nopfs.Denylist.SameHashes.{SameHashes, cid_double_hash-SameHashes, ipfs_past_direct-SameHashes}
use nopfs.Denylist.Lookup.{
  legacy_text, is_hit, respond, full_path, is_cid_v0, is_cid_blocked, is_ipfs_ipld_path_blocked,
  ipfs_at_key, is_subpath_blocked, is_path_blocked,
}
use nopfs.Denylist.Protocols.{
  Segments, IsContent, Undecided, is_path_blocked-content, is_path_blocked-agree,
}

-- The text of a CIDv0 is its base58 multihash, which the direct lookup relies on.
abbrev pub CidV0Law : Libs → Type 0
CidV0Law L =
    (text : Bytes) (c : Cid)
    → is_cid_v0 text ≡ true
    → L.decode_cid text ≡ ok c
    → L.b58 (L.hash c) ≡ text

-- The status that a mark gives to the paths that the rule covers.
abbrev pub mark_status : Mark → Status
mark_status m = if allows m then allowed else blocked

pub is_hit-rule : (e : Entry) → is_hit (rule_status e) ≡ true
is_hit-rule e = ground arith

pub check-covered :
    (db : BlocksDb) (key : Bytes) (e : Entry) (k p : Bytes)
    → k ≡ key
    → matches e.path p ≡ true
    → check_path_status (load (store db key e) k).0 p ≡ (rule_status e, e)
check-covered db key e k p same m =
    rw (check_path_status-store db key e k p, (bytes_eqb_iff key k).1 (sym same), m)

pub check_other :
    (db : BlocksDb) (key : Bytes) (e : Entry) (k p : Bytes)
    → (k ≢ key) ⊎ (matches e.path p ≡ false)
    → check_path_status (load (store db key e) k).0 p ≡ check_path_status (load db k).0 p
check_other db key e k p h =
    rw (check_path_status-store db key e k p) (ground (arith, bytes_eqb_iff key k))

module _ (L : Libs) (dl : Denylist) (order : List ℕ) (c : Cid) (e : Entry) where
  is_cid_blocked-covered :
      (q : Cid)
      → L.hash q ≡ L.hash c
      → matches e.path [] ≡ true
      → is_cid_blocked L (add_ipfs_entry L dl c e) order q
        ≡ respond dl (some q) none (rule_status e, e, none)
  unfolding is_cid_blocked
  is_cid_blocked-covered q same m = rw (
    check-covered dl.ipfs_blocks_db (L.b58 (L.hash c)) e (L.b58 (L.hash q)) [] (ap L.b58 same) m,
    is_hit-rule e,
  )

  add_ipfs_entry-SameHashes : SameHashes dl (add_ipfs_entry L dl c e)
  add_ipfs_entry-SameHashes = record { hashes = λ code k. refl; names = refl }

  is_cid_blocked_other :
      (q : Cid)
      → (L.b58 (L.hash q) ≢ L.b58 (L.hash c)) ⊎ (matches e.path [] ≡ false)
      → is_cid_blocked L (add_ipfs_entry L dl c e) order q ≡ is_cid_blocked L dl order q
  unfolding is_cid_blocked
  is_cid_blocked_other q h = rw (
    check_other dl.ipfs_blocks_db (L.b58 (L.hash c)) e (L.b58 (L.hash q)) [] h,
    cid_double_hash-SameHashes L add_ipfs_entry-SameHashes order q (legacy_text L q),
  )

  ipfs_at_key-covered :
      (q : Cid) (subpath : Bytes) (p : IpfsPath) (r : Result Cid)
      → L.hash q ≡ L.hash c
      → matches e.path subpath ≡ true
      → ipfs_at_key L (add_ipfs_entry L dl c e) order (L.b58 (L.hash q)) subpath p r
        ≡ respond dl none (some p) (rule_status e, e, none)
  ipfs_at_key-covered q subpath p r same m = rw (
    check-covered dl.ipfs_blocks_db (L.b58 (L.hash c)) e (L.b58 (L.hash q)) subpath (ap L.b58 same)
        m,
    is_hit-rule e,
  )

  ipfs_at_key_other :
      (q : Cid) (subpath : Bytes) (p : IpfsPath) (r : Result Cid)
      → (L.b58 (L.hash q) ≢ L.b58 (L.hash c)) ⊎ (matches e.path subpath ≡ false)
      → ipfs_at_key L (add_ipfs_entry L dl c e) order (L.b58 (L.hash q)) subpath p r
        ≡ ipfs_at_key L dl order (L.b58 (L.hash q)) subpath p r
  ipfs_at_key_other q subpath p r h = rw (
    check_other dl.ipfs_blocks_db (L.b58 (L.hash c)) e (L.b58 (L.hash q)) subpath h,
    ipfs_past_direct-SameHashes L add_ipfs_entry-SameHashes order subpath p r,
  )

-- Both ways to the key of a CID lead to its base58 multihash.
module _ (L : Libs) (law : CidV0Law L) (dl : Denylist) (order : List ℕ) where
  pub is_ipfs_ipld_path_blocked-key :
      (text subpath protocol : Bytes) (q : Cid) (p : IpfsPath)
      → L.decode_cid text ≡ ok q
      → L.new_path (full_path protocol text (trim_prefix subpath (codes "/"))) ≡ ok p
      → is_ipfs_ipld_path_blocked L dl order text subpath protocol
        ≡ ipfs_at_key L dl order (L.b58 (L.hash q)) (trim_prefix subpath (codes "/")) p (ok q)
  unfolding is_ipfs_ipld_path_blocked
  is_ipfs_ipld_path_blocked-key text subpath protocol q p d n = elim (Bool-cases (is_cid_v0 text)) [
    | inl v0 ↦ rw (n, v0, d, law text q v0 d)
    | inr other ↦ rw (n, other, d)
  ]

-- A rule for a CID and the query for the content of its paths.
module _ (L : Libs) (law : CidV0Law L) (dl : Denylist) (order : List ℕ) (c : Cid) (e : Entry)
    (text subpath protocol : Bytes) (q : Cid) (p : IpfsPath) (d : L.decode_cid text ≡ ok q)
    (k : L.new_path (full_path protocol text (trim_prefix subpath (codes "/"))) ≡ ok p) where
  content_covered :
      L.hash q ≡ L.hash c
      → matches e.path (trim_prefix subpath (codes "/")) ≡ true
      → is_ipfs_ipld_path_blocked L (add_ipfs_entry L dl c e) order text subpath protocol
        ≡ respond dl none (some p) (rule_status e, e, none)
  content_covered same covered =
      is_ipfs_ipld_path_blocked-key L law (add_ipfs_entry L dl c e) order text subpath protocol q p
        d k
      ∙ ipfs_at_key-covered L dl order c e q _ p (ok q) same covered

  content_other :
      (L.b58 (L.hash q) ≢ L.b58 (L.hash c))
        ⊎ (matches e.path (trim_prefix subpath (codes "/")) ≡ false)
      → is_ipfs_ipld_path_blocked L (add_ipfs_entry L dl c e) order text subpath protocol
        ≡ is_ipfs_ipld_path_blocked L dl order text subpath protocol
  content_other h =
      is_ipfs_ipld_path_blocked-key L law (add_ipfs_entry L dl c e) order text subpath protocol q p
        d k
      ∙ ipfs_at_key_other L dl order c e q _ p (ok q) h
      ∙ sym (is_ipfs_ipld_path_blocked-key L law dl order text subpath protocol q p d k)

-- It says nothing of a path alone.
is_subpath_blocked-add_ipfs_entry :
    (L : Libs) (dl : Denylist) (c : Cid) (e : Entry) (subpath : Bytes)
    → is_subpath_blocked (add_ipfs_entry L dl c e) subpath ≡ is_subpath_blocked dl subpath
unfolding is_subpath_blocked
is_subpath_blocked-add_ipfs_entry L dl c e subpath = refl

Undecided-add_ipfs_entry :
    (L : Libs) (dl : Denylist) (c : Cid) (e : Entry) (subpath : Bytes)
    → Undecided dl subpath
    → Undecided (add_ipfs_entry L dl c e) subpath
unfolding is_subpath_blocked
Undecided-add_ipfs_entry L dl c e subpath u = u

pub matches_empty : (b : BlockedPath) → new_blocked_path [] ≡ ok b → matches b [] ≡ true
unfolding new_blocked_path bytes_eqb matches sanitize trim_suffix trim_prefix strip_suffix
    strip_prefix
matches_empty b h = ground arith

pub empty_path : new_blocked_path [] ≡ ok zero_path
unfolding new_blocked_path bytes_eqb
empty_path = refl

-- A line that is a rule for a CID, with or without a mark, is read with no error when the name of the
-- CID is printable, not empty and without a slash, and the CID parses and is not one of the safe
-- ones. Then every CID with its multihash is blocked, or allowed if the
-- rule has a mark, whatever was read before and in whatever order the maps are ranged over; and
-- every CID with another base58 multihash gets the response that it got before.
pub cid_rule_decides :
    (L : Libs) (dl : Denylist) (order : List ℕ) (m : Mark) (name : Bytes) (number : ℕ) (c : Cid)
    → IsName name
    → L.decode_cid name ≡ ok c
    → is_safe L c ≡ false
    → (dl' : Denylist) × (parse_line L dl (ipfs_line m name none) number ≡ returned dl' none)
      × ((q : Cid) → L.hash q ≡ L.hash c → (is_cid_blocked L dl' order q).status ≡ mark_status m)
      × ((q : Cid)
          → L.b58 (L.hash q) ≢ L.b58 (L.hash c)
          → is_cid_blocked L dl' order q ≡ is_cid_blocked L dl order q)
cid_rule_decides L dl order m name number c n decodes other =
    let e = ipfs_entry L dl m name none number c zero_path in
    (
      add_ipfs_entry L dl c e,
      parse_line-ipfs_line L dl m name none number c zero_path n tt decodes other empty_path,
      λ q same.
          ap (λ (r : StatusResponse). r.status)
            (is_cid_blocked-covered L dl order c e q same (matches_empty zero_path empty_path)),
      λ q differs. is_cid_blocked_other L dl order c e q (inl differs),
    )

-- A line that is a rule for a CID and a printable subpath, with or without a mark, is read with no
-- error when the name of the CID is printable, not empty and without a slash, the CID parses and is
-- not one of the safe ones, and the subpath makes a rule path `b`. Then `isIPFSIPLDPathBlocked`, for
-- whatever protocol it is called, blocks, or allows if the rule has a mark, each CID with that
-- multihash and subpath that `b` matches, and answers as before for one with another base58
-- multihash or a subpath that `b` does not match. And `IsPathBlocked` does the same for `/ipfs/` and
-- `/ipld/` paths: it blocks, or allows, where no rule for a path alone says anything of the subpath,
-- and answers as before for the others. The paths and their CIDs must parse, and the text of a CIDv0
-- be its base58 multihash.
pub path_rule_decides :
    (L : Libs) (law : CidV0Law L) (dl : Denylist) (order : List ℕ) (m : Mark) (name : Bytes)
    (sub : Bytes) (number : ℕ) (c : Cid) (b : BlockedPath)
    → IsName name
    → IsVisible sub
    → L.decode_cid name ≡ ok c
    → is_safe L c ≡ false
    → new_blocked_path sub ≡ ok b
    → (dl' : Denylist) × (parse_line L dl (ipfs_line m name (some sub)) number ≡ returned dl' none)
      × ((text subpath protocol : Bytes) (q : Cid) (p : IpfsPath)
          → L.decode_cid text ≡ ok q
          → L.new_path (full_path protocol text (trim_prefix subpath (codes "/"))) ≡ ok p
          → L.hash q ≡ L.hash c
          → matches b (trim_prefix subpath (codes "/")) ≡ true
          → (is_ipfs_ipld_path_blocked L dl' order text subpath protocol).status ≡ mark_status m)
      × ((text subpath protocol : Bytes) (q : Cid) (p : IpfsPath)
          → L.decode_cid text ≡ ok q
          → L.new_path (full_path protocol text (trim_prefix subpath (codes "/"))) ≡ ok p
          → (L.b58 (L.hash q) ≢ L.b58 (L.hash c))
            ⊎ (matches b (trim_prefix subpath (codes "/")) ≡ false)
          → is_ipfs_ipld_path_blocked L dl' order text subpath protocol
            ≡ is_ipfs_ipld_path_blocked L dl order text subpath protocol)
      × ((path : IpfsPath) (proto text subpath : Bytes) (q : Cid) (p : IpfsPath)
          → Segments path proto text subpath
          → IsContent proto
          → L.decode_cid text ≡ ok q
          → L.new_path (full_path proto text (trim_prefix subpath (codes "/"))) ≡ ok p
          → (Undecided dl subpath
              → L.hash q ≡ L.hash c
              → matches b (trim_prefix subpath (codes "/")) ≡ true
              → (is_path_blocked L dl' order path).status ≡ mark_status m)
            × ((L.b58 (L.hash q) ≢ L.b58 (L.hash c))
                  ⊎ (matches b (trim_prefix subpath (codes "/")) ≡ false)
                → is_path_blocked L dl' order path ≡ is_path_blocked L dl order path))
path_rule_decides L law dl order m name sub number c b n v decodes other path =
    let e = ipfs_entry L dl m name (some sub) number c b in
    let dl' = add_ipfs_entry L dl c e in
    (
      dl',
      parse_line-ipfs_line L dl m name (some sub) number c b n v decodes other path,
      λ text subpath protocol q p d k same covered.
          ap (λ (r : StatusResponse). r.status)
            (content_covered L law dl order c e text subpath protocol q p d k same covered),
      content_other L law dl order c e,
      λ path proto text subpath q p segs content d k. (
        λ u same covered.
            ap (λ (r : StatusResponse). r.status)
              (is_path_blocked-content L order dl' path proto text subpath segs content
                  (Undecided-add_ipfs_entry L dl c e subpath u)
                ∙ content_covered L law dl order c e text subpath proto q p d k same covered),
        λ h.
            is_path_blocked-agree L order dl dl' path proto text subpath segs content
              (is_subpath_blocked-add_ipfs_entry L dl c e subpath)
              (content_other L law dl order c e text subpath proto q p d k h),
      ),
    )
