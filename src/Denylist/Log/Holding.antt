-- ===== src/Denylist/Log/Holding.antt =====
-- What a denylist answers that holds the rules of a log.
use nopfs.Prelude.{ℕ, ◌≡◌, ◌⊎◌, inl, inr, ◌∙◌, true, List, [], none, some, Bytes, codes, Result, ok}
use nopfs.Libs.{Libs, Cid, IpfsPath}
use nopfs.Text.{trim_prefix}
use nopfs.Entry.{Entry, Status}
use nopfs.Entry.Deciding.{NoMatch, Verdict, check_path_status_iff}
use nopfs.Denylist.{Denylist}
use nopfs.Denylist.Blocking.{CidV0Law, is_ipfs_ipld_path_blocked-key}
use nopfs.Denylist.Lookup.{
  decoded, ipns_lookup_key, is_ipns_path_blocked, is_hit, nothing, respond, full_path, legacy_text,
  ipfs_at_key, is_cid_blocked, is_ipfs_ipld_path_blocked, is_path_blocked, is_subpath_blocked,
}
use nopfs.Denylist.Protocols.{
  Segments, IsContent, Undecided, is_path_blocked-content, is_path_blocked-name,
}
use nopfs.Denylist.Log.{Rule, Reader, by_cid, by_name, by_hash, by_path, by_paths, pick}
use nopfs.Denylist.Log.Adds.{index}
use nopfs.Denylist.Log.Silence.{check-NoMatch, Quiet, is_cid_blocked-Quiet}

-- The denylist holds these rules and no others.
abbrev pub Holds : Denylist → List Rule → Type 0
Holds dl rules = (r : Reader) → index r dl ≡ pick r rules

-- There is no subpath, or no rule for a path alone matches it.
abbrev pub NoPathRule : List Rule → Bytes → Type 0
NoPathRule rules sub =
    (sub ≡ []) ⊎ (NoMatch (pick (by_path sub) rules) sub × NoMatch (pick by_paths rules) sub)

module _ (L : Libs) (dl : Denylist) (rules : List Rule) (holds : Holds dl rules)
    (order : List ℕ) where
  pub Holds-is_cid_blocked :
      (c : Cid) (s : Status) (e : Entry)
      → Verdict (pick (by_cid (L.b58 (L.hash c))) rules) [] (s, e)
      → is_hit s ≡ true
      → is_cid_blocked L dl order c ≡ respond dl (some c) none (s, e, none)
  unfolding is_cid_blocked
  Holds-is_cid_blocked c s e v hit =
      rw (holds (by_cid (L.b58 (L.hash c))), (check_path_status_iff _ [] (s, e)).1 v, hit)

  ipfs_at_key-Holds :
      (key subpath : Bytes) (p : IpfsPath) (q : Result Cid) (s : Status) (e : Entry)
      → Verdict (pick (by_cid key) rules) subpath (s, e)
      → is_hit s ≡ true
      → ipfs_at_key L dl order key subpath p q ≡ respond dl none (some p) (s, e, none)
  ipfs_at_key-Holds key subpath p q s e v hit =
      rw (holds (by_cid key), (check_path_status_iff _ subpath (s, e)).1 v, hit)

  -- Every query for a path of a CID looks at the rules for its multihash first.
  pub Holds-path :
      (law : CidV0Law L) (text subpath protocol : Bytes) (q : Cid) (p : IpfsPath) (s : Status)
      (e : Entry)
      → L.decode_cid text ≡ ok q
      → L.new_path (full_path protocol text (trim_prefix subpath (codes "/"))) ≡ ok p
      → Verdict (pick (by_cid (L.b58 (L.hash q))) rules) (trim_prefix subpath (codes "/")) (s, e)
      → is_hit s ≡ true
      → is_ipfs_ipld_path_blocked L dl order text subpath protocol
        ≡ respond dl none (some p) (s, e, none)
  Holds-path law text subpath protocol q p s e d k v hit =
      is_ipfs_ipld_path_blocked-key L law dl order text subpath protocol q p d k
      ∙ ipfs_at_key-Holds (L.b58 (L.hash q)) (trim_prefix subpath (codes "/")) p (ok q) s e v hit

  pub Holds-name :
      (name subpath : Bytes) (p : IpfsPath) (s : Status) (e : Entry)
      → L.new_path (full_path (codes "ipns") name (trim_prefix subpath (codes "/"))) ≡ ok p
      → Verdict
          (pick (by_name (ipns_lookup_key L name (decoded (L.decode_cid name)))) rules)
          (trim_prefix subpath (codes "/"))
          (s, e)
      → is_hit s ≡ true
      → is_ipns_path_blocked L dl order name subpath ≡ respond dl none (some p) (s, e, none)
  unfolding is_ipns_path_blocked
  Holds-name name subpath p s e k v hit = rw (
    k,
    holds (by_name (ipns_lookup_key L name (decoded (L.decode_cid name)))),
    (check_path_status_iff _ (trim_prefix subpath (codes "/")) (s, e)).1 v,
    hit,
  )

  NoPathRule-Undecided : (sub : Bytes) → NoPathRule rules sub → Undecided dl sub
  unfolding is_subpath_blocked
  NoPathRule-Undecided sub (inl empty) = inl empty
  NoPathRule-Undecided sub (inr (exact, wild)) = inr (
      rw (holds (by_path sub), check-NoMatch _ sub exact, holds by_paths, check-NoMatch _ sub wild))

  -- `IsPathBlocked` asks the same rules, where no rule for a path alone speaks of the subpath.
  pub Holds-content :
      (law : CidV0Law L) (path : IpfsPath) (proto text subpath : Bytes) (q : Cid) (p : IpfsPath)
      (s : Status) (e : Entry)
      → Segments path proto text subpath
      → IsContent proto
      → NoPathRule rules subpath
      → L.decode_cid text ≡ ok q
      → L.new_path (full_path proto text (trim_prefix subpath (codes "/"))) ≡ ok p
      → Verdict (pick (by_cid (L.b58 (L.hash q))) rules) (trim_prefix subpath (codes "/")) (s, e)
      → is_hit s ≡ true
      → is_path_blocked L dl order path ≡ respond dl none (some p) (s, e, none)
  Holds-content law path proto text subpath q p s e segs content quiet d k v hit =
      is_path_blocked-content L order dl path proto text subpath segs content
        (NoPathRule-Undecided subpath quiet)
      ∙ Holds-path law text subpath proto q p s e d k v hit

  pub Holds-ipns :
      (path : IpfsPath) (name subpath : Bytes) (p : IpfsPath) (s : Status) (e : Entry)
      → Segments path (codes "ipns") name subpath
      → NoPathRule rules subpath
      → L.new_path (full_path (codes "ipns") name (trim_prefix subpath (codes "/"))) ≡ ok p
      → Verdict
          (pick (by_name (ipns_lookup_key L name (decoded (L.decode_cid name)))) rules)
          (trim_prefix subpath (codes "/"))
          (s, e)
      → is_hit s ≡ true
      → is_path_blocked L dl order path ≡ respond dl none (some p) (s, e, none)
  Holds-ipns path name subpath p s e segs quiet k v hit =
      is_path_blocked-name L order dl path name subpath segs (NoPathRule-Undecided subpath quiet)
      ∙ Holds-name name subpath p s e k v hit

  pub Holds-Quiet :
      (c : Cid) (b32 : Bytes)
      → legacy_text L c ≡ ok b32
      → Quiet L (λ r. pick r rules) c b32
      → is_cid_blocked L dl order c ≡ respond dl (some c) none nothing
  Holds-Quiet c b32 text q = is_cid_blocked-Quiet L dl order c b32 text (record {
    direct = rw (holds (by_cid (L.b58 (L.hash c)))) q.direct;
    legacy = λ code h sum. rw (holds (by_hash code (L.b58 h))) (q.legacy code h sum);
    modern = λ code h sum. rw (holds (by_hash code (L.b58 h))) (q.modern code h sum);
  })
