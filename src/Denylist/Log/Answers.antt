-- ===== src/Denylist/Log/Answers.antt =====
-- Denylists that hold the same rules give the same answers.
use nopfs.Prelude.{ℕ, ◌≡◌, List, Bytes, nat_eq, bytes_eq}
use nopfs.Libs.{Libs, Cid, IpfsPath}
use nopfs.Denylist.{Denylist}
use nopfs.Denylist.SameHashes.{SameHashes, cid_double_hash-SameHashes}
use nopfs.Denylist.SameNames.{SameNames, subpath_of, is_segments_blocked-SameNames}
use nopfs.Denylist.Lookup.{is_cid_blocked, is_path_blocked, is_subpath_blocked, legacy_text}
use nopfs.Denylist.Log.{Reader, by_cid, by_name, by_hash, by_path, by_paths}
use nopfs.Denylist.Log.Adds.{index}

-- The denylists have the same rules for every reader, and the same name.
pub record SameRules (dl dl' : Denylist) : Type 0 where
  pub rules : (r : Reader) → index r dl' ≡ index r dl
  pub names : dl'.filename ≡ dl.filename

module _ {dl dl' : Denylist} (s : SameRules dl dl') where
  SameRules-SameHashes : SameHashes dl dl'
  SameRules-SameHashes = record { hashes = λ code k. s.rules (by_hash code k); names = s.names }

  SameRules-SameNames : SameNames dl dl'
  SameRules-SameNames = record {
    hashes = SameRules-SameHashes;
    ipfs = λ k. s.rules (by_cid k);
    ipns = λ k. s.rules (by_name k);
  }

  is_subpath_blocked-SameRules :
      (subpath : Bytes) → is_subpath_blocked dl' subpath ≡ is_subpath_blocked dl subpath
  unfolding is_subpath_blocked
  is_subpath_blocked-SameRules subpath = rw (s.rules (by_path subpath), s.rules by_paths, s.names)

  is_cid_blocked-SameRules :
      (L : Libs) (order : List ℕ) (c : Cid)
      → is_cid_blocked L dl' order c ≡ is_cid_blocked L dl order c
  unfolding is_cid_blocked
  is_cid_blocked-SameRules L order c = rw (
    s.rules (by_cid (L.b58 (L.hash c))),
    cid_double_hash-SameHashes L SameRules-SameHashes order c (legacy_text L c),
    s.names,
  )

  is_path_blocked-SameRules :
      (L : Libs) (order : List ℕ) (p : IpfsPath)
      → is_path_blocked L dl' order p ≡ is_path_blocked L dl order p
  unfolding is_path_blocked
  is_path_blocked-SameRules L order p =
      is_segments_blocked-SameNames L SameRules-SameNames order p p.segments
        (is_subpath_blocked-SameRules (subpath_of p.segments))

-- The answers depend on the rules alone: two denylists that hold the same rules for every reader, in
-- the same order, and have the same name, give the same response for every CID and every path,
-- whatever their headers, their lists of entries and their indexes are otherwise.
pub SameRules-answer :
    (L : Libs) (dl dl' : Denylist)
    → SameRules dl dl'
    → (order : List ℕ)
    → ((c : Cid) → is_cid_blocked L dl' order c ≡ is_cid_blocked L dl order c)
      × ((p : IpfsPath) → is_path_blocked L dl' order p ≡ is_path_blocked L dl order p)
SameRules-answer L dl dl' s order =
    (is_cid_blocked-SameRules s L order, is_path_blocked-SameRules s L order)
