-- ===== src/Denylist/SameNames.antt =====
-- Denylists that differ in their rules for paths alone.
use nopfs.Prelude.{bytes_eq, ℕ, ◌≡◌, refl, List, [], ◌∷◌, Option, Bytes, codes, Result, ok, err}
use nopfs.Libs.{Libs, Cid, IpfsPath}
use nopfs.Text.{join}
use nopfs.BlocksDb.{load}
use nopfs.Denylist.{Denylist}
use nopfs.Denylist.SameHashes.{SameHashes, ipns_double_hash-SameHashes, ipfs_past_direct-SameHashes}
use nopfs.Denylist.Lookup.{
  ipns_lookup_key, ipns_legacy_key, ipns_at_path, is_ipns_path_blocked, ipfs_at_key, ipfs_by_cid,
  ipfs_at_path, is_ipfs_ipld_path_blocked, is_ipfs_path_blocked, is_ipld_path_blocked,
  is_protocol_blocked, is_segments_blocked, is_subpath_blocked,
}

-- The denylists differ in their rules for paths alone, and in their list of entries.
pub record SameNames (dl dl' : Denylist) : Type 0 where
  pub hashes : SameHashes dl dl'
  pub ipfs : (k : Bytes) → (load dl'.ipfs_blocks_db k).0 ≡ (load dl.ipfs_blocks_db k).0
  pub ipns : (k : Bytes) → (load dl'.ipns_blocks_db k).0 ≡ (load dl.ipns_blocks_db k).0

-- The subpath that a path is asked for.
abbrev pub subpath_of : List Bytes → Bytes
subpath_of (proto ∷ key ∷ rest) = join rest (codes "/")
subpath_of _ = []

module _ (L : Libs) {dl dl' : Denylist} (s : SameNames dl dl') (order : List ℕ) where
  ipns_at_path-SameNames :
      (name subpath : Bytes) (c : Option Cid) (p : Result IpfsPath)
      → ipns_at_path L dl' order name subpath c p ≡ ipns_at_path L dl order name subpath c p
  ipns_at_path-SameNames name subpath c (err e) = refl
  ipns_at_path-SameNames name subpath c (ok p) = rw (
    ipns_double_hash-SameHashes L s.hashes order subpath p c (ipns_legacy_key L name subpath c),
    s.ipns (ipns_lookup_key L name c),
    s.hashes.names,
  )

  ipfs_at_key-SameNames :
      (key subpath : Bytes) (p : IpfsPath) (c : Result Cid)
      → ipfs_at_key L dl' order key subpath p c ≡ ipfs_at_key L dl order key subpath p c
  ipfs_at_key-SameNames key subpath p c =
      rw (ipfs_past_direct-SameHashes L s.hashes order subpath p c, s.ipfs key, s.hashes.names)

  ipfs_by_cid-SameNames :
      (subpath : Bytes) (p : IpfsPath) (c : Result Cid)
      → ipfs_by_cid L dl' order subpath p c ≡ ipfs_by_cid L dl order subpath p c
  ipfs_by_cid-SameNames subpath p (err e) = rw s.hashes.names
  ipfs_by_cid-SameNames subpath p (ok c) = ipfs_at_key-SameNames (L.b58 (L.hash c)) subpath p (ok c)

  ipfs_at_path-SameNames :
      (cid_str subpath : Bytes) (p : Result IpfsPath)
      → ipfs_at_path L dl' order cid_str subpath p ≡ ipfs_at_path L dl order cid_str subpath p
  ipfs_at_path-SameNames cid_str subpath (err e) = refl
  ipfs_at_path-SameNames cid_str subpath (ok p) = rw (
    ipfs_at_key-SameNames cid_str subpath p (L.decode_cid cid_str),
    ipfs_by_cid-SameNames subpath p (L.decode_cid cid_str),
  )

  is_ipfs_ipld_path_blocked-SameNames :
      (key subpath protocol : Bytes)
      → is_ipfs_ipld_path_blocked L dl' order key subpath protocol
        ≡ is_ipfs_ipld_path_blocked L dl order key subpath protocol
  unfolding is_ipfs_ipld_path_blocked
  is_ipfs_ipld_path_blocked-SameNames key subpath protocol = ipfs_at_path-SameNames key _ _

  is_ipns_path_blocked-SameNames :
      (key subpath : Bytes)
      → is_ipns_path_blocked L dl' order key subpath ≡ is_ipns_path_blocked L dl order key subpath
  unfolding is_ipns_path_blocked
  is_ipns_path_blocked-SameNames key subpath = ipns_at_path-SameNames key _ _ _

  is_protocol_blocked-SameNames :
      (p : IpfsPath) (proto key subpath : Bytes)
      → is_protocol_blocked L dl' order p proto key subpath
        ≡ is_protocol_blocked L dl order p proto key subpath
  unfolding is_protocol_blocked is_ipfs_path_blocked is_ipld_path_blocked
  is_protocol_blocked-SameNames p proto key subpath = rw (
    is_ipns_path_blocked-SameNames key subpath,
    is_ipfs_ipld_path_blocked-SameNames key subpath (codes "ipfs"),
    is_ipfs_ipld_path_blocked-SameNames key subpath (codes "ipld"),
    s.hashes.names,
  )

  -- Paths whose subpath the rules for paths alone treat the same get the same response.
  pub is_segments_blocked-SameNames :
      (p : IpfsPath) (segments : List Bytes)
      → is_subpath_blocked dl' (subpath_of segments) ≡ is_subpath_blocked dl (subpath_of segments)
      → is_segments_blocked L dl' order p segments ≡ is_segments_blocked L dl order p segments
  unfolding is_segments_blocked
  is_segments_blocked-SameNames p [] h = rw s.hashes.names
  is_segments_blocked-SameNames p (a ∷ []) h = rw s.hashes.names
  is_segments_blocked-SameNames p (proto ∷ key ∷ rest) h =
      rw (h, is_protocol_blocked-SameNames p proto key (join rest (codes "/")))
