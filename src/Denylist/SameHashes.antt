-- ===== src/Denylist/SameHashes.antt =====
-- Denylists that give the same answers by double hash.
use nopfs.Prelude.{
  nat_eq, bytes_eq, ℕ, ◌≡◌, refl, sym, ◌∙◌, List, [], ◌∷◌, Option, none, some, Bytes, Result, ok,
  err,
}
use nopfs.Prelude.GoMap.{get}
use nopfs.Libs.{Libs, Cid, IpfsPath}
use nopfs.Entry.{check_path_status, scan}
use nopfs.BlocksDb.{BlocksDb, load}
use nopfs.Denylist.{Denylist}
use nopfs.Denylist.Rules.{blocks_of}
use nopfs.Denylist.Lookup.{
  sum_status, status_at, nothing, check_double_hash, check_double_hash_with_fn,
  double_hash_response, cid_double_hash, ipfs_double_hash, ipns_double_hash, ipfs_past_direct,
  legacy_text,
}

-- The denylists have the same entries for each double hash.
pub record SameHashes (dl dl' : Denylist) : Type 0 where
  pub hashes :
      (code : ℕ) (k : Bytes)
      → (load (blocks_of (get dl'.double_hash_blocks_db code)) k).0
        ≡ (load (blocks_of (get dl.double_hash_blocks_db code)) k).0
  pub names : dl'.filename ≡ dl.filename

module _ (L : Libs) where
  nothing-sum_status : (r : Result Bytes) → nothing ≡ sum_status L [] r
  unfolding load get check_path_status scan
  nothing-sum_status (err e) = refl
  nothing-sum_status (ok h) = refl

  -- An index that is missing answers as an empty one.
  pub status_at-blocks_of :
      (o : Option BlocksDb) (key : Bytes) (code : ℕ)
      → status_at L o key code ≡ sum_status L (blocks_of o) (L.sum key code)
  status_at-blocks_of none key code = nothing-sum_status (L.sum key code)
  status_at-blocks_of (some blocks) key code = refl

  sum_status_cong :
      (db db' : BlocksDb) (r : Result Bytes)
      → ((k : Bytes) → (load db' k).0 ≡ (load db k).0)
      → sum_status L db' r ≡ sum_status L db r
  sum_status_cong db db' (err e) same = refl
  sum_status_cong db db' (ok h) same = rw (same (L.b58 h))

module _ (L : Libs) {dl dl' : Denylist} (s : SameHashes dl dl') where
  pub with_fn-SameHashes :
      (key : Bytes) (code : ℕ)
      → check_double_hash_with_fn L dl' key code ≡ check_double_hash_with_fn L dl key code
  unfolding check_double_hash_with_fn
  with_fn-SameHashes key code =
      status_at-blocks_of L (get dl'.double_hash_blocks_db code) key code
      ∙ sum_status_cong L _ _ (L.sum key code) (s.hashes code)
      ∙ sym (status_at-blocks_of L (get dl.double_hash_blocks_db code) key code)

  pub check_double_hash-SameHashes :
      (order : List ℕ) (key : Bytes)
      → check_double_hash L dl' order key ≡ check_double_hash L dl order key
  unfolding check_double_hash
  check_double_hash-SameHashes [] key = refl
  check_double_hash-SameHashes (code ∷ order) key =
      rw (with_fn-SameHashes key code, check_double_hash-SameHashes order key)

  pub double_hash_response-SameHashes :
      (order : List ℕ) (c : Option Cid) (p : Option IpfsPath) (legacy key : Bytes)
      → double_hash_response L dl' order c p legacy key
        ≡ double_hash_response L dl order c p legacy key
  unfolding double_hash_response
  double_hash_response-SameHashes order c p legacy key =
      rw (with_fn-SameHashes legacy L.sha2_256, check_double_hash-SameHashes order key, s.names)

  pub cid_double_hash-SameHashes :
      (order : List ℕ) (c : Cid) (r : Result Bytes)
      → cid_double_hash L dl' order c r ≡ cid_double_hash L dl order c r
  cid_double_hash-SameHashes order c (ok b32) = double_hash_response-SameHashes order _ _ _ _
  cid_double_hash-SameHashes order c (err e) = rw s.names

  pub ipfs_double_hash-SameHashes :
      (order : List ℕ) (subpath : Bytes) (p : IpfsPath) (c : Cid) (r : Result Bytes)
      → ipfs_double_hash L dl' order subpath p c r ≡ ipfs_double_hash L dl order subpath p c r
  ipfs_double_hash-SameHashes order subpath p c (ok v1) =
      double_hash_response-SameHashes order _ _ _ _
  ipfs_double_hash-SameHashes order subpath p c (err e) = rw s.names

  pub ipns_double_hash-SameHashes :
      (order : List ℕ) (subpath : Bytes) (p : IpfsPath) (c : Option Cid) (r : Result Bytes)
      → ipns_double_hash L dl' order subpath p c r ≡ ipns_double_hash L dl order subpath p c r
  ipns_double_hash-SameHashes order subpath p c (ok key) =
      double_hash_response-SameHashes order _ _ _ _
  ipns_double_hash-SameHashes order subpath p c (err e) = rw s.names

  pub ipfs_past_direct-SameHashes :
      (order : List ℕ) (subpath : Bytes) (p : IpfsPath) (r : Result Cid)
      → ipfs_past_direct L dl' order subpath p r ≡ ipfs_past_direct L dl order subpath p r
  ipfs_past_direct-SameHashes order subpath p (ok c) =
      ipfs_double_hash-SameHashes order subpath p c (legacy_text L c)
  ipfs_past_direct-SameHashes order subpath p (err e) = rw s.names
