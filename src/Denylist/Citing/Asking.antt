-- ===== src/Denylist/Citing/Asking.antt =====
-- The rules that a query for a path asks.
use nopfs.Prelude.{◌≡◌, ◌⊎◌, ◌++◌, ◌∷◌, List, true, Bytes, codes, ok}
use nopfs.Libs.{Libs, Cid, IpfsPath}
use nopfs.Text.{trim_prefix, join}
use nopfs.Status.{StatusResponse}
use nopfs.Denylist.{Denylist}
use nopfs.Denylist.Lookup.{
  legacy_text, full_path, with_subpath, is_cid_v0, decoded, ipns_lookup_key, ipns_legacy_key,
  ipns_modern_key,
}
use nopfs.Denylist.Log.{Reader, by_cid, by_name, by_path, by_paths}
use nopfs.Denylist.Log.Adds.{index}
use nopfs.Denylist.Citing.{Cites, checked}
use nopfs.Denylist.Citing.Hashes.{AsksHashes}

-- What is asked on the path behind the name or the CID alone.
pub data AsksSubpath (subpath : Bytes) (r : Reader) (q : Bytes) : Type 0 where
  of_path : r ≡ by_path subpath → q ≡ subpath → AsksSubpath subpath r q
  of_paths : r ≡ by_paths → q ≡ subpath → AsksSubpath subpath r q

-- What is asked on a path behind an IPNS name: the rules for the name's key, and double hashes.
pub data AsksName (L : Libs) (name subpath : Bytes) (r : Reader) (q : Bytes) : Type 0 where
  of_name :
      r ≡ by_name (ipns_lookup_key L name (decoded (L.decode_cid name)))
      → q ≡ subpath
      → AsksName L name subpath r q
  of_name_hash :
      (p : IpfsPath) (legacy : Bytes)
      → L.new_path (full_path (codes "ipns") name subpath) ≡ ok p
      → ipns_legacy_key L name subpath (decoded (L.decode_cid name)) ≡ ok legacy
      → AsksHashes L legacy (ipns_modern_key L subpath p (decoded (L.decode_cid name))) r q
      → AsksName L name subpath r q

-- What is asked on a path behind a CID: the rules for its multihash, and double hashes.
pub data AsksContent (L : Libs) (text subpath : Bytes) (r : Reader) (q : Bytes) : Type 0 where
  of_text : is_cid_v0 text ≡ true → r ≡ by_cid text → q ≡ subpath → AsksContent L text subpath r q
  of_cid :
      (c : Cid)
      → L.decode_cid text ≡ ok c
      → r ≡ by_cid (L.b58 (L.hash c))
      → q ≡ subpath
      → AsksContent L text subpath r q
  of_cid_hash :
      (c : Cid) (v1b32 : Bytes)
      → L.decode_cid text ≡ ok c
      → legacy_text L c ≡ ok v1b32
      → AsksHashes L (v1b32 ++ (codes "/" ++ subpath)) (with_subpath (L.b58 (L.hash c)) subpath) r q
      → AsksContent L text subpath r q

-- What is asked on a path.
pub data AsksPath (L : Libs) (p : IpfsPath) (r : Reader) (q : Bytes) : Type 0 where
  any_protocol :
      (proto key : Bytes) (rest : List Bytes)
      → p.segments ≡ proto ∷ key ∷ rest
      → AsksSubpath (join rest (codes "/")) r q
      → AsksPath L p r q
  ipns :
      (key : Bytes) (rest : List Bytes)
      → p.segments ≡ codes "ipns" ∷ key ∷ rest
      → AsksName L key (trim_prefix (join rest (codes "/")) (codes "/")) r q
      → AsksPath L p r q
  ipfs_or_ipld :
      (proto key : Bytes) (rest : List Bytes)
      → p.segments ≡ proto ∷ key ∷ rest
      → (proto ≡ codes "ipfs") ⊎ (proto ≡ codes "ipld")
      → AsksContent L key (trim_prefix (join rest (codes "/")) (codes "/")) r q
      → AsksPath L p r q

-- The response on a query that asks this.
abbrev pub CitesIn : Denylist → (Reader → Bytes → Type 0) → StatusResponse → Type 0
CitesIn dl Asks r = Cites (λ (reader : Reader). index reader dl) Asks (checked r)
