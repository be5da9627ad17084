-- ===== src/Denylist/Lookup.antt =====
-- The queries of a denylist; those of double hashes are in Hashes.
mod Hashes
unfoldable pub use Hashes.*
use nopfs.Prelude.{
  ℕ, Bool, true, false, not, ◌&&◌, List, [], ◌∷◌, ◌++◌, Option, none, some, Bytes, codes, nat_eq,
  bytes_eq, nat_eqb, bytes_eqb, length, if◌then◌else◌, Error, path_too_short, Result, ok, err,
  ◌>>=◌,
}
use nopfs.Prelude.GoMap.{get}
use nopfs.Libs.{Libs, Cid, IpfsPath}
use nopfs.Text.{has_prefix, trim_prefix, contains_byte, join}
use nopfs.Entry.{Entry, Status, not_found, blocked, allowed, errored, zero_entry, check_path_status}
use nopfs.BlocksDb.{BlocksDb, load}
use nopfs.Status.{StatusResponse, blank_response}
use nopfs.Denylist.{Denylist}
use nopfs.Denylist.Dnslink.{to_dnslink_fqdn}

abbrev pub answer : Denylist → Status × Entry → StatusResponse
answer dl (status, entry) = record blank_response {
  status = status;
  filename = dl.filename;
  entry = entry;
}

unfoldable pub is_subpath_blocked : Denylist → Bytes → StatusResponse
is_subpath_blocked dl subpath =
    let (path_block_entries, _) = load dl.path_blocks_db subpath in
    let first = check_path_status path_block_entries subpath in
    if is_hit first.0
    then answer dl first
    else answer dl (check_path_status dl.path_prefix_blocks subpath)

-- `/protocol/name`, with the subpath if there is one.
abbrev pub full_path : Bytes → Bytes → Bytes → Bytes
full_path protocol name subpath =
    if bytes_eqb subpath []
    then codes "/" ++ (protocol ++ (codes "/" ++ name))
    else codes "/" ++ (protocol ++ (codes "/" ++ (name ++ (codes "/" ++ subpath))))

-- A key with the subpath behind it, if there is one.
abbrev pub with_subpath : Bytes → Bytes → Bytes
with_subpath key subpath = if bytes_eqb subpath [] then key else key ++ (codes "/" ++ subpath)

-- `len(key) != 46 || key[:2] != "Qm"`, negated.
unfoldable pub is_cid_v0 : Bytes → Bool
is_cid_v0 key = nat_eqb (length key) 46 && has_prefix key (codes "Qm")

abbrev pub error_response : Bytes → Option Cid → Option IpfsPath → Error → StatusResponse
error_response filename c p error = record {
  cid = c;
  path = p;
  status = errored;
  filename = filename;
  entry = zero_entry;
  error = some error;
}

abbrev pub decoded : Result Cid → Option Cid
decoded (ok c) = some c
decoded (err _) = none

module _ (L : Libs) where
  -- IPNS.
  abbrev pub ipns_lookup_key : Bytes → Option Cid → Bytes
  ipns_lookup_key name (some c) = L.b58 (L.hash c)
  ipns_lookup_key name none = if not (contains_byte name b'.') then to_dnslink_fqdn name else name

  abbrev pub ipns_legacy_key : Bytes → Bytes → Option Cid → Result Bytes
  ipns_legacy_key name subpath none = ok (name ++ (codes "/" ++ subpath))
  ipns_legacy_key name subpath (some c) = do
    legacy_cid ← legacy_text L c
    ok (legacy_cid ++ (codes "/" ++ subpath))

  abbrev pub ipns_modern_key : Bytes → IpfsPath → Option Cid → Bytes
  ipns_modern_key subpath p none = p.text
  ipns_modern_key subpath p (some c) = with_subpath (L.b58 (L.hash c)) subpath

  abbrev pub ipns_double_hash :
      Denylist → List ℕ → Bytes → IpfsPath → Option Cid → Result Bytes → StatusResponse
  ipns_double_hash dl order subpath p c (err error) = error_response dl.filename none (some p) error
  ipns_double_hash dl order subpath p c (ok legacy_key) =
      double_hash_response L dl order none (some p) legacy_key (ipns_modern_key subpath p c)

  abbrev pub ipns_at_path :
      Denylist → List ℕ → Bytes → Bytes → Option Cid → Result IpfsPath → StatusResponse
  ipns_at_path dl order name subpath c (err error) = error_response [] none none error
  ipns_at_path dl order name subpath c (ok p) =
      let (entries, _) = load dl.ipns_blocks_db (ipns_lookup_key name c) in
      let direct = check_path_status entries subpath in
      if is_hit direct.0
      then respond dl none (some p) (direct.0, direct.1, none)
      else ipns_double_hash dl order subpath p c (ipns_legacy_key name subpath c)

  unfoldable pub is_ipns_path_blocked : Denylist → List ℕ → Bytes → Bytes → StatusResponse
  is_ipns_path_blocked dl order name raw_subpath =
      let subpath = trim_prefix raw_subpath (codes "/") in
      ipns_at_path dl order name subpath (decoded (L.decode_cid name))
        (L.new_path (full_path (codes "ipns") name subpath))

  -- IPFS and IPLD.
  abbrev pub ipfs_double_hash :
      Denylist → List ℕ → Bytes → IpfsPath → Cid → Result Bytes → StatusResponse
  ipfs_double_hash dl order subpath p c (err error) = error_response dl.filename none (some p) error
  ipfs_double_hash dl order subpath p c (ok v1b32) =
      double_hash_response L dl order none (some p) (v1b32 ++ (codes "/" ++ subpath))
        (with_subpath (L.b58 (L.hash c)) subpath)

  abbrev pub ipfs_past_direct : Denylist → List ℕ → Bytes → IpfsPath → Result Cid → StatusResponse
  ipfs_past_direct dl order subpath p (err error) = error_response dl.filename none (some p) error
  ipfs_past_direct dl order subpath p (ok c) =
      ipfs_double_hash dl order subpath p c (legacy_text L c)

  -- The lookup at a key, and past it the double hashes of the CID.
  abbrev pub ipfs_at_key :
      Denylist → List ℕ → Bytes → Bytes → IpfsPath → Result Cid → StatusResponse
  ipfs_at_key dl order key subpath p c =
      let (entries, _) = load dl.ipfs_blocks_db key in
      let direct = check_path_status entries subpath in
      if is_hit direct.0
      then respond dl none (some p) (direct.0, direct.1, none)
      else ipfs_past_direct dl order subpath p c

  abbrev pub ipfs_by_cid : Denylist → List ℕ → Bytes → IpfsPath → Result Cid → StatusResponse
  ipfs_by_cid dl order subpath p (err error) = error_response dl.filename none (some p) error
  ipfs_by_cid dl order subpath p (ok c) = ipfs_at_key dl order (L.b58 (L.hash c)) subpath p (ok c)

  -- A CIDv0 is its own key, and is decoded only past the direct lookup.
  abbrev pub ipfs_at_path : Denylist → List ℕ → Bytes → Bytes → Result IpfsPath → StatusResponse
  ipfs_at_path dl order cid_str subpath (err error) = error_response [] none none error
  ipfs_at_path dl order cid_str subpath (ok p) =
      if is_cid_v0 cid_str
      then ipfs_at_key dl order cid_str subpath p (L.decode_cid cid_str)
      else ipfs_by_cid dl order subpath p (L.decode_cid cid_str)

  unfoldable pub is_ipfs_ipld_path_blocked :
      Denylist → List ℕ → Bytes → Bytes → Bytes → StatusResponse
  is_ipfs_ipld_path_blocked dl order cid_str raw_subpath protocol =
      let subpath = trim_prefix raw_subpath (codes "/") in
      ipfs_at_path dl order cid_str subpath (L.new_path (full_path protocol cid_str subpath))

  unfoldable pub is_ipfs_path_blocked : Denylist → List ℕ → Bytes → Bytes → StatusResponse
  is_ipfs_path_blocked dl order cid_str subpath =
      is_ipfs_ipld_path_blocked dl order cid_str subpath (codes "ipfs")

  unfoldable pub is_ipld_path_blocked : Denylist → List ℕ → Bytes → Bytes → StatusResponse
  is_ipld_path_blocked dl order cid_str subpath =
      is_ipfs_ipld_path_blocked dl order cid_str subpath (codes "ipld")

  -- The switch on the protocol.
  unfoldable pub is_protocol_blocked :
      Denylist → List ℕ → IpfsPath → Bytes → Bytes → Bytes → StatusResponse
  is_protocol_blocked dl order p proto key subpath =
      if bytes_eqb proto (codes "ipns")
      then is_ipns_path_blocked dl order key subpath
      else if bytes_eqb proto (codes "ipfs")
      then is_ipfs_path_blocked dl order key subpath
      else if bytes_eqb proto (codes "ipld")
      then is_ipld_path_blocked dl order key subpath
      else respond dl none (some p) nothing

  unfoldable pub is_segments_blocked : Denylist → List ℕ → IpfsPath → List Bytes → StatusResponse
  is_segments_blocked dl order p (proto ∷ key ∷ rest) =
      let subpath = join rest (codes "/") in
      let general = is_subpath_blocked dl subpath in
      if not (bytes_eqb subpath []) && is_hit general.status
      then record general { path = some p }
      else is_protocol_blocked dl order p proto key subpath
  is_segments_blocked dl order p _ = error_response dl.filename none (some p) path_too_short

  unfoldable pub is_path_blocked : Denylist → List ℕ → IpfsPath → StatusResponse
  is_path_blocked dl order p = is_segments_blocked dl order p p.segments

  -- CIDs.
  abbrev pub cid_double_hash : Denylist → List ℕ → Cid → Result Bytes → StatusResponse
  cid_double_hash dl order c (err error) = error_response dl.filename (some c) none error
  cid_double_hash dl order c (ok b32) =
      double_hash_response L dl order (some c) none (b32 ++ codes "/") (L.b58 (L.hash c))

  unfoldable pub is_cid_blocked : Denylist → List ℕ → Cid → StatusResponse
  is_cid_blocked dl order c =
      let (entries, _) = load dl.ipfs_blocks_db (L.b58 (L.hash c)) in
      let direct = check_path_status entries [] in
      if is_hit direct.0
      then respond dl (some c) none (direct.0, direct.1, none)
      else cid_double_hash dl order c (legacy_text L c)
