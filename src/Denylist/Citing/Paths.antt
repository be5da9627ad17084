-- ===== src/Denylist/Citing/Paths.antt =====
-- The rule that a response on a path cites.
use nopfs.Prelude.{
  ◌∙◌, ◌≡◌, refl, ap, inl, inr, ◌++◌, ◌∷◌, ℕ, List, [], not, ◌&&◌, Option, none, some, Bytes, codes,
  bytes_eqb, bytes_eqb_iff, Result, ok, err, if_cases, if_split, path_too_short, if◌then◌else◌,
}
use nopfs.Libs.{Libs, Cid, IpfsPath}
use nopfs.Text.{trim_prefix, join}
use nopfs.Entry.{check_path_status}
use nopfs.Status.{StatusResponse}
use nopfs.Denylist.{Denylist}
use nopfs.Denylist.Lookup.{
  is_hit, respond, double_hash_response, legacy_text, is_subpath_blocked, full_path, with_subpath,
  is_cid_v0, decoded, ipns_lookup_key, ipns_legacy_key, ipns_modern_key, ipns_double_hash,
  ipns_at_path, is_ipns_path_blocked, ipfs_double_hash, ipfs_past_direct, ipfs_by_cid, ipfs_at_path,
  is_ipfs_ipld_path_blocked, is_ipfs_path_blocked, is_ipld_path_blocked, is_protocol_blocked,
  is_segments_blocked, is_path_blocked,
}
use nopfs.Denylist.Log.{Reader, by_cid, by_name, by_path, by_paths}
use nopfs.Denylist.Log.Adds.{index}
use nopfs.Denylist.Citing.{checked, Cites-check_path_status, Cites-map}
use nopfs.Denylist.Citing.Asking.{
  AsksSubpath, of_path, of_paths, AsksName, of_name, of_name_hash, AsksContent, of_text, of_cid,
  of_cid_hash, AsksPath, any_protocol, ipns, ipfs_or_ipld, CitesIn,
}
use nopfs.Denylist.Citing.Hashes.{AsksHashes, Cites-double_hash_response}

module _ (dl : Denylist) where
  CitesIn-map :
      (Asks Asks' : Reader → Bytes → Type 0) (r : StatusResponse)
      → ((reader : Reader) (q : Bytes) → Asks reader q → Asks' reader q)
      → CitesIn dl Asks r
      → CitesIn dl Asks' r
  CitesIn-map Asks Asks' r more h =
      Cites-map (λ reader. index reader dl) (λ reader. index reader dl) (λ reader. refl) Asks Asks'
        more (checked r) h

  CitesIn-hashes :
      (L : Libs) (order : List ℕ) (Asks : Reader → Bytes → Type 0) (p : Option IpfsPath)
      (legacy modern : Bytes)
      → ((reader : Reader) (q : Bytes) → AsksHashes L legacy modern reader q → Asks reader q)
      → CitesIn dl Asks (double_hash_response L dl order none p legacy modern)
  CitesIn-hashes L order Asks p legacy modern more =
      CitesIn-map (AsksHashes L legacy modern) Asks
        (double_hash_response L dl order none p legacy modern) more
        (Cites-double_hash_response L dl legacy modern order none p)

  CitesIn-check :
      (Asks : Reader → Bytes → Type 0) (reader : Reader) (q : Bytes) (c : Option Cid)
      (p : Option IpfsPath) (other : StatusResponse)
      → Asks reader q
      → CitesIn dl Asks other
      → CitesIn dl Asks (
          let direct = check_path_status (index reader dl) q in
          if is_hit direct.0 then respond dl c p (direct.0, direct.1, none) else other)
  CitesIn-check Asks reader q c p other asked h =
      if_cases (CitesIn dl Asks) (is_hit (check_path_status (index reader dl) q).0)
        (Cites-check_path_status (λ reader. index reader dl) Asks reader q asked) h

  is_subpath_blocked-CitesIn :
      (subpath : Bytes) → CitesIn dl (AsksSubpath subpath) (is_subpath_blocked dl subpath)
  unfolding is_subpath_blocked
  is_subpath_blocked-CitesIn subpath =
      if_cases (CitesIn dl (AsksSubpath subpath))
        (is_hit (check_path_status (index (by_path subpath) dl) subpath).0)
        (Cites-check_path_status (λ reader. index reader dl) (AsksSubpath subpath) (by_path subpath)
          subpath (of_path refl refl))
        (Cites-check_path_status (λ reader. index reader dl) (AsksSubpath subpath) by_paths subpath
          (of_paths refl refl))

module _ (L : Libs) (dl : Denylist) (order : List ℕ) where
  ipns_double_hash-CitesIn :
      (name subpath : Bytes) (p : IpfsPath) (made : Result Bytes)
      → L.new_path (full_path (codes "ipns") name subpath) ≡ ok p
      → ipns_legacy_key L name subpath (decoded (L.decode_cid name)) ≡ made
      → CitesIn dl
          (AsksName L name subpath)
          (ipns_double_hash L dl order subpath p (decoded (L.decode_cid name)) made)
  ipns_double_hash-CitesIn name subpath p (err e) path made = (refl, (e, refl))
  ipns_double_hash-CitesIn name subpath p (ok legacy) path made =
      CitesIn-hashes dl L order (AsksName L name subpath) (some p) legacy
        (ipns_modern_key L subpath p (decoded (L.decode_cid name)))
        (λ r q h. of_name_hash p legacy path made h)

  ipns_at_path-CitesIn :
      (name subpath : Bytes) (path : Result IpfsPath)
      → L.new_path (full_path (codes "ipns") name subpath) ≡ path
      → CitesIn dl
          (AsksName L name subpath)
          (ipns_at_path L dl order name subpath (decoded (L.decode_cid name)) path)
  ipns_at_path-CitesIn name subpath (err e) made = (refl, (e, refl))
  ipns_at_path-CitesIn name subpath (ok p) made =
      let c = decoded (L.decode_cid name) in
      CitesIn-check dl (AsksName L name subpath) (by_name (ipns_lookup_key L name c)) subpath none
        (some p) (ipns_double_hash L dl order subpath p c (ipns_legacy_key L name subpath c))
        (of_name refl refl)
        (ipns_double_hash-CitesIn name subpath p (ipns_legacy_key L name subpath c) made refl)

  ipfs_double_hash-CitesIn :
      (text subpath : Bytes) (p : IpfsPath) (c : Cid) (made : Result Bytes)
      → L.decode_cid text ≡ ok c
      → legacy_text L c ≡ made
      → CitesIn dl (AsksContent L text subpath) (ipfs_double_hash L dl order subpath p c made)
  ipfs_double_hash-CitesIn text subpath p c (err e) d made = (refl, (e, refl))
  ipfs_double_hash-CitesIn text subpath p c (ok v1b32) d made =
      CitesIn-hashes dl L order (AsksContent L text subpath) (some p)
        (v1b32 ++ (codes "/" ++ subpath)) (with_subpath (L.b58 (L.hash c)) subpath)
        (λ r q h. of_cid_hash c v1b32 d made h)

  ipfs_past_direct-CitesIn :
      (text subpath : Bytes) (p : IpfsPath) (q : Result Cid)
      → L.decode_cid text ≡ q
      → CitesIn dl (AsksContent L text subpath) (ipfs_past_direct L dl order subpath p q)
  ipfs_past_direct-CitesIn text subpath p (err e) d = (refl, (e, refl))
  ipfs_past_direct-CitesIn text subpath p (ok c) d =
      ipfs_double_hash-CitesIn text subpath p c _ d refl

  ipfs_by_cid-CitesIn :
      (text subpath : Bytes) (p : IpfsPath) (q : Result Cid)
      → L.decode_cid text ≡ q
      → CitesIn dl (AsksContent L text subpath) (ipfs_by_cid L dl order subpath p q)
  ipfs_by_cid-CitesIn text subpath p (err e) d = (refl, (e, refl))
  ipfs_by_cid-CitesIn text subpath p (ok c) d =
      CitesIn-check dl (AsksContent L text subpath) (by_cid (L.b58 (L.hash c))) subpath none
        (some p) (ipfs_past_direct L dl order subpath p (ok c)) (of_cid c d refl refl)
        (ipfs_past_direct-CitesIn text subpath p (ok c) d)

  ipfs_at_path-CitesIn :
      (text subpath : Bytes) (path : Result IpfsPath)
      → CitesIn dl (AsksContent L text subpath) (ipfs_at_path L dl order text subpath path)
  ipfs_at_path-CitesIn text subpath (err e) = (refl, (e, refl))
  ipfs_at_path-CitesIn text subpath (ok p) =
      if_split (CitesIn dl (AsksContent L text subpath)) (is_cid_v0 text)
        (λ v0.
          CitesIn-check dl (AsksContent L text subpath) (by_cid text) subpath none (some p)
            (ipfs_past_direct L dl order subpath p (L.decode_cid text)) (of_text v0 refl refl)
            (ipfs_past_direct-CitesIn text subpath p (L.decode_cid text) refl))
        (λ v1. ipfs_by_cid-CitesIn text subpath p (L.decode_cid text) refl)

  is_ipns_path_blocked-CitesIn :
      (name raw : Bytes)
      → CitesIn dl
          (AsksName L name (trim_prefix raw (codes "/")))
          (is_ipns_path_blocked L dl order name raw)
  unfolding is_ipns_path_blocked
  is_ipns_path_blocked-CitesIn name raw =
      ipns_at_path-CitesIn name (trim_prefix raw (codes "/"))
        (L.new_path (full_path (codes "ipns") name (trim_prefix raw (codes "/")))) refl

  is_ipfs_ipld_path_blocked-CitesIn :
      (text raw protocol : Bytes)
      → CitesIn dl
          (AsksContent L text (trim_prefix raw (codes "/")))
          (is_ipfs_ipld_path_blocked L dl order text raw protocol)
  unfolding is_ipfs_ipld_path_blocked
  is_ipfs_ipld_path_blocked-CitesIn text raw protocol =
      ipfs_at_path-CitesIn text (trim_prefix raw (codes "/"))
        (L.new_path (full_path protocol text (trim_prefix raw (codes "/"))))

  is_protocol_blocked-CitesIn :
      (p : IpfsPath) (proto key : Bytes) (rest : List Bytes)
      → p.segments ≡ proto ∷ key ∷ rest
      → CitesIn dl
          (AsksPath L p)
          (is_protocol_blocked L dl order p proto key (join rest (codes "/")))
  unfolding is_protocol_blocked is_ipfs_path_blocked is_ipld_path_blocked
  is_protocol_blocked-CitesIn p proto key rest e =
      let sub = join rest (codes "/") in
      if_split (CitesIn dl (AsksPath L p)) (bytes_eqb proto (codes "ipns"))
        (λ same.
          CitesIn-map dl (AsksName L key (trim_prefix sub (codes "/"))) (AsksPath L p)
            (is_ipns_path_blocked L dl order key sub)
            (λ r q h.
              ipns key rest (e ∙ ap (λ t. t ∷ key ∷ rest) ((bytes_eqb_iff proto _).0 same)) h)
            (is_ipns_path_blocked-CitesIn key sub))
        (λ no_name.
          if_split (CitesIn dl (AsksPath L p)) (bytes_eqb proto (codes "ipfs"))
            (λ same.
              CitesIn-map dl (AsksContent L key (trim_prefix sub (codes "/"))) (AsksPath L p)
                (is_ipfs_ipld_path_blocked L dl order key sub (codes "ipfs"))
                (λ r q h. ipfs_or_ipld proto key rest e (inl ((bytes_eqb_iff proto _).0 same)) h)
                (is_ipfs_ipld_path_blocked-CitesIn key sub (codes "ipfs")))
            (λ no_file.
              if_split (CitesIn dl (AsksPath L p)) (bytes_eqb proto (codes "ipld"))
                (λ same.
                  CitesIn-map dl (AsksContent L key (trim_prefix sub (codes "/"))) (AsksPath L p)
                    (is_ipfs_ipld_path_blocked L dl order key sub (codes "ipld"))
                    (λ r q h.
                      ipfs_or_ipld proto key rest e (inr ((bytes_eqb_iff proto _).0 same)) h)
                    (is_ipfs_ipld_path_blocked-CitesIn key sub (codes "ipld")))
                (λ other. (refl, refl))))

  is_segments_blocked-CitesIn :
      (p : IpfsPath) (segments : List Bytes)
      → p.segments ≡ segments
      → CitesIn dl (AsksPath L p) (is_segments_blocked L dl order p segments)
  unfolding is_segments_blocked
  is_segments_blocked-CitesIn p (proto ∷ key ∷ rest) e =
      let sub = join rest (codes "/") in
      if_cases (CitesIn dl (AsksPath L p))
        (not (bytes_eqb sub []) && is_hit (is_subpath_blocked dl sub).status)
        (CitesIn-map dl (AsksSubpath sub) (AsksPath L p) (is_subpath_blocked dl sub)
          (λ r q h. any_protocol proto key rest e h) (is_subpath_blocked-CitesIn dl sub))
        (is_protocol_blocked-CitesIn p proto key rest e)
  is_segments_blocked-CitesIn p [] e = (refl, (path_too_short, refl))
  is_segments_blocked-CitesIn p (proto ∷ []) e = (refl, (path_too_short, refl))

  -- Nothing is said of a path without a rule: a response "blocked" or "allowed" comes with no error
  -- and with the rule whose word it is, the last one that matches what stands behind the name or the
  -- CID, among the rules for paths alone, those for the name's key or for the CID's multihash, or
  -- the double hashes of the path's texts; an error comes with no rule, and "not found" with
  -- neither, in whatever order the map of double hashes is ranged over.
  pub is_path_blocked-Cites :
      (p : IpfsPath) → CitesIn dl (AsksPath L p) (is_path_blocked L dl order p)
  unfolding is_path_blocked
  is_path_blocked-Cites p = is_segments_blocked-CitesIn p p.segments refl
