-- ===== src/Denylist/Citing/Cids.antt =====
-- The rule that a response on a CID cites.
use nopfs.Prelude.{
  ◌≡◌, refl, ◌++◌, ℕ, List, [], none, some, Bytes, codes, Result, ok, err, if_cases,
}
use nopfs.Libs.{Libs, Cid}
use nopfs.Entry.{check_path_status}
use nopfs.Status.{StatusResponse}
use nopfs.Denylist.{Denylist}
use nopfs.Denylist.Lookup.{is_hit, legacy_text, cid_double_hash, is_cid_blocked}
use nopfs.Denylist.Log.{Reader, by_cid}
use nopfs.Denylist.Log.Adds.{index}
use nopfs.Denylist.Citing.{Cites, checked, Cites-check_path_status, Cites-map}
use nopfs.Denylist.Citing.Hashes.{AsksHashes, Cites-double_hash_response}

-- What is asked on a CID: the rules for its multihash, of which those count that cover the CID
-- itself, and the double hashes of its legacy text and of its multihash.
pub data AsksCid (L : Libs) (c : Cid) (r : Reader) (q : Bytes) : Type 0 where
  of_multihash : r ≡ by_cid (L.b58 (L.hash c)) → q ≡ [] → AsksCid L c r q
  of_double_hash :
      (b32 : Bytes)
      → legacy_text L c ≡ ok b32
      → AsksHashes L (b32 ++ codes "/") (L.b58 (L.hash c)) r q
      → AsksCid L c r q

module _ (L : Libs) (dl : Denylist) (order : List ℕ) (c : Cid) where
  Cites-cid_double_hash :
      (text : Result Bytes)
      → legacy_text L c ≡ text
      → Cites (λ r. index r dl) (AsksCid L c) (checked (cid_double_hash L dl order c text))
  Cites-cid_double_hash (err e) made = (refl, (e, refl))
  Cites-cid_double_hash (ok b32) made =
      Cites-map (λ r. index r dl) (λ r. index r dl) (λ r. refl)
        (AsksHashes L (b32 ++ codes "/") (L.b58 (L.hash c))) (AsksCid L c)
        (λ r q h. of_double_hash b32 made h) _
        (Cites-double_hash_response L dl (b32 ++ codes "/") (L.b58 (L.hash c)) order (some c) none)

  -- Nothing is said of a CID without a rule: a response "blocked" or "allowed" comes with no error
  -- and with the rule whose word it is, the last one that covers the CID itself among those for its
  -- multihash, or the last one among the double hashes of its legacy text or of its multihash; an
  -- error comes with no rule, and "not found" with neither, in whatever order the map of double
  -- hashes is ranged over.
  pub is_cid_blocked-Cites :
      Cites (λ r. index r dl) (AsksCid L c) (checked (is_cid_blocked L dl order c))
  unfolding is_cid_blocked
  is_cid_blocked-Cites =
      let key = L.b58 (L.hash c) in
      if_cases (λ (r : StatusResponse). Cites (λ r. index r dl) (AsksCid L c) (checked r))
        (is_hit (check_path_status (index (by_cid key) dl) []).0)
        (Cites-check_path_status (λ r. index r dl) (AsksCid L c) (by_cid key) []
          (of_multihash refl refl))
        (Cites-cid_double_hash (legacy_text L c) refl)
