-- ===== src/Denylist/Log/Silence.antt =====
-- CIDs that no rule of the log speaks of.
use nopfs.Prelude.{
  ℕ, ◌≡◌, refl, ◌∙◌, List, [], ◌∷◌, ◌++◌, none, some, Bytes, codes, nat_eq, bytes_eq, Result, ok,
  err,
}
use nopfs.Prelude.GoMap.{get}
use nopfs.Libs.{Libs, Cid}
use nopfs.Entry.{Entries, not_found, zero_entry, check_path_status}
use nopfs.Entry.Deciding.{NoMatch, silent, check_path_status_iff}
use nopfs.BlocksDb.{BlocksDb, load}
use nopfs.Denylist.{Denylist}
use nopfs.Denylist.SameHashes.{status_at-blocks_of}
use nopfs.Denylist.Lookup.{
  nothing, respond, sum_status, check_double_hash, check_double_hash_with_fn, double_hash_response,
  is_cid_blocked, legacy_text,
}
use nopfs.Denylist.Log.{Reader, by_cid, by_hash}
use nopfs.Denylist.Log.Adds.{index}

pub check-NoMatch :
    (es : Entries) (p : Bytes) → NoMatch es p → check_path_status es p ≡ (not_found, zero_entry)
check-NoMatch es p h = (check_path_status_iff es p (not_found, zero_entry)).1 (silent h refl)

-- No rule by double hash speaks of a key, where `find` gives what the readers find.
abbrev pub QuietAt : Libs → (Reader → Entries) → Bytes → Type 0
QuietAt L find key =
    (code : ℕ) (h : Bytes) → L.sum key code ≡ ok h → NoMatch (find (by_hash code (L.b58 h))) []

-- No rule for its multihash or by double hash speaks of the CID, whose legacy text is `b32`.
pub record Quiet (L : Libs) (find : Reader → Entries) (c : Cid) (b32 : Bytes) : Type 0 where
  pub direct : NoMatch (find (by_cid (L.b58 (L.hash c)))) []
  pub legacy : QuietAt L find (b32 ++ codes "/")
  pub modern : QuietAt L find (L.b58 (L.hash c))

module _ (L : Libs) (dl : Denylist) where
  abbrev found : Reader → Entries
  found r = index r dl

  sum_status-quiet :
      (blocks : BlocksDb) (r : Result Bytes)
      → ((h : Bytes) → r ≡ ok h → NoMatch (load blocks (L.b58 h)).0 [])
      → sum_status L blocks r ≡ nothing
  sum_status-quiet blocks (err e) q = refl
  sum_status-quiet blocks (ok h) q = rw (check-NoMatch _ [] (q h refl))

  with_fn-quiet :
      (key : Bytes) (code : ℕ)
      → QuietAt L found key
      → check_double_hash_with_fn L dl key code ≡ nothing
  unfolding check_double_hash_with_fn
  with_fn-quiet key code q =
      status_at-blocks_of L (get dl.double_hash_blocks_db code) key code
      ∙ sum_status-quiet _ (L.sum key code) (q code)

  check_double_hash-quiet :
      (order : List ℕ) (key : Bytes)
      → QuietAt L found key
      → check_double_hash L dl order key ≡ nothing
  unfolding check_double_hash
  check_double_hash-quiet [] key q = refl
  check_double_hash-quiet (code ∷ order) key q =
      rw (with_fn-quiet key code q, check_double_hash-quiet order key q)

  pub is_cid_blocked-Quiet :
      (order : List ℕ) (c : Cid) (b32 : Bytes)
      → legacy_text L c ≡ ok b32
      → Quiet L (λ r. index r dl) c b32
      → is_cid_blocked L dl order c ≡ respond dl (some c) none nothing
  unfolding is_cid_blocked double_hash_response
  is_cid_blocked-Quiet order c b32 text q = rw (
    check-NoMatch _ [] q.direct,
    text,
    with_fn-quiet _ L.sha2_256 q.legacy,
    check_double_hash-quiet order _ q.modern,
  )
