-- ===== src/Denylist/Lookup/Hashes.antt =====
-- The checks of double hashes.
use nopfs.Prelude.{
  ℕ, Bool, true, false, List, [], ◌∷◌, Option, none, some, Bytes, nat_eq, bytes_eq, if◌then◌else◌,
  Error, Result, ok, err,
}
use nopfs.Prelude.GoMap.{get}
use nopfs.Libs.{Libs, Cid, IpfsPath}
use nopfs.Entry.{Entry, Status, not_found, blocked, allowed, errored, zero_entry, check_path_status}
use nopfs.BlocksDb.{BlocksDb, load}
use nopfs.Status.{StatusResponse}
use nopfs.Denylist.{Denylist}

-- `status != StatusNotFound`.
abbrev pub is_hit : Status → Bool
is_hit not_found = false
is_hit blocked = true
is_hit allowed = true
is_hit errored = true

-- A status with its entry, and an error beside it.
abbrev pub Checked : Type 0
Checked = Status × Entry × Option Error

abbrev pub nothing : Checked
nothing = (not_found, zero_entry, none)

abbrev pub respond : Denylist → Option Cid → Option IpfsPath → Checked → StatusResponse
respond dl c p (status, entry, error) = record {
  cid = c;
  path = p;
  status = status;
  filename = dl.filename;
  entry = entry;
  error = error;
}

module _ (L : Libs) where
  abbrev pub sum_status : BlocksDb → Result Bytes → Checked
  sum_status blocks (err _) = nothing
  sum_status blocks (ok double_hash) =
      let (entries, _) = load blocks (L.b58 double_hash) in
      let (status, entry) = check_path_status entries [] in (status, entry, none)

  abbrev pub status_at : Option BlocksDb → Bytes → ℕ → Checked
  status_at none orig_key code = nothing
  status_at (some blocks) orig_key code = sum_status blocks (L.sum orig_key code)

  unfoldable pub check_double_hash_with_fn : Denylist → Bytes → ℕ → Checked
  check_double_hash_with_fn dl orig_key code =
      status_at (get dl.double_hash_blocks_db code) orig_key code

  abbrev pub or_next : Checked → Checked → Checked
  or_next (status, entry, some error) next = (status, entry, some error)
  or_next (status, entry, none) next = if is_hit status then (status, entry, none) else next

  -- `order` is the order in which Go's `range` gives the codes of the map.
  unfoldable pub check_double_hash : Denylist → List ℕ → Bytes → Checked
  check_double_hash dl [] orig_key = nothing
  check_double_hash dl (code ∷ order) orig_key =
      or_next (check_double_hash_with_fn dl orig_key code) (check_double_hash dl order orig_key)

  -- The base32 text of the CID as version 1, that legacy double hashes are made of.
  abbrev pub legacy_text : Cid → Result Bytes
  legacy_text c = L.base32 (L.new_cid_v1 (L.codec c) (L.hash c))

  abbrev pub or_modern :
      Denylist → Option Cid → Option IpfsPath → Checked → Checked → StatusResponse
  or_modern dl c p legacy modern =
      if is_hit legacy.0 then respond dl c p legacy else respond dl c p modern

  -- The double hashes of a key: the legacy text with sha2-256, then the modern key with every
  -- function in use.
  unfoldable pub double_hash_response :
      Denylist → List ℕ → Option Cid → Option IpfsPath → Bytes → Bytes → StatusResponse
  double_hash_response dl order c p legacy_key key =
      or_modern dl c p (check_double_hash_with_fn dl legacy_key L.sha2_256)
        (check_double_hash dl order key)
