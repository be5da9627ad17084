-- ===== src/BlocksDb.antt =====
-- blocksdb.go: rules by key. `sync.Map` holds an `Entries` at each key, since only `Store` writes,
-- so the type assertion of `Load` does not fail.
use nopfs.Prelude.{
  ◌≡◌, [], ◌∷◌, ◌++◌, Option, none, some, Bool, true, false, Bytes, bytes_eq, bytes_eqb,
  bytes_eqb_iff, if◌then◌else◌, arith,
}
use nopfs.Prelude.GoMap.{GoMap, get, put, get-put}
use nopfs.Entry.{Entry, Entries, matches, check_path_status}
use nopfs.Entry.Deciding.{rule_status, check_path_status-concat}

abbrev pub BlocksDb : Type 0
BlocksDb = GoMap Bytes Entries

-- The nil slice where the key is missing.
abbrev pub or_nil : Option Entries → Entries × Bool
or_nil none = ([], false)
or_nil (some entries) = (entries, true)

unfoldable pub load : BlocksDb → Bytes → Entries × Bool
load db key = or_nil (get db key)

unfoldable pub store : BlocksDb → Bytes → Entry → BlocksDb
store db key e = let (entries, _) = load db key in put db key (entries ++ e ∷ [])

-- After a store the key has its old entries and the new one behind them, and every other key has
-- what it had.
pub load-store :
    (db : BlocksDb) (key : Bytes) (e : Entry) (k : Bytes)
    → (load (store db key e) k).0
      ≡ (if bytes_eqb key k then (load db k).0 ++ e ∷ [] else (load db k).0)
unfolding load store
load-store db key e k = rw get-put (ground (arith, bytes_eqb_iff key k))

-- What a store does to a query: at its key the new entry is asked first, and the other keys answer
-- as before.
pub check_path_status-store :
    (db : BlocksDb) (key : Bytes) (e : Entry) (k p : Bytes)
    → check_path_status (load (store db key e) k).0 p ≡ (
        if bytes_eqb key k
        then (if matches e.path p then (rule_status e, e) else check_path_status (load db k).0 p)
        else check_path_status (load db k).0 p)
check_path_status-store db key e k p =
    rw load-store (ground (arith, check_path_status-concat (load db k).0 e p))
