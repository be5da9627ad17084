-- ===== src/Tests/Finds.antt =====
-- Denylist files in directories: runs, and the theorems at concrete inputs.
use nopfs.Prelude.{
  ◌≡◌, ◌≢◌, ◌↔◌, refl, Bool, true, false, List, [], ◌∷◌, ◌++◌, none, some, Bytes, codes, bytes_eq,
  bytes_eqb, if◌then◌else◌, Error, walk_failed, Result, ok, err,
}
use nopfs.Prelude.GoMap.{get}
use nopfs.Text.{join, has_prefix, strip_prefix, contains_byte}
use nopfs.Text.Paths.{ext, parts, add_parts, reversed, clean, drop_empty, join_path}
use nopfs.Denylist.{Denylist, empty_denylist}
use nopfs.Blocker.{Blocker}
use nopfs.Blocker.Opening.{opened, in_files, AllFail}
use nopfs.Finding.{Visit, walk_files, get_denylist_files_in_dir}
use nopfs.Finding.Listing.{names, NoErrors, get_denylist_files_in_dir_lem}
use nopfs.Plugin.{make_blocker, default_files, make_blocker_lem}

joined :
    join_path (codes "/home//u/./x/../.config" ∷ codes "ipfs" ∷ [] ∷ codes "denylists" ∷ [])
    ≡ codes "/home/u/.config/ipfs/denylists"
unfolding join_path drop_empty join clean has_prefix strip_prefix add_parts parts reversed bytes_eqb
joined = refl

back : clean (codes "../../a/..") ≡ codes "../.."
unfolding join clean has_prefix strip_prefix add_parts parts reversed bytes_eqb
back = refl

extension : ext (codes "/etc/a.b/c.tar.deny") ≡ codes ".deny"
unfolding ext contains_byte
extension = refl

no_extension : ext (codes "/etc/a.b/c") ≡ []
unfolding ext contains_byte
no_extension = refl

abbrev visit : Bytes → Visit
visit path = record { path = path; is_dir = false; error = none }

abbrev walk : Bytes → List Visit
walk dirpath =
    record { path = dirpath; is_dir = true; error = none }
    ∷ visit (codes "a.deny")
    ∷ visit (codes "b.txt")
    ∷ []

abbrev is_not_exist : Error → Bool
is_not_exist e = false

two_visits : get_denylist_files_in_dir walk is_not_exist (codes "/x") ≡ ok (codes "a.deny" ∷ [])
unfolding get_denylist_files_in_dir walk_files ext contains_byte bytes_eqb
two_visits = refl

get_denylist_files_in_dir_lem_example :
    (NoErrors (walk (codes "/x"))
      → get_denylist_files_in_dir walk is_not_exist (codes "/x") ≡ ok (names (walk (codes "/x"))))
    × ((before : List Visit) (v : Visit) (after : List Visit) (error : Error)
        → walk (codes "/x") ≡ before ++ v ∷ after
        → NoErrors before
        → v.error ≡ some error
        → (is_not_exist error ≡ true
            → get_denylist_files_in_dir walk is_not_exist (codes "/x") ≡ ok (names before))
          × (is_not_exist error ≡ false
              → get_denylist_files_in_dir walk is_not_exist (codes "/x")
                ≡ err (walk_failed (codes "/x") error)))
get_denylist_files_in_dir_lem_example = get_denylist_files_in_dir_lem walk is_not_exist (codes "/x")

abbrev load_file : Bytes → Result Denylist
load_file name = ok (empty_denylist name)

abbrev getenv : Bytes → Bytes
getenv name = codes "/root"

make_blocker_lem_example :
    (((make_blocker walk is_not_exist load_file getenv).0 ≡ none) ↔ (
      (default_files walk is_not_exist load_file getenv ≢ [])
      × AllFail load_file (default_files walk is_not_exist load_file getenv)))
    × ((b : Blocker) (k : Bytes)
        → (make_blocker walk is_not_exist load_file getenv).0 ≡ some b
        → get b.denylists k ≡ (
            if in_files k (default_files walk is_not_exist load_file getenv)
            then opened (load_file k)
            else none))
make_blocker_lem_example =
    make_blocker_lem walk is_not_exist load_file getenv (refl, (refl, (refl, tt)))
      (refl, (refl, (refl, tt)))
