-- ===== src/Finding.antt =====
-- util.go: the denylist files of the configuration directories. `filepath.WalkDir` is what it calls
-- its function with, one visit after the other, as long as the function returns nil.
pub mod Listing
use nopfs.Prelude.{
  Bool, true, false, not, ◌&&◌, List, [], ◌∷◌, ◌++◌, Option, none, some, Bytes, codes, bytes_eqb,
  if◌then◌else◌, Error, walk_failed, Result, ok, err, ◌>>=◌,
}
use nopfs.Text.Paths.{ext, join_path}

-- What the function is called with.
pub record Visit : Type 0 where
  pub path : Bytes
  pub is_dir : Bool
  pub error : Option Error

abbrev pub is_denylist : Visit → Bool
is_denylist v = not v.is_dir && bytes_eqb (ext v.path) (codes ".deny")

-- The walk: the files found, and the error that it ends with.
unfoldable pub walk_files : List Visit → List Bytes → List Bytes × Option Error
walk_files [] files = (files, none)
walk_files (v ∷ visits) files = elim v.error [
  | some error ↦ (files, some error)
  | none ↦ walk_files visits (if is_denylist v then files ++ v.path ∷ [] else files)
]

-- `$XDG_CONFIG_HOME/ipfs/denylists`, with its default.
unfoldable pub config_path : (Bytes → Bytes) → Bytes
config_path getenv =
    let xdg = getenv (codes "XDG_CONFIG_HOME") in
    let xdg_config_home =
      if bytes_eqb xdg [] then getenv (codes "HOME") ++ codes "/.config" else xdg in
    join_path (xdg_config_home ∷ codes "ipfs" ∷ codes "denylists" ∷ [])

module _ (walk : Bytes → List Visit) (is_not_exist : Error → Bool) where
  -- A walk that ends at something that does not exist is no error.
  abbrev pub unless_walk_failed : Bytes → List Bytes × Option Error → Result (List Bytes)
  unless_walk_failed dirpath (files, none) = ok files
  unless_walk_failed dirpath (files, some error) =
      if not (is_not_exist error) then err (walk_failed dirpath error) else ok files

  unfoldable pub get_denylist_files_in_dir : Bytes → Result (List Bytes)
  get_denylist_files_in_dir dirpath = unless_walk_failed dirpath (walk_files (walk dirpath) [])

  unfoldable pub get_denylist_files : (Bytes → Bytes) → Result (List Bytes)
  get_denylist_files getenv = do
    ipfs_denylist_files ← get_denylist_files_in_dir (config_path getenv)
    etc_denylist_files ← get_denylist_files_in_dir (codes "/etc/ipfs/denylists")
    ok (ipfs_denylist_files ++ etc_denylist_files)
