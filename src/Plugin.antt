-- ===== src/Plugin.antt =====
-- nopfs-kubo-plugin/plugin.go: what the plugin tells Kubo, the blocker of the default denylist files,
-- and the resolvers that it guards. What Kubo's own configuration makes of its fetchers is an
-- argument, and so is what fx does with its options.
use nopfs.Prelude.{
  Bool, ◌≡◌, ◌≢◌, ◌↔◌, ap, List, [], ◌∷◌, ◌++◌, Option, none, some, Bytes, codes, bytes_eq,
  if◌then◌else◌, Error, Result, ok, err,
}
use nopfs.Prelude.GoMap.{get}
use nopfs.Libs.{Libs}
use nopfs.Denylist.{Denylist}
use nopfs.Blocker.{Blocker, new_blocker}
use nopfs.Blocker.Opening.{opened, in_files, AllFail, new_blocker_lem}
use nopfs.Finding.{Visit, config_path, get_denylist_files}
use nopfs.Finding.Listing.{NoErrors, names, get_denylist_files_in_dir_lem}
use nopfs.Ipfs.{World}
use nopfs.Ipfs.Paths.{Names, Resolver, wrap_resolver}

-- `MakeBlocker` behind `GetDenylistFiles`.
abbrev pub with_files :
    (Bytes → Result Denylist) → Result (List Bytes) → Option Blocker × List Error
with_files load_file (err error) = (none, error ∷ [])
with_files load_file (ok files) = new_blocker load_file files

unfoldable pub make_blocker :
    (Bytes → List Visit)
    → (Error → Bool)
    → (Bytes → Result Denylist)
    → (Bytes → Bytes)
    → Option Blocker × List Error
make_blocker walk is_not_exist load_file getenv =
    with_files load_file (get_denylist_files walk is_not_exist getenv)

-- `PathResolvers`: the resolvers for IPLD and for UnixFS, wrapped.
unfoldable pub path_resolvers :
    Libs
    → (W : World) (N : Names) → Resolver N W.State × Resolver N W.State
    → Resolver N W.State × Resolver N W.State
path_resolvers L W N (ipld, unixfs) = (wrap_resolver L W N ipld, wrap_resolver L W N unixfs)

-- `nopfsPlugin`, a struct with no field.
pub data NopfsPlugin : Type 0 where
  nopfs_plugin : NopfsPlugin

-- `Plugins`.
abbrev pub plugins : List NopfsPlugin
plugins = nopfs_plugin ∷ []

unfoldable pub name : NopfsPlugin → Bytes
name p = codes "nopfs"

unfoldable pub version : NopfsPlugin → Bytes
version p = codes "0.0.1"

-- `Init`, which does not look at its environment.
unfoldable pub init : NopfsPlugin → Option Error
init p = none

-- An option of fx: one that Kubo has already, a function that provides a value or one that decorates
-- it.
pub data FxOption (Known : Type 0) : Type 0 where
  known : Known → FxOption Known
  provide_make_blocker : FxOption Known
  decorate_wrap_block_service : FxOption Known
  decorate_wrap_name_system : FxOption Known
  decorate_path_resolvers : FxOption Known

-- `Options`, with Kubo's own options; the level of the logger is left out.
unfoldable pub options :
    {Known : Type 0} → NopfsPlugin → List (FxOption Known) → List (FxOption Known) × Option Error
options p fx_options = (
  fx_options
      ++ (provide_make_blocker ∷ decorate_wrap_block_service ∷ decorate_wrap_name_system
          ∷ decorate_path_resolvers ∷ []),
  none,
)

module _ (walk : Bytes → List Visit) (is_not_exist : Error → Bool)
    (load_file : Bytes → Result Denylist) (getenv : Bytes → Bytes) where
  -- The files of both directories.
  abbrev pub default_files : List Bytes
  default_files = names (walk (config_path getenv)) ++ names (walk (codes "/etc/ipfs/denylists"))

  get_denylist_files_found :
      NoErrors (walk (config_path getenv))
      → NoErrors (walk (codes "/etc/ipfs/denylists"))
      → get_denylist_files walk is_not_exist getenv ≡ ok default_files
  unfolding get_denylist_files
  get_denylist_files_found user system = rw (
    (get_denylist_files_in_dir_lem walk is_not_exist (config_path getenv)).0 user,
    (get_denylist_files_in_dir_lem walk is_not_exist (codes "/etc/ipfs/denylists")).0 system,
  )

  make_blocker-files :
      NoErrors (walk (config_path getenv))
      → NoErrors (walk (codes "/etc/ipfs/denylists"))
      → make_blocker walk is_not_exist load_file getenv ≡ new_blocker load_file default_files
  unfolding make_blocker
  make_blocker-files user system = ap (with_files load_file) (get_denylist_files_found user system)

  -- When neither walk meets an error, the plugin makes no blocker exactly when there are files under
  -- the user's or the system's directory whose names end in `.deny` and none of them opens; and the
  -- blocker that it makes holds the denylists of those that open, each under its file's name, and no
  -- other.
  pub make_blocker_lem :
      NoErrors (walk (config_path getenv))
      → NoErrors (walk (codes "/etc/ipfs/denylists"))
      → (((make_blocker walk is_not_exist load_file getenv).0 ≡ none)
          ↔ ((default_files ≢ []) × AllFail load_file default_files))
        × ((b : Blocker) (k : Bytes)
            → (make_blocker walk is_not_exist load_file getenv).0 ≡ some b
            → get b.denylists k ≡ (if in_files k default_files then opened (load_file k) else none))
  make_blocker_lem user system =
      rw (make_blocker-files user system) (new_blocker_lem load_file default_files)
