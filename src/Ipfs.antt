-- ===== src/Ipfs.antt =====
-- ipfs/: wrappers that ask the blocker before they call the service that they wrap. A service is a
-- record of its methods; a method takes the state of the world and returns it changed. Contexts,
-- options and the log are left out. What the blocker is, and in which orders its maps are ranged
-- over, may depend on the state of the world.
pub mod BlockService
pub mod Filtering
pub mod Paths
pub mod Guarding
pub mod WholeFiles
pub mod Citing
pub mod CitingPaths
use nopfs.Prelude.{Bytes, Option, none, some, Error}
use nopfs.Libs.{Libs, Cid, IpfsPath}
use nopfs.Blocker
use nopfs.Blocker.{Blocker, RangeOrder}
use nopfs.Status.{StatusError, StatusResponse, to_error}

-- An error of a wrapped service, or that of the wrapper.
pub data ServiceError : Type 0 where
  status_error : StatusError → ServiceError
  other : Error → ServiceError

pub data Reply {ℓ} (A : Type ℓ) : Type ℓ where
  success : A → Reply A
  failure : ServiceError → Reply A

-- The world in which the services work.
pub record World : Type 1 where
  pub State : Type 0
  pub blocker : State → Blocker
  pub cid_order : State → Cid → RangeOrder
  pub path_order : State → IpfsPath → RangeOrder
  -- `Blocker.Close`
  pub close_blocker : State → State

module _ (L : Libs) (W : World) where
  -- `blocker.IsCidBlocked(c).ToError()`.
  abbrev pub cid_error : W.State → Cid → Option StatusError
  cid_error s c = to_error (Blocker.is_cid_blocked L (W.blocker s) (W.cid_order s c) c)

  -- `blocker.IsPathBlocked(p).ToError()`.
  abbrev pub path_error : W.State → IpfsPath → Option StatusError
  path_error s p = to_error (Blocker.is_path_blocked L (W.blocker s) (W.path_order s p) p)
