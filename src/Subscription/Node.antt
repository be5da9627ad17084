-- ===== src/Subscription/Node.antt =====
-- A node while it runs: the file on the server, the local file that the subscription appends to, and
-- the calls that the follower of the local file has made. They take their steps in any order.
pub mod InOrder
pub mod Safety
pub mod Keeping
pub mod Citing
pub mod Going
pub mod CatchingUp
use nopfs.Prelude.{List, [], ◌∷◌, ◌++◌, Option, some, Bytes}
use nopfs.Text.Affixes.{Extends}
use nopfs.Denylist.Following.{Read}
use nopfs.Denylist.Tailing.{text_of}
use nopfs.Denylist.Calls.{Calls}
use nopfs.Subscription.{Sync, content, download_and_append}
use nopfs.Subscription.InStep.{Serves}

pub record Node : Type 0 where
  pub remote : Bytes
  pub file : Option Bytes
  pub calls : List Read

-- The bytes of `header` stand before the offset from which the follower reads.
pub data Step (header : Bytes) (s : Node) : Node → Type 0 where
  -- The remote file is appended to.
  grow : (more : Bytes) → Step header s (record s { remote = s.remote ++ more })
  -- The timer of `subscribe` fires.
  fire :
      (sync : Sync)
      → Serves s.remote sync
      → Step header s (record s { file = (download_and_append sync s.file).0 })
  -- The loop of `followLines` calls `ReadString`, which gives what stands next in the local file.
  -- When the loop has ended, further calls do nothing.
  read_string :
      (r : Read)
      → Calls 0 (s.calls ++ r ∷ [])
      → Extends (content s.file) (header ++ text_of (s.calls ++ r ∷ []))
      → Step header s (record s { calls = s.calls ++ r ∷ [] })

pub data Steps (header : Bytes) (s : Node) : Node → Type 0 where
  here : Steps header s s
  next : {t u : Node} → Steps header s t → Step header t u → Steps header s u

-- The follower has read the header of the local file and no rule yet.
abbrev pub opened : Bytes → Bytes → Node
opened remote file = record { remote = remote; file = some file; calls = [] }
