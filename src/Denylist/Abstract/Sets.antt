-- ===== src/Denylist/Abstract/Sets.antt =====
-- The responses form a set, so that functions out of a quotient give them.
use native.Mathlib.Decide.{ℕ_discrete}
use nopfs.Prelude.{Error, Bytes}
use nopfs.Libs.{IpfsPath}
use nopfs.Entry.{Entry, BlockedPath, Status}
use nopfs.Status.{StatusResponse}

Bytes-discrete : Discrete Bytes
Bytes-discrete = hlevel (ℕ_discrete)

Error-discrete : Discrete Error
Error-discrete = hlevel (ℕ_discrete, Bytes-discrete)

Status-discrete : Discrete Status
Status-discrete = hlevel

BlockedPath-discrete : Discrete BlockedPath
BlockedPath-discrete = hlevel (ℕ_discrete, Bytes-discrete)

Entry-discrete : Discrete Entry
Entry-discrete = hlevel (ℕ_discrete, Bytes-discrete, BlockedPath-discrete)

IpfsPath-discrete : Discrete IpfsPath
IpfsPath-discrete = hlevel (ℕ_discrete, Bytes-discrete)

pub StatusResponse-set : IsSet StatusResponse
StatusResponse-set =
    hlevel (
      ℕ_discrete, Bytes-discrete, Error-discrete, Status-discrete, Entry-discrete,
      IpfsPath-discrete,
    )
