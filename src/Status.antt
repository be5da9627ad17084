-- ===== src/Status.antt =====
-- status.go: the answer to a query. `Status` itself stands with the entries.
use nopfs.Prelude.{[], Option, none, some, Bytes, codes, Error}
use nopfs.Libs.{Cid, IpfsPath}
use nopfs.Entry.{Entry, zero_entry, Status, not_found, blocked, allowed, errored}

-- `Status.String`.
unfoldable pub status_string : Status → Bytes
status_string not_found = codes "not found"
status_string blocked = codes "blocked"
status_string allowed = codes "allowed"
status_string errored = codes "errored"

-- `cid` and `path` are `none` where the code leaves `cid.Undef` or a nil interface.
pub record StatusResponse : Type 0 where
  pub cid : Option Cid
  pub path : Option IpfsPath
  pub status : Status
  pub filename : Bytes
  pub entry : Entry
  pub error : Option Error

pub record StatusError : Type 0 where
  pub response : StatusResponse

abbrev pub error_at : Status → StatusResponse → Option StatusError
error_at blocked r = some (record { response = r })
error_at errored r = some (record { response = r })
error_at not_found r = none
error_at allowed r = none

unfoldable pub to_error : StatusResponse → Option StatusError
to_error r = error_at r.status r

abbrev pub blank_response : StatusResponse
blank_response = record {
  cid = none;
  path = none;
  status = not_found;
  filename = [];
  entry = zero_entry;
  error = none;
}
