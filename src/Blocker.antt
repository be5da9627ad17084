-- ===== src/Blocker.antt =====
-- blocker.go: several denylists asked together.
pub mod Opening
pub mod Answers
pub mod Closing
pub mod Citing
use nopfs.Prelude.{
  ℕ, ◌≡◌, Bool, true, false, ◌&&◌, List, [], ◌∷◌, ◌++◌, Option, none, some, Bytes, nat_eqb, ltb,
  bytes_eq, length, if◌then◌else◌, Error, Result, ok, err,
}
use nopfs.Prelude.GoMap.{GoMap, get, put}
use nopfs.Libs.{Libs, Cid, IpfsPath}
use nopfs.Entry.{Status, not_found}
use nopfs.Status.{StatusResponse, blank_response}
use nopfs.Denylist.{Denylist}
use nopfs.Denylist.Lookup
use nopfs.Denylist.Lookup.{is_hit}

pub record Blocker : Type 0 where
  pub denylists : GoMap Bytes Denylist

-- The orders in which Go ranges over the maps during one query: the names of the denylists, and
-- for each name the codes of its double-hash index.
pub record RangeOrder : Type 0 where
  pub lists : List Bytes
  pub codes : Bytes → List ℕ

-- The loop of `NewBlocker` over the files, with the errors met. `load_file` is what `NewDenylist` returns
-- for a file.
unfoldable pub open_files :
    (Bytes → Result Denylist) → List Bytes → Blocker → List Error → Blocker × List Error
open_files load_file [] blocker errors = (blocker, errors)
open_files load_file (fname ∷ files) blocker errors = elim (load_file fname) [
  | ok dl ↦
      open_files load_file files (record { denylists = put blocker.denylists fname dl }) errors
  | err e ↦ open_files load_file files blocker (errors ++ e ∷ [])
]

abbrev pub empty_blocker : Blocker
empty_blocker = record { denylists = [] }

-- The blocker, or none with the errors.
abbrev pub unless_all_failed : List Bytes → Blocker × List Error → Option Blocker × List Error
unless_all_failed files (blocker, errors) =
    if ltb 0 (length errors) && nat_eqb (length errors) (length files)
    then (none, errors)
    else (some blocker, [])

unfoldable pub new_blocker : (Bytes → Result Denylist) → List Bytes → Option Blocker × List Error
new_blocker load_file files = unless_all_failed files (open_files load_file files empty_blocker [])

abbrev pub or_next_list : Option StatusResponse → StatusResponse → StatusResponse
or_next_list none next = next
or_next_list (some response) next = if is_hit response.status then response else next

-- `for _, dl := range blocker.Denylists`: the first response that is no "not found".
unfoldable pub first_response :
    (Bytes → Option StatusResponse) → List Bytes → StatusResponse → StatusResponse
first_response ask [] default = default
first_response ask (name ∷ lists) default =
    or_next_list (ask name) (first_response ask lists default)

abbrev pub ask_list : (Denylist → StatusResponse) → Option Denylist → Option StatusResponse
ask_list query none = none
ask_list query (some dl) = some (query dl)

module _ (L : Libs) where
  -- What the denylist of a name says of a CID or a path.
  abbrev pub ask_cid : Blocker → RangeOrder → Cid → Bytes → Option StatusResponse
  ask_cid blocker order c name =
      ask_list (λ dl. Lookup.is_cid_blocked L dl (order.codes name) c) (get blocker.denylists name)

  abbrev pub ask_path : Blocker → RangeOrder → IpfsPath → Bytes → Option StatusResponse
  ask_path blocker order p name =
      ask_list (λ dl. Lookup.is_path_blocked L dl (order.codes name) p) (get blocker.denylists name)

  unfoldable pub is_cid_blocked : Blocker → RangeOrder → Cid → StatusResponse
  is_cid_blocked blocker order c =
      first_response (ask_cid blocker order c) order.lists
        (record blank_response { cid = some c; status = not_found })

  unfoldable pub is_path_blocked : Blocker → RangeOrder → IpfsPath → StatusResponse
  is_path_blocked blocker order p =
      first_response (ask_path blocker order p) order.lists
        (record blank_response { path = some p; status = not_found })
