-- ===== src/Tests/Repls.antt =====
-- Texts and the terminal: runs, and the theorems at concrete inputs.
use nopfs.Prelude.GoMap.{put}
use nopfs.Prelude.{
  ◌≡◌, ◌≢◌, some, arith, bytes_eq, ◌++◌, refl, true, false, List, [], ◌∷◌, Bytes, codes, bytes_eqb,
  Error, if_cases, Result, ok,
}
use nopfs.Text.{cut}
use nopfs.Text.Decimal.{digits, decimal}
use nopfs.Entry.{zero_entry}
use nopfs.Status.{status_string, blank_response}
use nopfs.Denylist.{Denylist}
use nopfs.Denylist.Lookup
use nopfs.Denylist.Lookup.{is_hit}
use nopfs.Libs.{Libs}
use nopfs.Entry.{check_path_status}
use nopfs.BlocksDb.{load}
use nopfs.Status.{StatusResponse}
use nopfs.Blocker
use nopfs.Blocker.{new_blocker, open_files, first_response}
use nopfs.Texts.{nil_dereference, entry_string, response_string}
use nopfs.Repl.{Input, prompt, usage, program, print_answer}
use nopfs.Repl.Answers.{Printed, program-Printed}
use nopfs.Tests.Rules.{runs}
use nopfs.Tests.Toy.{toy}
use nopfs.Tests.World.{blocks_x, both, in_order}

number : decimal 20180 ≡ codes "20180"
unfolding decimal digits
number = refl

entry_text : entry_string zero_entry ≡ codes "Path: (empty). Prefix: false. AllowRule: false."
unfolding entry_string bytes_eqb
entry_text = refl

abbrev error_text : Error → Bytes
error_text error = codes "error"

blank_panics : response_string toy error_text blank_response ≡ nil_dereference
unfolding response_string
blank_panics = refl

-- `String` panics on the response of `IsSubpathBlocked`: it has no error, no CID and no path.
is_subpath_blocked-nil_dereference :
    (L : Libs) (error_text : Error → Bytes) (dl : Denylist) (subpath : Bytes)
    → response_string L error_text (Lookup.is_subpath_blocked dl subpath) ≡ nil_dereference
unfolding Lookup.is_subpath_blocked response_string
is_subpath_blocked-nil_dereference L error_text dl subpath =
    if_cases (λ (r : StatusResponse). response_string L error_text r ≡ nil_dereference)
      (is_hit (check_path_status (load dl.path_blocks_db subpath).0 subpath).0) refl refl

blocked_text :
    print_answer toy error_text [] both (in_order (codes "a" ∷ [])) (codes "c Qx")
    ≡ codes "Qx: blocked (a.deny:1)\n> "
unfolding print_answer cut response_string status_string decimal digits Blocker.is_cid_blocked
    first_response Lookup.is_cid_blocked runs
blocked_text = refl

abbrev typed : List Input
typed =
    record { interrupted = false; text = codes "c Qx"; order = in_order (codes "a" ∷ []) }
    ∷ record { interrupted = true; text = codes "p /x"; order = in_order [] }
    ∷ []

abbrev load_file : Bytes → Result Denylist
load_file name = ok blocks_x

abbrev recovered : Bytes
recovered = codes "%!v(PANIC=String method: nil)"

no_h : codes "a" ≢ codes "-h"
no_h e = ground arith

no_help : codes "a" ≢ codes "--help"
no_help e = ground arith

a_opens :
    new_blocker load_file (codes "a" ∷ [])
    ≡ (some (record { denylists = put [] (codes "a") blocks_x }), [])
unfolding new_blocker open_files put
a_opens = refl

program-Printed_example :
    (out : Bytes) × (program toy error_text
        (λ errors. codes "errors")
        recovered
        load_file
        (codes "<nil>\n")
        typed
        (codes "nopfs" ∷ codes "a" ∷ [])
      ≡ usage ++ (codes "[CTRL-D to exit]\n" ++ (prompt ++ out)))
    × Printed toy error_text
        (record { denylists = put [] (codes "a") blocks_x })
        (codes "<nil>\n")
        typed
        out
program-Printed_example =
    program-Printed toy error_text (λ errors. codes "errors") recovered load_file (codes "<nil>\n")
      typed (codes "nopfs") (codes "a") [] (record { denylists = put [] (codes "a") blocks_x }) []
      no_h no_help a_opens
