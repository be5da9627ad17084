-- ===== src/Repl.antt =====
-- cmd/nopfs/main.go: the loop that reads queries from the terminal and prints the answers. What is
-- printed is a text; a line comes with the orders in which the maps are ranged over for it.
pub mod Cids
pub mod Answers
use nopfs.Prelude.{
  Bool, true, false, ◌||◌, List, [], ◌∷◌, ◌++◌, Option, none, some, Bytes, codes, bytes_eqb,
  if◌then◌else◌, Error, Result, ok, err,
}
use nopfs.Libs.{Libs, Cid, IpfsPath}
use nopfs.Text.{cut}
use nopfs.Status.{StatusResponse, status_string}
use nopfs.Blocker
use nopfs.Denylist.{Denylist}
use nopfs.Blocker.{Blocker, RangeOrder, new_blocker}
use nopfs.Texts.{Shown, shown, nil_dereference, entry_string, response_string}

-- A line of the terminal, and whether an interrupt has come before it.
pub record Input : Type 0 where
  pub interrupted : Bool
  pub text : Bytes
  pub order : RangeOrder

abbrev pub prompt : Bytes
prompt = codes "> "

abbrev pub usage : Bytes
usage = codes "Usage:\n> c <cid>\n> p <path>\n"

-- What `fmt` prints of a value with a method `String`: its text, or, where the method panics, which
-- `fmt` recovers, the text `recovered`.
abbrev pub fmt_text : Bytes → Shown → Bytes
fmt_text recovered (shown text) = text
fmt_text recovered nil_dereference = recovered

module _ (L : Libs) (error_text : Error → Bytes) (recovered : Bytes) (blocker : Blocker) where
  abbrev pub print_path : RangeOrder → Result IpfsPath → Bytes
  print_path order (err error) = codes "error parsing path: " ++ (error_text error ++ codes "\n")
  print_path order (ok p) =
      let r = Blocker.is_path_blocked L blocker order p in
      status_string r.status ++ (codes ": " ++ (entry_string r.entry ++ codes "\n"))

  abbrev pub print_cid : RangeOrder → Result Cid → Bytes
  print_cid order (err error) = error_text error ++ codes "\n"
  print_cid order (ok c) =
      fmt_text recovered (response_string L error_text (Blocker.is_cid_blocked L blocker order c))
      ++ codes "\n"

  -- The switch.
  abbrev pub print_query : RangeOrder → Bytes × Bytes × Bool → Bytes
  print_query order (typ, elem, false) = codes "not found\n"
  print_query order (typ, elem, true) =
      if bytes_eqb typ (codes "p")
      then print_path order (L.new_path elem)
      else if bytes_eqb typ (codes "c")
      then print_cid order (L.decode_cid elem)
      else usage

  -- A line, with the prompt behind its answer.
  unfoldable pub print_answer : RangeOrder → Bytes → Bytes
  print_answer order text = print_query order (cut text b' ') ++ prompt

  -- The loop; `closing` is what printing the result of `Close` gives.
  unfoldable pub print_answers : Bytes → List Input → Bytes
  print_answers closing [] = codes "\n" ++ closing
  print_answers closing (line ∷ lines) =
      let answers = print_answer line.order line.text ++ print_answers closing lines in
      if line.interrupted then closing else answers

abbrev pub help : Bytes
help = codes "nopfs: denylist testing REPL\n\nUsage: ./nopfs list.deny\n"

module _ (L : Libs) (error_text : Error → Bytes) (errors_text : List Error → Bytes)
    (recovered : Bytes) (load_file : Bytes → Result Denylist) where
  -- Behind `NewBlocker`: its error, or the usage, the first prompt and the loop.
  abbrev pub session : Bytes → List Input → Option Blocker × List Error → Bytes
  session closing inputs (none, errors) = errors_text errors ++ codes "\n"
  session closing inputs (some blocker, errors) =
      usage
      ++ (codes "[CTRL-D to exit]\n"
          ++ (prompt ++ print_answers L error_text recovered blocker closing inputs))

  -- `main`, where `args` is `os.Args`.
  unfoldable pub program : Bytes → List Input → List Bytes → Bytes
  program closing inputs [] = help
  program closing inputs (name ∷ []) = help
  program closing inputs (name ∷ filename ∷ args) =
      if bytes_eqb filename (codes "-h") || bytes_eqb filename (codes "--help")
      then help
      else session closing inputs (new_blocker load_file (filename ∷ []))
