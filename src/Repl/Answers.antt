-- ===== src/Repl/Answers.antt =====
-- What the loop prints.
use nopfs.Prelude.{
  ℕ, ◌≡◌, ◌≢◌, refl, ap, Bool, true, false, List, [], ◌∷◌, ◌++◌, Option, none, some, Bytes, codes,
  bytes_eqb, bytes_eqb-ne, bytes_eqb_iff, Bool-cases, inl, inr, nat_eqb, nat_eqb_iff, Error, Result,
  ok, err, arith, subst, if◌then◌else◌,
}
use nopfs.Libs.{Libs, Cid, IpfsPath}
use nopfs.Text.{cut, contains_byte}
use nopfs.Status.{StatusResponse, status_string}
use nopfs.Denylist.{Denylist}
use nopfs.Blocker
use nopfs.Blocker.{Blocker, RangeOrder, new_blocker}
use nopfs.Texts.{details, entry_string, response_string}
use nopfs.Repl.Cids.{Blocker-cid-IsAbout}
use nopfs.Repl.{
  Input, prompt, usage, print_path, print_cid, print_query, print_answer, print_answers, program,
}

-- A word, the first space of the text, and what stands behind it.
abbrev pub Words : Bytes → Bytes → Bytes → Type 0
Words text typ elem = (text ≡ typ ++ b' ' ∷ elem) × (contains_byte typ b' ' ≡ false)

abbrev CutAt : Bytes → Bytes × Bytes × Bool → Type 0
CutAt text (typ, elem, true) = Words text typ elem
CutAt text (typ, elem, false) = contains_byte text b' ' ≡ false

CutAt-cons :
    (c : ℕ) (s : Bytes) (r : Bytes × Bytes × Bool)
    → nat_eqb c b' ' ≡ false
    → CutAt s r
    → CutAt (c ∷ s) (c ∷ r.0, r.1, r.2)
unfolding contains_byte
CutAt-cons c s (typ, elem, true) other (e, plain) = (ap (λ (t : Bytes). c ∷ t) e, rw (other, plain))
CutAt-cons c s (typ, elem, false) other plain = rw (other, plain)

cut-CutAt : (text : Bytes) → CutAt text (cut text b' ')
unfolding cut
cut-CutAt [] = unfold contains_byte in refl
cut-CutAt (c ∷ s) = elim (Bool-cases (nat_eqb c b' ')) [
  | inl space ↦
      rw space (ap (λ n. n ∷ s) ((nat_eqb_iff c b' ').0 space), (unfold contains_byte in refl))
  | inr other ↦ rw other (CutAt-cons c s (cut s b' ') other (cut-CutAt s))
]

module _ (L : Libs) (error_text : Error → Bytes) (blocker : Blocker) where
  -- What is to be printed for a line.
  pub data Answers (order : RangeOrder) (text out : Bytes) : Type 0 where
    one_word : contains_byte text b' ' ≡ false → out ≡ codes "not found\n" → Answers order text out
    bad_path :
        (elem : Bytes) (error : Error)
        → Words text (codes "p") elem
        → L.new_path elem ≡ err error
        → out ≡ codes "error parsing path: " ++ (error_text error ++ codes "\n")
        → Answers order text out
    path :
        (elem : Bytes) (p : IpfsPath) (r : StatusResponse)
        → Words text (codes "p") elem
        → L.new_path elem ≡ ok p
        → r ≡ Blocker.is_path_blocked L blocker order p
        → out ≡ status_string r.status ++ (codes ": " ++ (entry_string r.entry ++ codes "\n"))
        → Answers order text out
    bad_cid :
        (elem : Bytes) (error : Error)
        → Words text (codes "c") elem
        → L.decode_cid elem ≡ err error
        → out ≡ error_text error ++ codes "\n"
        → Answers order text out
    cid :
        (elem : Bytes) (c : Cid) (r : StatusResponse)
        → Words text (codes "c") elem
        → L.decode_cid elem ≡ ok c
        → r ≡ Blocker.is_cid_blocked L blocker order c
        → r.error ≡ none
        → out ≡ (L.cid_string c ++ details r) ++ codes "\n"
        → Answers order text out
    failed_cid :
        (elem : Bytes) (c : Cid) (error : Error)
        → Words text (codes "c") elem
        → L.decode_cid elem ≡ ok c
        → (Blocker.is_cid_blocked L blocker order c).error ≡ some error
        → out ≡ error_text error ++ codes "\n"
        → Answers order text out
    other :
        (typ elem : Bytes)
        → Words text typ elem
        → typ ≢ codes "p"
        → typ ≢ codes "c"
        → out ≡ usage
        → Answers order text out

  -- What is to be printed for lines: the answers up to an interrupt or the end, each with the prompt
  -- behind it, and then what closing the blocker gives.
  pub data Printed (closing : Bytes) : List Input → Bytes → Type 0 where
    ended : Printed closing [] (codes "\n" ++ closing)
    interrupted :
        (line : Input) (lines : List Input)
        → line.interrupted ≡ true
        → Printed closing (line ∷ lines) closing
    answered :
        (line : Input) (lines : List Input) (out rest : Bytes)
        → line.interrupted ≡ false
        → Answers line.order line.text out
        → Printed closing lines rest
        → Printed closing (line ∷ lines) ((out ++ prompt) ++ rest)

  module _ (recovered : Bytes) where
    path_answer :
        (order : RangeOrder) (text elem : Bytes) (p : Result IpfsPath)
        → Words text (codes "p") elem
        → L.new_path elem ≡ p
        → Answers order text (print_path L error_text recovered blocker order p)
    path_answer order text elem (err error) w e = bad_path elem error w e refl
    path_answer order text elem (ok p) w e = path elem p _ w e refl refl

    response_answer :
        (order : RangeOrder) (text elem : Bytes) (c : Cid) (error : Option Error)
        → Words text (codes "c") elem
        → L.decode_cid elem ≡ ok c
        → (Blocker.is_cid_blocked L blocker order c).error ≡ error
        → Answers order text (print_cid L error_text recovered blocker order (ok c))
    unfolding response_string
    response_answer order text elem c none w e fine =
        cid elem c (Blocker.is_cid_blocked L blocker order c) w e refl fine
          (rw (fine, Blocker-cid-IsAbout L c blocker order))
    response_answer order text elem c (some error) w e fails =
        failed_cid elem c error w e fails (rw fails)

    cid_answer :
        (order : RangeOrder) (text elem : Bytes) (c : Result Cid)
        → Words text (codes "c") elem
        → L.decode_cid elem ≡ c
        → Answers order text (print_cid L error_text recovered blocker order c)
    cid_answer order text elem (err error) w e = bad_cid elem error w e refl
    cid_answer order text elem (ok c) w e = response_answer order text elem c _ w e refl

    query_answer :
        (order : RangeOrder) (text : Bytes) (r : Bytes × Bytes × Bool)
        → CutAt text r
        → Answers order text (print_query L error_text recovered blocker order r)
    query_answer order text (typ, elem, false) plain = one_word plain refl
    query_answer order text (typ, elem, true) w = elim (Bool-cases (bytes_eqb typ (codes "p"))) [
      | inl y ↦
          let as_p = subst (λ (t : Bytes). Words text t elem) ((bytes_eqb_iff typ _).0 y) w in
          rw y (path_answer order text elem (L.new_path elem) as_p refl)
      | inr n ↦ elim (Bool-cases (bytes_eqb typ (codes "c"))) [
        | inl y ↦
            let as_c = subst (λ (t : Bytes). Words text t elem) ((bytes_eqb_iff typ _).0 y) w in
            rw (n, y) (cid_answer order text elem (L.decode_cid elem) as_c refl)
        | inr m ↦
            rw (n, m)
              (other typ elem w (λ e. ground (arith, bytes_eqb_iff typ (codes "p")))
                (λ e. ground (arith, bytes_eqb_iff typ (codes "c"))) refl)
      ]
    ]

    line-Printed :
        (closing : Bytes) (line : Input) (lines : List Input) (out rest : Bytes) (b : Bool)
        → line.interrupted ≡ b
        → Answers line.order line.text out
        → Printed closing lines rest
        → Printed closing (line ∷ lines) (if b then closing else ((out ++ prompt) ++ rest))
    line-Printed closing line lines out rest true now a h = interrupted line lines now
    line-Printed closing line lines out rest false on a h = answered line lines out rest on a h

    lines-Printed :
        (closing : Bytes) (lines : List Input)
        → Printed closing lines (print_answers L error_text recovered blocker closing lines)
    unfolding print_answers print_answer
    lines-Printed closing [] = ended
    lines-Printed closing (line ∷ lines) =
        line-Printed closing line lines _ _ line.interrupted refl
          (query_answer line.order line.text (cut line.text b' ') (cut-CutAt line.text))
          (lines-Printed closing lines)

-- The program for trying a denylist prints, when it is started with the name of a file that opens
-- and is not "-h" or "--help", its usage and a prompt and then, for the lines typed until an
-- interrupt or the end, what each asks for, with a prompt: the status and the entry of the
-- blocker's response to a path; the name, the status and the place of the rule of its response to
-- a CID, or the response's error; the error of a path or a CID that does not parse; "not found"
-- for a line with no space; and the usage for any other word. So the text that `fmt` prints for a
-- panic is never printed. At an interrupt it prints what closing the blocker gives, and at the
-- end of the lines a newline and that. Reading the file, which goes on in a goroutine of its own,
-- is not part of it.
pub program-Printed :
    (L : Libs) (error_text : Error → Bytes) (errors_text : List Error → Bytes) (recovered : Bytes)
    (load_file : Bytes → Result Denylist) (closing : Bytes) (inputs : List Input)
    (name filename : Bytes) (args : List Bytes) (blocker : Blocker) (errors : List Error)
    → filename ≢ codes "-h"
    → filename ≢ codes "--help"
    → new_blocker load_file (filename ∷ []) ≡ (some blocker, errors)
    → (out : Bytes) × (program L error_text errors_text recovered load_file closing inputs
          (name ∷ filename ∷ args)
        ≡ usage ++ (codes "[CTRL-D to exit]\n" ++ (prompt ++ out)))
      × Printed L error_text blocker closing inputs out
unfolding program
program-Printed L error_text errors_text recovered load_file closing inputs name filename args
      blocker errors no_h no_help opens =
    (
      print_answers L error_text recovered blocker closing inputs,
      rw (
        bytes_eqb-ne filename (codes "-h") no_h,
        bytes_eqb-ne filename (codes "--help") no_help,
        opens,
      ),
      lines-Printed L error_text blocker recovered closing inputs,
    )
