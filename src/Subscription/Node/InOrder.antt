-- ===== src/Subscription/Node/InOrder.antt =====
-- What the follower has read begins the local file, which begins the remote one.
use nopfs.Prelude.{
  ◌≡◌, refl, sym, ap, ◌∙◌, List, [], ◌∷◌, ◌++◌, append-nil, append_assoc, Option, none, some, Bytes,
  nat_eqb, length, Error, Result, ok, err, if_cases,
}
use nopfs.Text.Affixes.{Extends}
use nopfs.Denylist.Following.{Read}
use nopfs.Denylist.Tailing.{text_of}
use nopfs.Denylist.Calls.{Calls}
use nopfs.Subscription.{
  Response, Sync, range_header, content, is_refused, append_body, with_stat, with_open,
  download_and_append,
}
use nopfs.Subscription.InStep.{Extends-trans, with_open-Extends}
use nopfs.Subscription.Node.{Node, Step, grow, fire, read_string, Steps, here, next, opened}

pub Extends-refl : (s : Bytes) → Extends s s
Extends-refl s = ([], sym (append-nil s))

append_body-appends :
    (file : Bytes) (r : Result Response) → Extends (content (append_body file r).0) file
append_body-appends file (err e) = Extends-refl file
append_body-appends file (ok resp) =
    if_cases (λ (t : Option Bytes × Option Error). Extends (content t.0) file)
      (nat_eqb resp.status_code 206) (resp.body, refl)
      (if_cases (λ (t : Option Bytes × Option Error). Extends (content t.0) file)
        (is_refused resp.status_code) (Extends-refl file) (Extends-refl file))

with_stat-appends :
    (sync : Sync) (file : Bytes) (o : Option Error)
    → Extends (content (with_stat sync file o).0) file
with_stat-appends sync file none =
    append_body-appends file (sync.request (range_header (length file)))
with_stat-appends sync file (some e) = Extends-refl file

with_open-appends :
    (sync : Sync) (file : Option Bytes) (o : Option Error)
    → Extends (content (with_open sync file o).0) (content file)
with_open-appends sync file none = with_stat-appends sync (content file) sync.stat_error
with_open-appends sync file (some e) = Extends-refl (content file)

-- A sync never takes a byte away.
download_and_append-appends :
    (sync : Sync) (file : Option Bytes)
    → Extends (content (download_and_append sync file).0) (content file)
unfolding download_and_append
download_and_append-appends sync file = with_open-appends sync file sync.open_error

pub record InOrder (header : Bytes) (s : Node) : Type 0 where
  pub local : Extends s.remote (content s.file)
  pub read : Extends (content s.file) (header ++ text_of s.calls)
  pub calls : Calls 0 s.calls

pub opened-InOrder :
    (header remote rest : Bytes)
    → Extends remote (header ++ rest)
    → InOrder header (opened remote (header ++ rest))
opened-InOrder header remote rest x = record {
  local = x;
  read = (rest, ap (λ (t : Bytes). t ++ rest) (sym (append-nil header)));
  calls = tt;
}

Step-InOrder : {header : Bytes} {s t : Node} → Step header s t → InOrder header s → InOrder header t
Step-InOrder {s} (grow more) i = record {
  local = Extends-trans _ _ _ (more, refl) i.local;
  read = i.read;
  calls = i.calls;
}
Step-InOrder {s} (fire sync serves) i = record {
  local =
      unfold download_and_append in
      with_open-Extends s.remote sync s.file sync.open_error serves i.local;
  read = Extends-trans _ _ _ (download_and_append-appends sync s.file) i.read;
  calls = i.calls;
}
Step-InOrder (read_string r calls x) i = record { local = i.local; read = x; calls = calls }

-- Whatever the order of the steps, what the follower has read of the local file begins it, and the
-- local file begins the remote one.
pub Steps-InOrder :
    {header : Bytes} {s t : Node} → InOrder header s → Steps header s t → InOrder header t
Steps-InOrder i here = i
Steps-InOrder i (next r st) = Step-InOrder st (Steps-InOrder i r)

pub text_of-append : (rs qs : List Read) → text_of (rs ++ qs) ≡ text_of rs ++ text_of qs
text_of-append [] qs = refl
text_of-append (r ∷ rs) qs =
    ap (λ (t : Bytes). r.text ++ t) (text_of-append rs qs)
    ∙ sym (append_assoc r.text (text_of rs) (text_of qs))

Step-text_of :
    {header : Bytes} {s t : Node} → Step header s t → Extends (text_of t.calls) (text_of s.calls)
Step-text_of {s} (grow more) = Extends-refl (text_of s.calls)
Step-text_of {s} (fire sync serves) = Extends-refl (text_of s.calls)
Step-text_of {s} (read_string r calls x) = (text_of (r ∷ []), text_of-append s.calls (r ∷ []))

-- What has been read is not read again.
pub Steps-text_of :
    {header : Bytes} {s t : Node} → Steps header s t → Extends (text_of t.calls) (text_of s.calls)
Steps-text_of {s} here = Extends-refl (text_of s.calls)
Steps-text_of (next r st) = Extends-trans _ _ _ (Step-text_of st) (Steps-text_of r)

pub Steps-append :
    {header : Bytes} {s t u : Node} → Steps header s t → Steps header t u → Steps header s u
Steps-append before here = before
Steps-append before (next r st) = next (Steps-append before r) st
