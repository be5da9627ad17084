-- ===== src/Tests/Syncs.antt =====
-- Subscriptions: the theorems at concrete inputs.
use nopfs.Prelude.{
  ℕ, Option, ◌≡◌, refl, [], ◌∷◌, none, some, Bytes, codes, ok, err, Result, ap, sym, append-nil,
  ◌∙◌,
}
use nopfs.Text.Affixes.{Extends}
use nopfs.Text.Decimal.{decimal, digits}
use nopfs.Denylist.HeaderEnd.{skip}
use nopfs.Subscription.{range_header, missing, Sync, Response, content}
use nopfs.Subscription.Range.{range_start, range_start-range_header}
use nopfs.Subscription.Program.{http_program, http_program-Extends}
use nopfs.Subscription.InStep.{Serves}

abbrev remote : Bytes
remote = codes "abc"

range_header_1024 : range_header 1024 ≡ codes "bytes=1024-"
unfolding range_header decimal digits
range_header_1024 = refl

range_start-range_header_test : range_start (range_header 1024) ≡ some 1024
range_start-range_header_test = range_start-range_header 1024

-- What a server sends that has the file, when it is asked for the bytes from an offset on.
abbrev pub send : Bytes → Option ℕ → Result Response
send file none = ok (record { status_code = 200; body = file; body_error = none })
send file (some offset) =
    ok (record { status_code = 206; body = skip offset file; body_error = none })

pub send-range_start :
    (file : Bytes) (offset : ℕ)
    → send file (range_start (range_header offset))
      ≡ ok (record { status_code = 206; body = skip offset file; body_error = none })
send-range_start file offset = ap (send file) (range_start-range_header offset)

-- A server that sends all that is missing of its file.
abbrev pub server : Bytes → Sync
server file = record {
  open_error = none;
  stat_error = none;
  request = λ range. send file (range_start range);
}

abbrev body_of : Result Response → Bytes
body_of (err e) = []
body_of (ok resp) = resp.body

pub server-Serves : (file : Bytes) → Serves file (server file)
server-Serves file offset resp asked partial = (
  [],
  ap body_of (sym (send-range_start file offset)) ∙ ap body_of asked ∙ sym (append-nil resp.body),
)

abbrev good : Sync
good = server remote

good-Serves : Serves remote good
good-Serves = server-Serves remote

http_program-Extends_example : Extends remote (
    content
      (http_program
        (codes "httpsubs" ∷ codes "l" ∷ codes "r" ∷ [])
        missing
        good
        (good ∷ [])
        none).1)
http_program-Extends_example =
    http_program-Extends (codes "httpsubs" ∷ codes "l" ∷ codes "r" ∷ []) missing remote remote good
      (good ∷ []) none (remote, refl) good-Serves (remote, ([], refl), good-Serves, ([], refl))
