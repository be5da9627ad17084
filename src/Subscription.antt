-- ===== src/Subscription.antt =====
-- subscription.go: a local file that is kept in step with a file on a server by appending to it what
-- the server has behind its end.
pub mod Range
pub mod InStep
pub mod Followers
pub mod Program
pub mod Node
use nopfs.Prelude.{
  ℕ, Bool, true, false, not, ◌&&◌, ◌||◌, List, [], ◌∷◌, ◌++◌, Option, none, some, Bytes, codes,
  nat_eqb, leb, length, if◌then◌else◌, Error, unexpected_code, Result, ok, err,
}
use nopfs.Text.Decimal.{decimal}

-- A response: `body` is what `io.Copy` appends before it ends with `body_error` or with none.
pub record Response : Type 0 where
  pub status_code : ℕ
  pub body : Bytes
  pub body_error : Option Error

-- What one sync meets: the error of opening the local file, that of its `Stat`, and what comes of a
-- request with a Range header, be it the error of making the request or of sending it.
pub record Sync : Type 0 where
  pub open_error : Option Error
  pub stat_error : Option Error
  pub request : Bytes → Result Response

-- The header that asks for the bytes from an offset on.
unfoldable pub range_header : ℕ → Bytes
range_header size = codes "bytes=" ++ (decimal size ++ codes "-")

-- The bytes of the local file, which `os.OpenFile` creates.
abbrev pub content : Option Bytes → Bytes
content none = []
content (some bytes) = bytes

abbrev pub is_refused : ℕ → Bool
is_refused code = leb 400 code && not (nat_eqb code 416) || leb 500 code

-- The switch on the status.
abbrev pub append_body : Bytes → Result Response → Option Bytes × Option Error
append_body file (err error) = (some file, some error)
append_body file (ok resp) =
    if nat_eqb resp.status_code 206
    then (some (file ++ resp.body), resp.body_error)
    else if is_refused resp.status_code
    then (some file, some (unexpected_code resp.status_code))
    else (some file, none)

abbrev pub with_stat : Sync → Bytes → Option Error → Option Bytes × Option Error
with_stat sync file (some error) = (some file, some error)
with_stat sync file none = append_body file (sync.request (range_header (length file)))

abbrev pub with_open : Sync → Option Bytes → Option Error → Option Bytes × Option Error
with_open sync file (some error) = (file, some error)
with_open sync file none = with_stat sync (content file) sync.stat_error

unfoldable pub download_and_append : Sync → Option Bytes → Option Bytes × Option Error
download_and_append sync file = with_open sync file sync.open_error

-- What `select` finds ready: the stop channel or the timer.
pub data Ready : Type 0 where
  stop : Ready
  timer : Sync → Ready

-- The local file, and whether the loop goes on.
abbrev pub Subscribed : Type 0
Subscribed = Option Bytes × Bool

-- The loop of `subscribe`; the error of a sync is logged.
unfoldable pub subscribe : Option Bytes → List Ready → Subscribed
subscribe file [] = (file, true)
subscribe file (stop ∷ ready) = (file, false)
subscribe file (timer sync ∷ ready) = subscribe (download_and_append sync file).0 ready

-- What `os.Stat` says of the local file.
pub data FileStat : Type 0 where
  found missing : FileStat
  stat_failed : Error → FileStat

-- `NewHTTPSubscriber`: the local file and the error that it returns, behind which there is no
-- subscription; a file that is missing is fetched first.
unfoldable pub new_http_subscriber : FileStat → Sync → Option Bytes → Option Bytes × Option Error
new_http_subscriber found sync file = (file, none)
new_http_subscriber missing sync file = download_and_append sync file
new_http_subscriber (stat_failed error) sync file = (file, some error)
