-- ===== src/Subscription/Program.antt =====
-- cmd/httpsubs/main.go: the program that keeps a file in step until it is interrupted.
use nopfs.Prelude.{List, [], ◌∷◌, Option, none, some, Bytes, Error}
use nopfs.Text.Affixes.{Extends}
use nopfs.Subscription.{
  Sync, content, download_and_append, Ready, stop, timer, subscribe, FileStat, found, missing,
  stat_failed, new_http_subscriber,
}
use nopfs.Subscription.InStep.{Serves, Grows, Extends-trans, with_open-Extends, subscribe-Extends}

-- How the program ends: with the usage or an error and status 1, or stopped by an interrupt.
pub data Ended : Type 0 where
  usage_shown : Ended
  failed : Error → Ended
  stopped : Ended

-- The syncs that come before the interrupt, and then `Stop`.
abbrev pub until_stop : List Sync → List Ready
until_stop [] = stop ∷ []
until_stop (sync ∷ syncs) = timer sync ∷ until_stop syncs

abbrev pub with_subscriber : List Sync → Option Bytes × Option Error → Ended × Option Bytes
with_subscriber syncs (file, some error) = (failed error, file)
with_subscriber syncs (file, none) = (stopped, (subscribe file (until_stop syncs)).0)

-- `main`: the arguments with the program's name, what `os.Stat` says of the local file, the first
-- sync, which is made if the file is missing, and the file.
unfoldable pub http_program :
    List Bytes → FileStat → Sync → List Sync → Option Bytes → Ended × Option Bytes
http_program (name ∷ local ∷ remote ∷ []) stat first syncs file =
    with_subscriber syncs (new_http_subscriber stat first file)
http_program _ stat first syncs file = (usage_shown, file)

Grows→Extends :
    (remote last : Bytes) (syncs : List Sync)
    → Grows remote last (until_stop syncs)
    → Extends last remote
Grows→Extends remote last [] grown = grown
Grows→Extends remote last (sync ∷ syncs) (remote', more, serves, grown) =
    Extends-trans last remote' remote (Grows→Extends remote' last syncs grown) more

new_http_subscriber-Extends :
    (remote : Bytes) (stat : FileStat) (first : Sync) (file : Option Bytes)
    → Serves remote first
    → Extends remote (content file)
    → Extends remote (content (new_http_subscriber stat first file).0)
unfolding new_http_subscriber download_and_append
new_http_subscriber-Extends remote found first file serves x = x
new_http_subscriber-Extends remote missing first file serves x =
    with_open-Extends remote first file first.open_error serves x
new_http_subscriber-Extends remote (stat_failed error) first file serves x = x

with_subscriber-Extends :
    (remote last : Bytes) (syncs : List Sync) (file : Option Bytes) (o : Option Error)
    → Extends remote (content file)
    → Grows remote last (until_stop syncs)
    → Extends last (content (with_subscriber syncs (file, o)).1)
with_subscriber-Extends remote last syncs file (some error) x grown =
    Extends-trans last remote (content file) (Grows→Extends remote last syncs grown) x
with_subscriber-Extends remote last syncs file none x grown =
    subscribe-Extends remote last file (until_stop syncs) x grown

-- However the program that keeps a local file in step ends, and whatever errors its syncs meet, the
-- local file begins the remote one, if it began it before: with any arguments, with a first sync for
-- a file that is missing, and with any number of syncs before the interrupt. The remote file is only
-- appended to, and each partial response begins what the remote file has from the requested offset
-- on.
pub http_program-Extends :
    (args : List Bytes) (stat : FileStat) (remote last : Bytes) (first : Sync) (syncs : List Sync)
    (file : Option Bytes)
    → Extends remote (content file)
    → Serves remote first
    → Grows remote last (until_stop syncs)
    → Extends last (content (http_program args stat first syncs file).1)
unfolding http_program
http_program-Extends (name ∷ local ∷ source ∷ []) stat remote last first syncs file x serves grown =
    with_subscriber-Extends remote last syncs (new_http_subscriber stat first file).0
      (new_http_subscriber stat first file).1
      (new_http_subscriber-Extends remote stat first file serves x) grown
http_program-Extends [] stat remote last first syncs file x serves grown =
    Extends-trans last remote (content file) (Grows→Extends remote last syncs grown) x
http_program-Extends (a ∷ []) stat remote last first syncs file x serves grown =
    Extends-trans last remote (content file) (Grows→Extends remote last syncs grown) x
http_program-Extends (a ∷ b ∷ []) stat remote last first syncs file x serves grown =
    Extends-trans last remote (content file) (Grows→Extends remote last syncs grown) x
http_program-Extends (a ∷ b ∷ c ∷ d ∷ args) stat remote last first syncs file x serves grown =
    Extends-trans last remote (content file) (Grows→Extends remote last syncs grown) x
