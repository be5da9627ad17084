-- ===== src/Denylist/Waiting.antt =====
-- `waitForWrite` of `parseAndFollow`: the wait for the watcher of a file, as the events and the
-- errors that its `select` receives one after the other.
use nopfs.Prelude.{
  ◌≡◌, refl, ap, Bool, true, false, List, [], ◌∷◌, ◌++◌, Option, none, some, if◌then◌else◌, Error,
}
use nopfs.Denylist.Following.{ReadEnd, at_eof}

-- An event, with whether its `Op` has the bit `fsnotify.Write`, or what the channel of errors gives.
pub data WatchEvent : Type 0 where
  event : Bool → WatchEvent
  watch_error : Option Error → WatchEvent

-- The wait goes on, or it has returned nil or an error.
pub data Waited : Type 0 where
  waiting : Waited
  returned_error : Option Error → Waited

unfoldable pub wait_for_write : List WatchEvent → Waited
wait_for_write [] = waiting
wait_for_write (watch_error error ∷ events) = returned_error error
wait_for_write (event is_write ∷ events) =
    let later = wait_for_write events in if is_write then returned_error none else later

-- How a call of `ReadString` at the end of the file ends, once the wait behind it has returned.
abbrev pub end_of_wait : Waited → Option ReadEnd
end_of_wait waiting = none
end_of_wait (returned_error error) = some (at_eof error)

-- Only events that are no writes.
abbrev pub NoWrites : List WatchEvent → Type 0
NoWrites [] = Unit {0}
NoWrites (event is_write ∷ events) = (is_write ≡ false) × NoWrites events
NoWrites (watch_error error ∷ events) = ⊥

-- The wait passes over events that are no writes, such as a change of the mode.
wait_for_write-NoWrites :
    (before after : List WatchEvent)
    → NoWrites before
    → wait_for_write (before ++ after) ≡ wait_for_write after
unfolding wait_for_write
wait_for_write-NoWrites [] after h = refl
wait_for_write-NoWrites (event is_write ∷ before) after (quiet, h) =
    rw quiet (wait_for_write-NoWrites before after h)
wait_for_write-NoWrites (watch_error error ∷ before) after h = absurd h

-- It ends at the first write with no error, whatever comes behind it.
wait_for_write-event :
    (before after : List WatchEvent)
    → NoWrites before
    → end_of_wait (wait_for_write (before ++ event true ∷ after)) ≡ some (at_eof none)
unfolding wait_for_write
wait_for_write-event before after h = ap end_of_wait (wait_for_write-NoWrites before _ h)
