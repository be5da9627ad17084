-- ===== src/Blocker/Closing.antt =====
-- `Close` of blocker.go and denylist.go: the files and watchers that the denylists hold. An error of
-- `multierr` is the list of its errors.
use nopfs.Prelude.{◌≡◌, refl, Bool, false, List, [], ◌∷◌, ◌++◌, Option, none, some, Bytes, Error}

-- A file or a watcher that is open, or no longer, and what its own `Close` returns.
pub record Handle : Type 0 where
  pub is_open : Bool
  pub close_error : Option Error

-- The fields `watcher` and `f` of a denylist, which may be nil.
pub record Handles : Type 0 where
  pub watcher : Option Handle
  pub file : Option Handle

abbrev pub errors_of : Option Error → List Error
errors_of none = []
errors_of (some error) = error ∷ []

abbrev pub close_handle : Option Handle → Option Handle × List Error
close_handle none = (none, [])
close_handle (some h) = (some (record h { is_open = false }), errors_of h.close_error)

-- `Denylist.Close`.
unfoldable pub close_denylist : Handles → Handles × List Error
close_denylist hs =
    let (watcher, watcher_errors) = close_handle hs.watcher in
    let (file, file_errors) = close_handle hs.file in
    (record { watcher = watcher; file = file }, watcher_errors ++ file_errors)

-- `Blocker.Close` over the denylists, in the order in which Go ranges over them.
unfoldable pub close_blocker : List (Bytes × Handles) → List (Bytes × Handles) × List Error
close_blocker [] = ([], [])
close_blocker ((name, hs) ∷ lists) =
    let (closed, errors) = close_denylist hs in
    let (rest, more) = close_blocker lists in ((name, closed) ∷ rest, errors ++ more)

abbrev pub IsClosed : Option Handle → Type 0
IsClosed none = Unit {0}
IsClosed (some h) = h.is_open ≡ false

abbrev pub AllClosed : List (Bytes × Handles) → Type 0
AllClosed [] = Unit {0}
AllClosed ((name, hs) ∷ lists) = (IsClosed hs.watcher × IsClosed hs.file) × AllClosed lists

close_handle-IsClosed : (o : Option Handle) → IsClosed (close_handle o).0
close_handle-IsClosed none = tt
close_handle-IsClosed (some h) = refl

-- Closing the blocker closes every file and every watcher, whatever errors come of it.
close_blocker-AllClosed : (lists : List (Bytes × Handles)) → AllClosed (close_blocker lists).0
unfolding close_blocker close_denylist
close_blocker-AllClosed [] = tt
close_blocker-AllClosed ((name, hs) ∷ lists) = (
  (close_handle-IsClosed hs.watcher, close_handle-IsClosed hs.file),
  close_blocker-AllClosed lists,
)
