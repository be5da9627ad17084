-- ===== src/Repl/Cids.antt =====
-- The response to a CID holds the CID.
use nopfs.Prelude.{
  ℕ, ◌≡◌, refl, List, [], ◌∷◌, Option, none, some, Bytes, bytes_eq, if_cases, Result, ok, err,
}
use nopfs.Libs.{Libs, Cid}
use nopfs.Status.{StatusResponse}
use nopfs.Denylist.{Denylist}
use nopfs.Denylist.Lookup
use nopfs.Denylist.Lookup.{is_hit, double_hash_response, cid_double_hash, legacy_text}
use nopfs.Prelude.GoMap.{get}
use nopfs.Blocker
use nopfs.Blocker.{Blocker, RangeOrder, first_response, or_next_list, ask_list, ask_cid}

abbrev pub IsAbout : Cid → StatusResponse → Type 0
IsAbout c r = r.cid ≡ some c

module _ (L : Libs) (c : Cid) where
  cid_double_hash-IsAbout :
      (dl : Denylist) (order : List ℕ) (r : Result Bytes)
      → IsAbout c (cid_double_hash L dl order c r)
  unfolding double_hash_response
  cid_double_hash-IsAbout dl order (err e) = refl
  cid_double_hash-IsAbout dl order (ok b32) = if_cases (IsAbout c) _ refl refl

  is_cid_blocked-IsAbout :
      (dl : Denylist) (order : List ℕ) → IsAbout c (Lookup.is_cid_blocked L dl order c)
  unfolding Lookup.is_cid_blocked
  is_cid_blocked-IsAbout dl order =
      if_cases (IsAbout c) _ refl (cid_double_hash-IsAbout dl order (legacy_text L c))

  or_next_list-IsAbout :
      (order : List ℕ) (o : Option Denylist) (next : StatusResponse)
      → IsAbout c next
      → IsAbout c (or_next_list (ask_list (λ dl. Lookup.is_cid_blocked L dl order c) o) next)
  or_next_list-IsAbout order none next h = h
  or_next_list-IsAbout order (some dl) next h =
      if_cases (IsAbout c) (is_hit (Lookup.is_cid_blocked L dl order c).status)
        (is_cid_blocked-IsAbout dl order) h

  first_response-IsAbout :
      (blocker : Blocker) (order : RangeOrder) (lists : List Bytes) (default : StatusResponse)
      → IsAbout c default
      → IsAbout c (first_response (ask_cid L blocker order c) lists default)
  unfolding first_response
  first_response-IsAbout blocker order [] default h = h
  first_response-IsAbout blocker order (name ∷ lists) default h =
      or_next_list-IsAbout (order.codes name) (get blocker.denylists name) _
        (first_response-IsAbout blocker order lists default h)

  pub Blocker-cid-IsAbout :
      (blocker : Blocker) (order : RangeOrder)
      → IsAbout c (Blocker.is_cid_blocked L blocker order c)
  unfolding Blocker.is_cid_blocked
  Blocker-cid-IsAbout blocker order = first_response-IsAbout blocker order order.lists _ refl
