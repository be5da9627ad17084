-- ===== src/Blocker/Citing.antt =====
-- Whose response a blocker gives.
use nopfs.Prelude.{
  ◌≡◌, ◌≢◌, ◌⊎◌, inl, inr, refl, ap, ◌∙◌, List, [], ◌∷◌, Option, none, some, Bytes, bytes_eq,
  if_split, arith,
}
use nopfs.Prelude.GoMap.{get}
use nopfs.Libs.{Libs, Cid, IpfsPath}
use nopfs.Entry.{not_found}
use nopfs.Status.{StatusResponse}
use nopfs.Denylist.{Denylist}
use nopfs.Denylist.Lookup
use nopfs.Denylist.Lookup.{is_hit}
use nopfs.Blocker.{
  Blocker, RangeOrder, first_response, or_next_list, ask_list, ask_cid, ask_path, is_cid_blocked,
  is_path_blocked,
}

-- The default, or what some name's denylist says.
abbrev FromOne : (Bytes → Option StatusResponse) → StatusResponse → StatusResponse → Type 0
FromOne ask default r = (r ≡ default) ⊎ ((name : Bytes) × (ask name ≡ some r))

FromOne-or_next_list :
    (ask : Bytes → Option StatusResponse) (default next : StatusResponse) (name : Bytes)
    (o : Option StatusResponse)
    → ask name ≡ o
    → FromOne ask default next
    → FromOne ask default (or_next_list o next)
FromOne-or_next_list ask default next name none e h = h
FromOne-or_next_list ask default next name (some r) e h =
    if_split (FromOne ask default) (is_hit r.status) (λ hit. inr (name, e)) (λ silent. h)

first_response-FromOne :
    (ask : Bytes → Option StatusResponse) (lists : List Bytes) (default : StatusResponse)
    → FromOne ask default (first_response ask lists default)
unfolding first_response
first_response-FromOne ask [] default = inl refl
first_response-FromOne ask (name ∷ lists) default =
    FromOne-or_next_list ask default (first_response ask lists default) name (ask name) refl
      (first_response-FromOne ask lists default)

ask_list-some :
    (query : Denylist → StatusResponse) (o : Option Denylist) (r : StatusResponse)
    → ask_list query o ≡ some r
    → (dl : Denylist) × (o ≡ some dl) × (query dl ≡ r)
ask_list-some query none r e = absurd (ground arith)
ask_list-some query (some dl) r e = (dl, refl, ground arith)

-- A response that is no "not found" is that of a denylist that the blocker holds.
abbrev pub FromDenylist : Blocker → (Bytes → Denylist → StatusResponse) → StatusResponse → Type 0
FromDenylist blocker query r =
    (name : Bytes) × (dl : Denylist) × (get blocker.denylists name ≡ some dl) × (query name dl ≡ r)

hit-FromDenylist :
    (blocker : Blocker) (query : Bytes → Denylist → StatusResponse) (default r : StatusResponse)
    → default.status ≡ not_found
    → r.status ≢ not_found
    → FromOne (λ name. ask_list (query name) (get blocker.denylists name)) default r
    → FromDenylist blocker query r
hit-FromDenylist blocker query default r silent hit (inl e) =
    absurd (hit (ap (λ (t : StatusResponse). t.status) e ∙ silent))
hit-FromDenylist blocker query default r silent hit (inr (name, e)) =
    let (dl, held, said) = ask_list-some (query name) (get blocker.denylists name) r e in
    (name, dl, held, said)

module _ (L : Libs) (blocker : Blocker) (order : RangeOrder) where
  pub is_cid_blocked-FromDenylist :
      (c : Cid)
      → (is_cid_blocked L blocker order c).status ≢ not_found
      → FromDenylist blocker
          (λ name dl. Lookup.is_cid_blocked L dl (order.codes name) c)
          (is_cid_blocked L blocker order c)
  unfolding is_cid_blocked
  is_cid_blocked-FromDenylist c hit =
      hit-FromDenylist blocker (λ name dl. Lookup.is_cid_blocked L dl (order.codes name) c) _ _ refl
        hit (first_response-FromOne (ask_cid L blocker order c) order.lists _)

  pub is_path_blocked-FromDenylist :
      (p : IpfsPath)
      → (is_path_blocked L blocker order p).status ≢ not_found
      → FromDenylist blocker
          (λ name dl. Lookup.is_path_blocked L dl (order.codes name) p)
          (is_path_blocked L blocker order p)
  unfolding is_path_blocked
  is_path_blocked-FromDenylist p hit =
      hit-FromDenylist blocker (λ name dl. Lookup.is_path_blocked L dl (order.codes name) p) _ _
        refl hit (first_response-FromOne (ask_path L blocker order p) order.lists _)
