-- ===== src/Blocker/Answers.antt =====
-- How the answers of the denylists combine.
use nopfs.Prelude.{
  ◌≡◌, ◌⊎◌, inl, inr, refl, ◌↔◌, true, List, [], ◌∷◌, ◌++◌, ◌∙◌, Option, none, some, Bytes,
  bytes_eq, if◌then◌else◌, arith,
}
use nopfs.Prelude.GoMap.{get}
use nopfs.Libs.{Libs, Cid, IpfsPath}
use nopfs.Entry.{Status, not_found}
use nopfs.Status.{StatusResponse}
use nopfs.Denylist.{Denylist}
use nopfs.Denylist.Lookup
use nopfs.Denylist.Lookup.{is_hit}
use nopfs.Blocker.{
  Blocker, RangeOrder, first_response, or_next_list, ask_cid, ask_path, is_cid_blocked,
  is_path_blocked,
}

-- What a name's denylist says, "not found" where there is none.
abbrev pub said : Option StatusResponse → Status
said none = not_found
said (some r) = r.status

-- Every name's denylist says so.
abbrev pub AllSay : (Bytes → Option StatusResponse) → (Status → Type 0) → List Bytes → Type 0
AllSay ask P [] = Unit {0}
AllSay ask P (name ∷ lists) = P (said (ask name)) × AllSay ask P lists

-- Some name's denylist says so.
abbrev pub SomeSays : (Bytes → Option StatusResponse) → (Status → Type 0) → List Bytes → Type 0
SomeSays ask P [] = ⊥
SomeSays ask P (name ∷ lists) = P (said (ask name)) ⊎ SomeSays ask P lists

or_next_list-status :
    (o : Option StatusResponse) (next : StatusResponse)
    → (or_next_list o next).status ≡ (if is_hit (said o) then said o else next.status)
or_next_list-status none next = refl
or_next_list-status (some r) next = ground arith

or_next_list_silent :
    (o : Option StatusResponse) (next : StatusResponse)
    → said o ≡ not_found
    → or_next_list o next ≡ next
or_next_list_silent none next h = refl
or_next_list_silent (some r) next h = ground arith

-- The first response that says something is the answer.
first_response-hit :
    (ask : Bytes → Option StatusResponse) (default : StatusResponse) (before after : List Bytes)
    (f : Bytes) (r : StatusResponse)
    → AllSay ask (λ s. s ≡ not_found) before
    → ask f ≡ some r
    → is_hit r.status ≡ true
    → first_response ask (before ++ f ∷ after) default ≡ r
unfolding first_response
first_response-hit ask default [] after f r h held hit = rw (held, hit)
first_response-hit ask default (name ∷ before) after f r h held hit =
    or_next_list_silent (ask name) _ h.0
    ∙ first_response-hit ask default before after f r h.1 held hit

module _ (ask : Bytes → Option StatusResponse) (default : StatusResponse)
    (silent : default.status ≡ not_found) where
  first_response-silent :
      (lists : List Bytes)
      → (first_response ask lists default).status ≡ not_found
      → AllSay ask (λ s. s ≡ not_found) lists
  unfolding first_response
  first_response-silent [] h = tt
  first_response-silent (name ∷ lists) h =
      let e = or_next_list-status (ask name) (first_response ask lists default) in
      (ground arith, first_response-silent lists (ground arith))

  silent-first_response :
      (lists : List Bytes)
      → AllSay ask (λ s. s ≡ not_found) lists
      → (first_response ask lists default).status ≡ not_found
  unfolding first_response
  silent-first_response [] h = silent
  silent-first_response (name ∷ lists) h =
      let e = or_next_list-status (ask name) (first_response ask lists default) in
      ground (arith, silent-first_response lists h.1)

  -- Where the only words are `s` and "not found", and one says `s`, the answer is `s`.
  one_word :
      (s : Status) (lists : List Bytes)
      → is_hit s ≡ true
      → AllSay ask (λ t. (t ≡ s) ⊎ (t ≡ not_found)) lists
      → SomeSays ask (λ t. t ≡ s) lists
      → (first_response ask lists default).status ≡ s
  unfolding first_response
  one_word s [] h all one = absurd one
  one_word s (name ∷ lists) h (first, all) (inl now) =
      let e = or_next_list-status (ask name) (first_response ask lists default) in ground arith
  one_word s (name ∷ lists) h (inl now, all) (inr later) =
      let e = or_next_list-status (ask name) (first_response ask lists default) in ground arith
  one_word s (name ∷ lists) h (inr quiet, all) (inr later) =
      let e = or_next_list-status (ask name) (first_response ask lists default) in
      ground (arith, one_word s lists h all later)

module _ (L : Libs) where
  -- A CID is "not found" exactly when every denylist that is asked says so. It is blocked, in
  -- whatever order the denylists are asked, when one of them blocks it and every other one says
  -- "blocked" or "not found"; and so for "allowed" and for "errored".
  pub is_cid_blocked-agree :
      (b : Blocker) (order : RangeOrder) (c : Cid)
      → (((is_cid_blocked L b order c).status ≡ not_found)
          ↔ AllSay (ask_cid L b order c) (λ s. s ≡ not_found) order.lists)
        × ((s : Status)
            → is_hit s ≡ true
            → AllSay (ask_cid L b order c) (λ t. (t ≡ s) ⊎ (t ≡ not_found)) order.lists
            → SomeSays (ask_cid L b order c) (λ t. t ≡ s) order.lists
            → (is_cid_blocked L b order c).status ≡ s)
  unfolding is_cid_blocked
  is_cid_blocked-agree b order c = (
    (first_response-silent _ _ refl order.lists, silent-first_response _ _ refl order.lists),
    λ s h all one. one_word _ _ refl s order.lists h all one,
  )

  -- A path is "not found" exactly when every denylist that is asked says so. It is blocked, in
  -- whatever order the denylists are asked, when one of them blocks it and every other one says
  -- "blocked" or "not found"; and so for "allowed" and for "errored".
  pub is_path_blocked-agree :
      (b : Blocker) (order : RangeOrder) (p : IpfsPath)
      → (((is_path_blocked L b order p).status ≡ not_found)
          ↔ AllSay (ask_path L b order p) (λ s. s ≡ not_found) order.lists)
        × ((s : Status)
            → is_hit s ≡ true
            → AllSay (ask_path L b order p) (λ t. (t ≡ s) ⊎ (t ≡ not_found)) order.lists
            → SomeSays (ask_path L b order p) (λ t. t ≡ s) order.lists
            → (is_path_blocked L b order p).status ≡ s)
  unfolding is_path_blocked
  is_path_blocked-agree b order p = (
    (first_response-silent _ _ refl order.lists, silent-first_response _ _ refl order.lists),
    λ s h all one. one_word _ _ refl s order.lists h all one,
  )

  -- The first denylist of the range that has anything to say of a CID decides: the response is its
  -- own, whatever the denylists behind it say, if those before it all say "not found". And so for a
  -- path.
  pub first_list_decides :
      (b : Blocker) (order : RangeOrder) (before after : List Bytes) (f : Bytes) (dl : Denylist)
      → order.lists ≡ before ++ f ∷ after
      → get b.denylists f ≡ some dl
      → ((c : Cid)
          → AllSay (ask_cid L b order c) (λ s. s ≡ not_found) before
          → is_hit (Lookup.is_cid_blocked L dl (order.codes f) c).status ≡ true
          → is_cid_blocked L b order c ≡ Lookup.is_cid_blocked L dl (order.codes f) c)
        × ((p : IpfsPath)
            → AllSay (ask_path L b order p) (λ s. s ≡ not_found) before
            → is_hit (Lookup.is_path_blocked L dl (order.codes f) p).status ≡ true
            → is_path_blocked L b order p ≡ Lookup.is_path_blocked L dl (order.codes f) p)
  unfolding is_cid_blocked is_path_blocked
  first_list_decides b order before after f dl lists held = (
    λ c quiet hit.
        rw lists (first_response-hit (ask_cid L b order c) _ before after f _ quiet (rw held) hit),
    λ p quiet hit.
        rw lists (first_response-hit (ask_path L b order p) _ before after f _ quiet (rw held) hit),
  )
