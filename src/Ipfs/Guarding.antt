-- ===== src/Ipfs/Guarding.antt =====
-- From a line of a denylist to what the wrapped services do.
use nopfs.Prelude.{
  ℕ, ◌≡◌, ◌⊎◌, inl, inr, refl, sym, subst, ap, ◌∙◌, Option, none, some, List, [], ◌∷◌, Bytes, ok,
  bytes_eq, false,
}
use nopfs.Prelude.GoMap.{get}
use nopfs.Libs.{Libs, Cid, IpfsPath}
use nopfs.Entry.{Status, not_found, blocked}
use nopfs.Status.{StatusResponse, to_error}
use nopfs.Denylist.{Denylist}
use nopfs.Denylist.Lookup
use nopfs.Denylist.Rules.{returned}
use nopfs.Denylist.Parsing.{parse_line, is_safe}
use nopfs.Denylist.RuleText.{block}
use nopfs.Denylist.IpfsRules.{ipfs_line, IsName}
use nopfs.Denylist.Blocking.{cid_rule_decides}
use nopfs.Blocker
use nopfs.Blocker.{Blocker, RangeOrder, ask_cid, ask_list}
use nopfs.Blocker.Answers.{AllSay, SomeSays, said, is_cid_blocked-agree}
use nopfs.Ipfs.{World, failure, status_error, path_error}
use nopfs.Ipfs.BlockService.{Blocks, BlockService, wrap_block_service}
use nopfs.Ipfs.Paths.{Names, NameSystem, Resolver, wrap_name_system, wrap_resolver}
use nopfs.Ipfs.Filtering.{Denies, to_error_denied, response}

returned-injective : (dl dl' : Denylist) → returned dl none ≡ returned dl' none → dl ≡ dl'
returned-injective dl dl' e = cc

abbrev pub InNames : Bytes → List Bytes → Type 0
InNames f [] = ⊥
InNames f (g ∷ names) = (g ≡ f) ⊎ InNames f names

SomeSays-at :
    (ask : Bytes → Option StatusResponse) (P : Status → Type 0) (f : Bytes) (names : List Bytes)
    → InNames f names
    → P (said (ask f))
    → SomeSays ask P names
SomeSays-at ask P f [] i h = absurd i
SomeSays-at ask P f (g ∷ names) (inl e) h = inl (rw e h)
SomeSays-at ask P f (g ∷ names) (inr i) h = inr (SomeSays-at ask P f names i h)

rule_line_says :
    (L : Libs) (dl dl' : Denylist) (codes : List ℕ) (name : Bytes) (number : ℕ) (c q : Cid)
    → IsName name
    → L.decode_cid name ≡ ok c
    → is_safe L c ≡ false
    → L.hash q ≡ L.hash c
    → parse_line L dl (ipfs_line block name none) number ≡ returned dl' none
    → (Lookup.is_cid_blocked L dl' codes q).status ≡ blocked
rule_line_says L dl dl' codes name number c q n decodes other same parsed =
    let (read, line, hit, rest) = cid_rule_decides L dl codes block name number c n decodes other in
    subst (λ (d : Denylist). (Lookup.is_cid_blocked L d codes q).status ≡ blocked)
      (returned-injective read dl' (sym line ∙ parsed)) (hit q same)

-- A denylist that the blocker holds and asks says "blocked".
pub word_denies_block :
    (L : Libs) (W : World) (B : Blocks) (bs : BlockService B W.State) (s : W.State) (dl : Denylist)
    (f : Bytes) (q : Cid)
    → (Lookup.is_cid_blocked L dl ((W.cid_order s q).codes f) q).status ≡ blocked
    → get (W.blocker s).denylists f ≡ some dl
    → InNames f (W.cid_order s q).lists
    → AllSay
        (ask_cid L (W.blocker s) (W.cid_order s q) q)
        (λ t. (t ≡ blocked) ⊎ (t ≡ not_found))
        (W.cid_order s q).lists
    → (wrap_block_service L W B bs).get_block q s
      ≡ (failure (status_error (record { response = response L W B s q })), s)
unfolding wrap_block_service
word_denies_block L W B bs s dl f q word held asked rest =
    let order = W.cid_order s q in
    let here : said (ask_cid L (W.blocker s) order q f) ≡ blocked = rw held word in
    let one =
      SomeSays-at (ask_cid L (W.blocker s) order q) (λ t. t ≡ blocked) f order.lists asked here in
    rw (
      to_error_denied (response L W B s q)
        (inl ((is_cid_blocked-agree L (W.blocker s) order q).1 blocked refl rest one)))

-- Once the line of a rule for a CID, which parses and is not one of the safe ones, has been read into
-- a denylist of the blocker, the wrapped block service does not get the block of any CID with that
-- multihash: the call fails with the blocker's response and changes nothing. The range over the
-- denylists meets that one, and all that it meets say "blocked" or "not found" of the CID.
pub rule_line_denies_block :
    (L : Libs) (W : World) (B : Blocks) (bs : BlockService B W.State) (s : W.State)
    (dl dl' : Denylist) (f name : Bytes) (number : ℕ) (c q : Cid)
    → IsName name
    → L.decode_cid name ≡ ok c
    → is_safe L c ≡ false
    → L.hash q ≡ L.hash c
    → parse_line L dl (ipfs_line block name none) number ≡ returned dl' none
    → get (W.blocker s).denylists f ≡ some dl'
    → InNames f (W.cid_order s q).lists
    → AllSay
        (ask_cid L (W.blocker s) (W.cid_order s q) q)
        (λ t. (t ≡ blocked) ⊎ (t ≡ not_found))
        (W.cid_order s q).lists
    → (wrap_block_service L W B bs).get_block q s
      ≡ (failure (status_error (record { response = response L W B s q })), s)
rule_line_denies_block L W B bs s dl dl' f name number c q n decodes other same parsed held asked
      rest =
    word_denies_block L W B bs s dl' f q
      (rule_line_says L dl dl' ((W.cid_order s q).codes f) name number c q n decodes other same
        parsed)
      held asked rest

-- A path whose response is "blocked" or "errored" does not reach the wrapped name system or
-- resolver: every method but `Publish` fails with that response and changes nothing.
pub wrap_paths_denied :
    (L : Libs) (W : World) (N : Names) (s : W.State) (p : IpfsPath) (ns : NameSystem N W.State)
    (res : Resolver N W.State) (r : StatusResponse)
    → r ≡ Blocker.is_path_blocked L (W.blocker s) (W.path_order s p) p
    → Denies r
    → ((wrap_name_system L W N ns).resolve p s
        ≡ (failure (status_error (record { response = r })), s))
      × ((wrap_name_system L W N ns).resolve_async p s
          ≡ (N.async_error r.path (status_error (record { response = r })), s))
      × ((wrap_resolver L W N res).resolve_to_last_node p s
          ≡ (failure (status_error (record { response = r })), s))
      × ((wrap_resolver L W N res).resolve_path p s
          ≡ (failure (status_error (record { response = r })), s))
      × ((wrap_resolver L W N res).resolve_path_components p s
          ≡ (failure (status_error (record { response = r })), s))
unfolding wrap_name_system wrap_resolver
wrap_paths_denied L W N s p ns res r e d =
    let denied : path_error L W s p ≡ some (record { response = r }) =
      ap to_error (sym e) ∙ to_error_denied r d in
    (rw denied, rw denied, rw denied, rw denied, rw denied)
