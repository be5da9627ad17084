-- ===== src/Ipfs/Citing.antt =====
-- Why the wrapped block service refuses a block.
use nopfs.Prelude.{◌≡◌, ◌⊎◌, inl, inr, refl, subst, some, [], Bytes, bytes_eq, arith}
use nopfs.Prelude.GoMap.{get}
use nopfs.Libs.{Libs}
use nopfs.Entry.{Status, not_found, blocked, allowed, errored}
use nopfs.Status.{StatusResponse}
use nopfs.Denylist.{Denylist}
use nopfs.Denylist.Lookup
use nopfs.Denylist.Log.Adds.{index}
use nopfs.Denylist.Citing.{Cites, checked}
use nopfs.Denylist.Citing.Cids.{AsksCid, is_cid_blocked-Cites}
use nopfs.Blocker.Citing.{is_cid_blocked-FromDenylist}
use nopfs.Ipfs.{World, failure, status_error}
use nopfs.Ipfs.BlockService.{Blocks, BlockService, wrap_block_service}
use nopfs.Ipfs.Filtering.{
  Denies, Permits, response, wrap_block_service_denied, wrap_block_service_permitted,
}

-- The word of a response.
pub status_cases : (r : StatusResponse) (s : Status) → r.status ≡ s → Permits r ⊎ Denies r
status_cases r not_found e = inl (inl e)
status_cases r allowed e = inl (inr e)
status_cases r blocked e = inr (inl e)
status_cases r errored e = inr (inr e)

module _ (L : Libs) (W : World) (B : Blocks) (bs : BlockService B W.State) (s : W.State) where
  -- Getting and adding the block fail, with the response of a denylist that the blocker holds, which
  -- is "blocked" or "errored" and cites what it comes from; nothing changes.
  pub record IsRefused (o : B.Block) : Type 0 where
    pub filename : Bytes
    pub dl : Denylist
    pub held : get (W.blocker s).denylists filename ≡ some dl
    pub word : StatusResponse
    pub said :
        Lookup.is_cid_blocked L dl ((W.cid_order s (B.cid o)).codes filename) (B.cid o) ≡ word
    pub denies : Denies word
    pub cites : Cites (λ r. index r dl) (AsksCid L (B.cid o)) (checked word)
    pub get_block :
        (wrap_block_service L W B bs).get_block (B.cid o) s
        ≡ (failure (status_error (record { response = word })), s)
    pub add_block :
        (wrap_block_service L W B bs).add_block o s
        ≡ (failure (status_error (record { response = word })), s)

  Denies-IsRefused : (o : B.Block) → Denies (response L W B s (B.cid o)) → IsRefused o
  Denies-IsRefused o d =
      let c = B.cid o in
      let order = W.cid_order s c in
      let r = response L W B s c in
      let (name, dl, held, said) =
        is_cid_blocked-FromDenylist L (W.blocker s) order c (λ silent. ground arith) in
      let (gets, adds, _, _) = wrap_block_service_denied L W B s bs c o [] [] [] [] refl d in
      record {
        filename = name;
        dl = dl;
        held = held;
        word = r;
        said = said;
        denies = d;
        cites =
            subst (λ (t : StatusResponse). Cites (λ r. index r dl) (AsksCid L c) (checked t)) said
              (is_cid_blocked-Cites L dl (order.codes name) c);
        get_block = gets;
        add_block = adds;
      }

  -- Every block is served as the wrapped service serves it, or it is refused for a reason: getting
  -- and adding it fail and change nothing, with the response of a denylist that the blocker holds
  -- then. If it says "blocked", it has the block rule that decides, the last one that covers the CID
  -- among those for its multihash or the last one among the double hashes of its texts; else it has
  -- the error that the query met and no rule. This holds whatever the blocker holds and in whatever order its maps are
  -- ranged over.
  pub wrap_block_service_decides :
      (o : B.Block)
      → (((wrap_block_service L W B bs).get_block (B.cid o) s ≡ bs.get_block (B.cid o) s)
          × ((wrap_block_service L W B bs).add_block o s ≡ bs.add_block o s))
        ⊎ IsRefused o
  wrap_block_service_decides o =
      elim (status_cases (response L W B s (B.cid o)) (response L W B s (B.cid o)).status refl) [
        | inl permits ↦
            let (gets, adds, _, _) =
              wrap_block_service_permitted L W B s bs (B.cid o) o [] [] refl permits tt tt in
            inl (gets, adds)
        | inr denies ↦ inr (Denies-IsRefused o denies)
      ]
