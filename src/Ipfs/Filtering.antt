-- ===== src/Ipfs/Filtering.antt =====
-- What the wrapped block service is asked for.
use nopfs.Prelude.{◌≡◌, ◌⊎◌, refl, none, some, List, [], ◌∷◌, ◌++◌, arith}
use nopfs.Libs.{Libs, Cid}
use nopfs.Entry.{not_found, blocked, allowed, errored}
use nopfs.Status.{StatusResponse, to_error}
use nopfs.Blocker
use nopfs.Ipfs.{World, failure, status_error}
use nopfs.Ipfs.BlockService.{Blocks, BlockService, filter_cids, filter_blocks, wrap_block_service}

-- `ToError` is nil exactly for "allowed" and "not found", and else holds the response.
abbrev pub Denies : StatusResponse → Type 0
Denies r = (r.status ≡ blocked) ⊎ (r.status ≡ errored)

pub to_error_denied : (r : StatusResponse) → Denies r → to_error r ≡ some (record { response = r })
unfolding to_error
to_error_denied r d = ground arith

abbrev pub Permits : StatusResponse → Type 0
Permits r = (r.status ≡ not_found) ⊎ (r.status ≡ allowed)

pub to_error_permitted : (r : StatusResponse) → Permits r → to_error r ≡ none
unfolding to_error
to_error_permitted r d = ground arith

module _ (L : Libs) (W : World) (B : Blocks) (s : W.State) where
  -- The blocker's response to a CID.
  abbrev pub response : Cid → StatusResponse
  response c = Blocker.is_cid_blocked L (W.blocker s) (W.cid_order s c) c

  filter_cids_denied :
      (xs ys : List Cid) (c : Cid)
      → Denies (response c)
      → filter_cids L W B s (xs ++ c ∷ ys) ≡ filter_cids L W B s (xs ++ ys)
  unfolding filter_cids
  filter_cids_denied [] ys c d = rw (to_error_denied (response c) d)
  filter_cids_denied (x ∷ xs) ys c d = rw (filter_cids_denied xs ys c d)

  filter_blocks_denied :
      (xs ys : List B.Block) (o : B.Block)
      → Denies (response (B.cid o))
      → filter_blocks L W B s (xs ++ o ∷ ys) ≡ filter_blocks L W B s (xs ++ ys)
  unfolding filter_blocks
  filter_blocks_denied [] ys o d = rw (to_error_denied (response (B.cid o)) d)
  filter_blocks_denied (x ∷ xs) ys o d = rw (filter_blocks_denied xs ys o d)

  abbrev pub AllPermitted : List Cid → Type 0
  AllPermitted [] = Unit {0}
  AllPermitted (c ∷ ks) = Permits (response c) × AllPermitted ks

  filter_cids_permitted : (ks : List Cid) → AllPermitted ks → filter_cids L W B s ks ≡ ks
  unfolding filter_cids
  filter_cids_permitted [] h = refl
  filter_cids_permitted (c ∷ ks) h =
      rw (to_error_permitted (response c) h.0, filter_cids_permitted ks h.1)

  abbrev pub AllBlocksPermitted : List B.Block → Type 0
  AllBlocksPermitted [] = Unit {0}
  AllBlocksPermitted (o ∷ os) = Permits (response (B.cid o)) × AllBlocksPermitted os

  filter_blocks_permitted :
      (os : List B.Block) → AllBlocksPermitted os → filter_blocks L W B s os ≡ os
  unfolding filter_blocks
  filter_blocks_permitted [] h = refl
  filter_blocks_permitted (o ∷ os) h =
      rw (to_error_permitted (response (B.cid o)) h.0, filter_blocks_permitted os h.1)

  module _ (bs : BlockService B W.State) where
    -- A CID whose response is "blocked" or "errored" does not reach the wrapped service: getting or
    -- adding its block fails with that response and changes nothing, and among several CIDs or
    -- blocks it is as if it were not there.
    pub wrap_block_service_denied :
        (c : Cid) (o : B.Block) (ks ks' : List Cid) (os os' : List B.Block)
        → B.cid o ≡ c
        → Denies (response c)
        → ((wrap_block_service L W B bs).get_block c s
            ≡ (failure (status_error (record { response = response c })), s))
          × ((wrap_block_service L W B bs).add_block o s
              ≡ (failure (status_error (record { response = response c })), s))
          × ((wrap_block_service L W B bs).get_blocks (ks ++ c ∷ ks') s
              ≡ (wrap_block_service L W B bs).get_blocks (ks ++ ks') s)
          × ((wrap_block_service L W B bs).add_blocks (os ++ o ∷ os') s
              ≡ (wrap_block_service L W B bs).add_blocks (os ++ os') s)
    unfolding wrap_block_service
    wrap_block_service_denied c o ks ks' os os' same d = (
      rw (to_error_denied (response c) d),
      rw (same, to_error_denied (response c) d),
      rw (filter_cids_denied ks ks' c d),
      rw (filter_blocks_denied os os' o (rw same d)),
    )

    -- CIDs whose responses are "not found" or "allowed" are served as the wrapped service serves
    -- them: of the four methods it gets each call as it came, one that names several CIDs or brings
    -- several blocks too.
    pub wrap_block_service_permitted :
        (c : Cid) (o : B.Block) (ks : List Cid) (os : List B.Block)
        → B.cid o ≡ c
        → Permits (response c)
        → AllPermitted ks
        → AllBlocksPermitted os
        → ((wrap_block_service L W B bs).get_block c s ≡ bs.get_block c s)
          × ((wrap_block_service L W B bs).add_block o s ≡ bs.add_block o s)
          × ((wrap_block_service L W B bs).get_blocks ks s ≡ bs.get_blocks ks s)
          × ((wrap_block_service L W B bs).add_blocks os s ≡ bs.add_blocks os s)
    unfolding wrap_block_service
    wrap_block_service_permitted c o ks os same h hs hos = (
      rw (to_error_permitted (response c) h),
      rw (same, to_error_permitted (response c) h),
      rw (filter_cids_permitted ks hs),
      rw (filter_blocks_permitted os hos),
    )
