-- ===== src/Ipfs/BlockService.antt =====
-- ipfs/blockservice.go.
use nopfs.Prelude.{Option, none, some, List, [], ◌∷◌}
use nopfs.Libs.{Libs, Cid}
use nopfs.Ipfs.{World, Reply, failure, status_error, cid_error}
use nopfs.Status.{StatusError}

-- The types that a block service hands on.
pub record Blocks : Type 1 where
  pub Block : Type 0
  pub cid : Block → Cid
  pub Channel : Type 0
  pub Blockstore : Type 0
  pub Exchange : Type 0

-- The interface `blockservice.BlockService`.
pub record BlockService (B : Blocks) (S : Type 0) : Type 0 where
  pub close : S → Reply (Unit {0}) × S
  pub get_block : Cid → S → Reply B.Block × S
  pub get_blocks : List Cid → S → B.Channel × S
  pub blockstore : S → B.Blockstore × S
  pub exchange : S → B.Exchange × S
  pub add_block : B.Block → S → Reply (Unit {0}) × S
  pub add_blocks : List B.Block → S → Reply (Unit {0}) × S
  pub delete_block : Cid → S → Reply (Unit {0}) × S

module _ (L : Libs) (W : World) (B : Blocks) where
  abbrev pub keep_if : {A : Type 0} → Option StatusError → A → List A → List A
  keep_if none a rest = a ∷ rest
  keep_if (some e) a rest = rest

  -- The loop of `GetBlocks`.
  unfoldable pub filter_cids : W.State → List Cid → List Cid
  filter_cids s [] = []
  filter_cids s (c ∷ ks) = keep_if (cid_error L W s c) c (filter_cids s ks)

  -- The loop of `AddBlocks`.
  unfoldable pub filter_blocks : W.State → List B.Block → List B.Block
  filter_blocks s [] = []
  filter_blocks s (o ∷ bs) = keep_if (cid_error L W s (B.cid o)) o (filter_blocks s bs)

  abbrev pub unless_denied :
      {A : Type 0}
      → Option StatusError
      → (W.State → Reply A × W.State)
      → W.State
      → Reply A × W.State
  unless_denied none call s = call s
  unless_denied (some e) call s = (failure (status_error e), s)

  -- `WrapBlockService`, with the methods of the wrapper.
  unfoldable pub wrap_block_service : BlockService B W.State → BlockService B W.State
  wrap_block_service bs = record {
    close = λ s. bs.close (W.close_blocker s);
    get_block = λ c s. unless_denied (cid_error L W s c) (bs.get_block c) s;
    get_blocks = λ ks s. bs.get_blocks (filter_cids s ks) s;
    blockstore = bs.blockstore;
    exchange = bs.exchange;
    add_block = λ o s. unless_denied (cid_error L W s (B.cid o)) (bs.add_block o) s;
    add_blocks = λ os s. bs.add_blocks (filter_blocks s os) s;
    delete_block = bs.delete_block;
  }
