-- ===== src/Tests/World.antt =====
-- Two denylists in a blocker, and toy services that count their calls.
use nopfs.Prelude.{ℕ, suc, List, [], ◌∷◌, Option, some, Bytes, codes, bytes_eq, external}
use nopfs.Libs.{IpfsPath}
use nopfs.Denylist.{Denylist, empty_denylist}
use nopfs.Denylist.Rules.{Outcome, returned, panics}
use nopfs.Denylist.Parsing.{parse_line}
use nopfs.Blocker.{Blocker, RangeOrder}
use nopfs.Ipfs.{World, success, ServiceError, other}
use nopfs.Ipfs.BlockService.{Blocks, BlockService}
use nopfs.Ipfs.Paths.{Names, NameSystem, Resolver}
use nopfs.Tests.Toy.{toy}

abbrev pub start : Denylist
start = empty_denylist (codes "a.deny")

-- The denylist that a line leaves.
abbrev pub left : Outcome → Denylist
left panics = start
left (returned dl e) = dl

-- One denylist blocks a CID and the path under it, the other allows both.
abbrev pub blocks_x : Denylist
blocks_x = left (parse_line toy start (codes "/ipfs/Qx/*\n") 1)

abbrev pub allows_x : Denylist
allows_x = left (parse_line toy start (codes "-/ipfs/Qx/*\n") 1)

abbrev pub both : Blocker
both = record { denylists = (codes "a", blocks_x) ∷ (codes "b", allows_x) ∷ [] }

abbrev pub in_order : List Bytes → RangeOrder
in_order names = record { lists = names; codes = λ name. 0x12 ∷ [] }

abbrev pub world : World
world = record {
  State = ℕ;
  blocker = λ s. both;
  cid_order = λ s c. in_order (codes "a" ∷ []);
  path_order = λ s p. in_order (codes "a" ∷ []);
  close_blocker = λ s. s;
}

abbrev pub blocks : Blocks
blocks = record { Block = Bytes; cid = λ b. b; Channel = List Bytes; Blockstore = ℕ; Exchange = ℕ }

abbrev pub service : BlockService blocks ℕ
service = record {
  close = λ s. (success tt, suc s);
  get_block = λ c s. (success c, suc s);
  get_blocks = λ ks s. (ks, suc s);
  blockstore = λ s. (s, s);
  exchange = λ s. (s, s);
  add_block = λ o s. (success tt, suc s);
  add_blocks = λ os s. (success tt, suc s);
  delete_block = λ c s. (success tt, suc s);
}

abbrev pub names : Names
names = record {
  NameResult = ℕ;
  AsyncChannel = Option IpfsPath × ServiceError;
  async_error = λ p e. (p, e);
  PrivKey = ℕ;
  Node = ℕ;
  Link = ℕ;
}

abbrev pub name_system : NameSystem names ℕ
name_system = record {
  resolve = λ p s. (success s, suc s);
  resolve_async = λ p s. ((some p, other (external (codes "late"))), suc s);
  publish = λ k p s. (success tt, suc s);
}

abbrev pub resolver : Resolver names ℕ
resolver = record {
  resolve_to_last_node = λ p s. (success ([], []), suc s);
  resolve_path = λ p s. (success (s, s), suc s);
  resolve_path_components = λ p s. (success [], suc s);
}
