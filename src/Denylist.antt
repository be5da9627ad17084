-- ===== src/Denylist.antt =====
-- denylist.go: a denylist and its rules. The children hold the operations: Rules and Parsing the
-- parser of a line, Dnslink and Lookup the queries, Header, Following and Reading what is done with
-- a file.
pub mod Rules
pub mod Parsing
pub mod Dnslink
pub mod Lookup
pub mod Failures
pub mod RuleText
pub mod IpfsRules
pub mod SameHashes
pub mod Blocking
pub mod HashStore
pub mod DoubleHash
pub mod Calls
pub mod Stopping
pub mod Following
pub mod Waiting
pub mod Tailing
pub mod LineBound
pub mod Header
pub mod HeaderEnd
pub mod HeaderBound
pub mod IpnsRules
pub mod HostRules
pub mod SameNames
pub mod PathRules
pub mod Protocols
pub mod Reading
pub mod Log
pub mod Feeding
pub mod Ending
pub mod Citing
pub mod Overlap
pub mod Abstract
pub mod WholeFile
use nopfs.Prelude.{ℤ, pos, ℕ, Bytes, codes, [], List}
use nopfs.Prelude.GoMap.{GoMap}
use nopfs.Entry.{Entries}
use nopfs.BlocksDb.{BlocksDb}

pub record DenylistHeader : Type 0 where
  pub version : ℤ
  pub name : Bytes
  pub description : Bytes
  pub author : Bytes
  pub hints : GoMap Bytes Bytes
  pub header_bytes : Bytes
  pub header_lines : ℕ

-- The file handle and the watcher are not part of this record.
pub record Denylist : Type 0 where
  pub header : DenylistHeader
  pub filename : Bytes
  pub entries : Entries
  pub ipfs_blocks_db : BlocksDb
  pub ipns_blocks_db : BlocksDb
  pub double_hash_blocks_db : GoMap ℕ BlocksDb
  pub path_blocks_db : BlocksDb
  pub path_prefix_blocks : Entries

abbrev pub zero_header : DenylistHeader
zero_header = record {
  version = pos 0;
  name = [];
  description = [];
  author = [];
  hints = [];
  header_bytes = [];
  header_lines = 0;
}

-- The denylist that `NewDenylist` and `NewDenylistReader` start from.
abbrev pub empty_denylist : Bytes → Denylist
empty_denylist filename = record {
  header = zero_header;
  filename = filename;
  entries = [];
  ipfs_blocks_db = [];
  ipns_blocks_db = [];
  double_hash_blocks_db = [];
  path_blocks_db = [];
  path_prefix_blocks = [];
}
