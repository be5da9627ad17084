-- ===== src/Tests/Names.antt =====
-- IPNS names and paths alone: the theorems at concrete inputs.
use nopfs.Prelude.{
  ◌≡◌, ◌≢◌, ◌⊎◌, refl, true, false, [], ◌∷◌, ◌++◌, none, some, Bytes, codes, ok, err, arith,
}
use nopfs.Libs.{IpfsPath}
use nopfs.Text.{trim_prefix, contains_byte, has_prefix, strip_prefix, join}
use nopfs.Entry.{matches, new_blocked_path, check_path_status, not_found}
use nopfs.BlocksDb.{load}
use nopfs.Denylist.{Denylist}
use nopfs.Denylist.SameNames.{subpath_of}
use nopfs.Denylist.PathRules.{
  path_line, IsPathRule, exact_path_rule_misses, wildcard_path_rule_decides,
}
use nopfs.Denylist.Rules.{returned}
use nopfs.Denylist.Parsing.{parse_line, ipns_key}
use nopfs.Denylist.RuleText.{block, plus}
use nopfs.Denylist.Blocking.{mark_status}
use nopfs.Denylist.Dnslink.{inline}
use nopfs.Denylist.Lookup.{
  is_path_blocked, is_ipns_path_blocked, ipns_lookup_key, full_path, decoded,
}
use nopfs.Denylist.IpnsRules.{ipns_line, ipns_rule_decides}
use nopfs.Denylist.HostRules.{host_rule_decides, dashed_rule_misses}
use nopfs.Tests.Toy.{toy, path_of, no_cid}
use nopfs.Tests.Rules.{runs}
use nopfs.Tests.World.{start}

below_a : new_blocked_path (codes "a/*") ≡ ok (record { path = codes "a"; prefix = true })
unfolding runs
below_a = refl

key_one : contains_byte (codes "key") b'/' ≡ false
unfolding contains_byte
key_one = refl

ipns_rule_decides_example :
    (dl' : Denylist) × (parse_line toy start (ipns_line plus (codes "key") (some (codes "a/*"))) 1
      ≡ returned dl' none)
    × ((q subpath : Bytes) (p : IpfsPath)
        → toy.new_path (full_path (codes "ipns") q (trim_prefix subpath (codes "/"))) ≡ ok p
        → ipns_lookup_key toy q (decoded (toy.decode_cid q))
          ≡ ipns_key toy (codes "key") (toy.decode_cid (codes "key"))
        → matches (record { path = codes "a"; prefix = true }) (trim_prefix subpath (codes "/"))
          ≡ true
        → (is_ipns_path_blocked toy dl' (0x12 ∷ []) q subpath).status ≡ mark_status plus)
    × ((q subpath : Bytes) (p : IpfsPath)
        → toy.new_path (full_path (codes "ipns") q (trim_prefix subpath (codes "/"))) ≡ ok p
        → (ipns_lookup_key toy q (decoded (toy.decode_cid q))
            ≢ ipns_key toy (codes "key") (toy.decode_cid (codes "key")))
          ⊎ (matches (record { path = codes "a"; prefix = true }) (trim_prefix subpath (codes "/"))
              ≡ false)
        → is_ipns_path_blocked toy dl' (0x12 ∷ []) q subpath
          ≡ is_ipns_path_blocked toy start (0x12 ∷ []) q subpath)
ipns_rule_decides_example =
    ipns_rule_decides toy start (0x12 ∷ []) plus (codes "key") (some (codes "a/*")) 1
      (record { path = codes "a"; prefix = true }) (omega arith) key_one (omega arith) below_a

host_one : contains_byte (codes "x-y.io") b'/' ≡ false
unfolding contains_byte
host_one = refl

host_dot : contains_byte (codes "x-y.io") b'.' ≡ true
unfolding contains_byte
host_dot = refl

no_host_cid : toy.decode_cid (inline (codes "x-y.io")) ≡ err no_cid
unfolding inline
no_host_cid = refl

host_rule_decides_example :
    (dl' : Denylist) × (parse_line toy start (ipns_line block (codes "x-y.io") none) 1
      ≡ returned dl' none)
    × ((is_ipns_path_blocked toy dl' (0x12 ∷ []) (codes "x-y.io") []).status ≡ mark_status block)
    × ((is_ipns_path_blocked toy dl' (0x12 ∷ []) (inline (codes "x-y.io")) []).status
        ≡ mark_status block)
host_rule_decides_example =
    host_rule_decides toy start (0x12 ∷ []) block (codes "x-y.io") 1 no_cid no_cid _ _ (omega arith)
      host_one host_dot (ground arith) refl no_host_cid refl refl

dashed_one : contains_byte (codes "my-key") b'/' ≡ false
unfolding contains_byte
dashed_one = refl

dashed_no_dot : contains_byte (codes "my-key") b'.' ≡ false
unfolding contains_byte
dashed_no_dot = refl

dashed : contains_byte (codes "my-key") b'-' ≡ true
unfolding contains_byte
dashed = refl

dashed_rule_misses_example :
    (dl' : Denylist) × (parse_line toy start (ipns_line block (codes "my-key") none) 1
      ≡ returned dl' none)
    × (is_ipns_path_blocked toy dl' (0x12 ∷ []) (codes "my-key") []
        ≡ is_ipns_path_blocked toy start (0x12 ∷ []) (codes "my-key") [])
dashed_rule_misses_example =
    dashed_rule_misses toy start (0x12 ∷ []) block (codes "my-key") [] 1 no_cid _ (omega arith)
      dashed_one dashed_no_dot dashed (ground arith) refl refl

path_kind : (r : Bytes) → IsPathRule (codes "/z" ++ r)
unfolding has_prefix strip_prefix
path_kind r = (refl, refl, refl, refl)

exact_path : new_blocked_path (codes "/zoo") ≡ ok (record { path = codes "zoo"; prefix = false })
unfolding runs
exact_path = refl

wild_path : new_blocked_path (codes "/zoo*") ≡ ok (record { path = codes "zoo"; prefix = true })
unfolding runs
wild_path = refl

zoo_free : has_prefix (subpath_of (path_of (codes "/ipfs/Qx/zoo")).segments) (codes "/") ≡ false
unfolding has_prefix strip_prefix join
zoo_free = refl

exact_path_rule_misses_example :
    (dl' : Denylist) × (parse_line toy start (path_line block (codes "zoo")) 1 ≡ returned dl' none)
    × (is_path_blocked toy dl' (0x12 ∷ []) (path_of (codes "/ipfs/Qx/zoo"))
        ≡ is_path_blocked toy start (0x12 ∷ []) (path_of (codes "/ipfs/Qx/zoo")))
exact_path_rule_misses_example =
    exact_path_rule_misses toy start block (codes "zoo") 1
      (record { path = codes "zoo"; prefix = false }) (omega arith) (path_kind (codes "oo"))
      exact_path refl (0x12 ∷ []) (path_of (codes "/ipfs/Qx/zoo")) zoo_free

zoo_path : join (codes "zoom" ∷ []) (codes "/") ≢ []
unfolding join
zoo_path = cc

no_exact :
    (check_path_status
      (load start.path_blocks_db (join (codes "zoom" ∷ []) (codes "/"))).0
      (join (codes "zoom" ∷ []) (codes "/"))).0
    ≡ not_found
unfolding runs
no_exact = refl

zoo_covered :
    matches (record { path = codes "zoo"; prefix = true }) (join (codes "zoom" ∷ []) (codes "/"))
    ≡ true
unfolding runs join
zoo_covered = refl

wildcard_path_rule_decides_example :
    (dl' : Denylist) × (parse_line toy start (path_line block (codes "zoo*")) 1 ≡ returned dl' none)
    × ((is_path_blocked toy dl' (0x12 ∷ []) (path_of (codes "/ipfs/Qx/zoom"))).status
        ≡ mark_status block)
wildcard_path_rule_decides_example =
    wildcard_path_rule_decides toy start block (codes "zoo*") 1
      (record { path = codes "zoo"; prefix = true }) (omega arith) (path_kind (codes "oo*"))
      wild_path refl (0x12 ∷ []) (path_of (codes "/ipfs/Qx/zoom")) (codes "ipfs") (codes "Qx")
      (codes "zoom" ∷ []) refl zoo_path no_exact zoo_covered
