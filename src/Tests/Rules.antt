-- ===== src/Tests/Rules.antt =====
-- Lines and queries of one denylist: runs, and the theorems at concrete inputs.
use nopfs.Prelude.{
  ℕ, ◌≡◌, ◌≢◌, refl, ◌↔◌, ◌⊎◌, inl, true, false, List, [], ◌∷◌, none, some, Bytes, codes, bytes_eqb,
  escape_error, ok, arith,
}
use nopfs.Prelude.GoMap.{get, put}
use nopfs.Text.{
  strip_prefix, strip_suffix, has_prefix, has_suffix, trim_prefix, trim_suffix, cut_prefix, cut,
  contains_byte, fields, fields_from, space_width, query_unescape,
}
use nopfs.Text.Fields.{IsBlank}
use nopfs.Entry.{
  clone, Status, blocked, not_found, matches, sanitize, new_blocked_path, split_wildcard,
  trim_slashes, check_path_status, scan,
}
use nopfs.BlocksDb.{load, store}
use nopfs.Denylist.{Denylist, empty_denylist}
use nopfs.Denylist.Rules.{Outcome, returned, panics, add_hints, strip_allow, is_ignored, path_case}
use nopfs.Denylist.Parsing.{
  parse_multihash, parse_hex_string, add_rule, double_hash_case, in_cids, is_safe, ipfs_case,
  ipns_case, parse_rule, parse_fields, parse_trimmed, parse_line,
}
use nopfs.Denylist.Failures.{parse_line-panics_iff, parse_line_error}
use nopfs.Denylist.RuleText.{block, minus, plus}
use nopfs.Denylist.IpfsRules.{ipfs_line, IsName, parse_line_safe}
use nopfs.Denylist.Blocking.{mark_status, cid_rule_decides, path_rule_decides}
use nopfs.Denylist.DoubleHash.{double_hash_line, InOrder, double_hash_rule_decides}
use nopfs.Denylist.Lookup.{
  is_cid_blocked, is_ipfs_ipld_path_blocked, is_cid_v0, check_double_hash,
  check_double_hash_with_fn, double_hash_response, full_path,
}
use nopfs.Libs.{Cid, IpfsPath}
use nopfs.Denylist.Protocols.{Segments, IsContent, Undecided}
use nopfs.Denylist.Lookup.{is_path_blocked}
use nopfs.Tests.Toy.{toy, toy-CidV0Law}

-- All that a run of a line or of a query computes with.
unfoldable pub runs : Unit {0}
unfolding clone strip_prefix strip_suffix has_prefix has_suffix trim_prefix trim_suffix cut_prefix
    cut contains_byte fields fields_from space_width query_unescape bytes_eqb matches sanitize
    new_blocked_path split_wildcard trim_slashes check_path_status scan load store get put add_hints
    strip_allow is_ignored path_case parse_multihash parse_hex_string add_rule double_hash_case
    in_cids is_safe ipfs_case ipns_case parse_rule parse_fields parse_trimmed parse_line
    is_cid_blocked is_ipfs_ipld_path_blocked is_cid_v0 check_double_hash check_double_hash_with_fn
    double_hash_response
runs = tt

abbrev start : Denylist
start = empty_denylist (codes "test.deny")

-- The status of a CID after a line has been read.
cid_after : Outcome → Bytes → Status
cid_after panics c = not_found
cid_after (returned dl e) c = (is_cid_blocked toy dl (0x12 ∷ 0x41 ∷ []) c).status

cid_blocked : cid_after (parse_line toy start (codes "/ipfs/Qx\n") 1) (codes "Qx") ≡ blocked
unfolding cid_after runs
cid_blocked = refl

double_hash_blocked :
    cid_after (parse_line toy start (codes "//QAQx reason=dmca\n") 1) (codes "Qx") ≡ blocked
unfolding cid_after runs
double_hash_blocked = refl

blank_line_panics : parse_line toy start (codes " \t\n") 1 ≡ panics
unfolding runs
blank_line_panics = refl

pub x-IsName : IsName (codes "bx")
unfolding contains_byte
x-IsName = record { visible = omega arith; one_segment = refl; not_empty = (cc) }

pub x_not_safe : is_safe toy (codes "Qx") ≡ false
unfolding runs
x_not_safe = refl

sub_path : new_blocked_path (codes "a/*") ≡ ok (record { path = codes "a"; prefix = true })
unfolding runs
sub_path = refl

cid_rule_decides_test :
    (dl' : Denylist) × (parse_line toy start (ipfs_line minus (codes "bx") none) 1
      ≡ returned dl' none)
    × ((q : Bytes)
        → q ≡ codes "Qx"
        → (is_cid_blocked toy dl' (0x12 ∷ []) q).status ≡ mark_status minus)
    × ((q : Bytes)
        → q ≢ codes "Qx"
        → is_cid_blocked toy dl' (0x12 ∷ []) q ≡ is_cid_blocked toy start (0x12 ∷ []) q)
cid_rule_decides_test =
    cid_rule_decides toy start (0x12 ∷ []) minus (codes "bx") 1 (codes "Qx") x-IsName refl
      x_not_safe

path_rule_decides_example :
    (dl' : Denylist) × (parse_line toy start (ipfs_line block (codes "bx") (some (codes "a/*"))) 1
      ≡ returned dl' none)
    × ((text subpath protocol : Bytes) (q : Cid) (p : IpfsPath)
        → toy.decode_cid text ≡ ok q
        → toy.new_path (full_path protocol text (trim_prefix subpath (codes "/"))) ≡ ok p
        → q ≡ codes "Qx"
        → matches (record { path = codes "a"; prefix = true }) (trim_prefix subpath (codes "/"))
          ≡ true
        → (is_ipfs_ipld_path_blocked toy dl' (0x12 ∷ []) text subpath protocol).status
          ≡ mark_status block)
    × ((text subpath protocol : Bytes) (q : Cid) (p : IpfsPath)
        → toy.decode_cid text ≡ ok q
        → toy.new_path (full_path protocol text (trim_prefix subpath (codes "/"))) ≡ ok p
        → (q ≢ codes "Qx")
          ⊎ (matches (record { path = codes "a"; prefix = true }) (trim_prefix subpath (codes "/"))
              ≡ false)
        → is_ipfs_ipld_path_blocked toy dl' (0x12 ∷ []) text subpath protocol
          ≡ is_ipfs_ipld_path_blocked toy start (0x12 ∷ []) text subpath protocol)
    × ((path : IpfsPath) (proto text subpath : Bytes) (q : Cid) (p : IpfsPath)
        → Segments path proto text subpath
        → IsContent proto
        → toy.decode_cid text ≡ ok q
        → toy.new_path (full_path proto text (trim_prefix subpath (codes "/"))) ≡ ok p
        → (Undecided start subpath
            → q ≡ codes "Qx"
            → matches (record { path = codes "a"; prefix = true }) (trim_prefix subpath (codes "/"))
              ≡ true
            → (is_path_blocked toy dl' (0x12 ∷ []) path).status ≡ mark_status block)
          × ((q ≢ codes "Qx")
                ⊎ (matches
                      (record { path = codes "a"; prefix = true })
                      (trim_prefix subpath (codes "/"))
                    ≡ false)
              → is_path_blocked toy dl' (0x12 ∷ []) path
                ≡ is_path_blocked toy start (0x12 ∷ []) path))
path_rule_decides_example =
    path_rule_decides toy toy-CidV0Law start (0x12 ∷ []) block (codes "bx") (codes "a/*") 1
      (codes "Qx") (record { path = codes "a"; prefix = true }) x-IsName (omega arith) refl
      x_not_safe sub_path

base58_reading : parse_multihash toy (codes "QAQx") ≡ ok (0x41, codes "QAQx")
unfolding runs
base58_reading = refl

double_hash_rule_decides_example :
    (dl' : Denylist) × (parse_line toy start (double_hash_line plus (codes "QAQx")) 1
      ≡ returned dl' none)
    × ((order : List ℕ) (key : Bytes) (h : Bytes)
        → InOrder 0x41 order
        → toy.sum key 0x41 ≡ ok h
        → h ≡ codes "QAQx"
        → ((other : ℕ) → other ≢ 0x41 → (check_double_hash_with_fn toy dl' key other).0 ≡ not_found)
        → (check_double_hash toy dl' order key).0 ≡ mark_status plus)
double_hash_rule_decides_example =
    double_hash_rule_decides toy start plus (codes "QAQx") 1 0x41 (codes "QAQx") (omega arith)
      (inl base58_reading)

parse_line-panics_iff_example : (parse_line toy start (codes "\r\n") 3 ≡ panics) ↔ (
    (trim_suffix (codes "\r\n") (codes "\n") ≢ [])
    × IsBlank 0 (trim_suffix (codes "\r\n") (codes "\n")))
parse_line-panics_iff_example = parse_line-panics_iff toy start (codes "\r\n") 3

bad_path :
    parse_line toy start (codes "/ipns/x/%zz\n") 1
    ≡ returned start (some (escape_error (codes "%zz")))
unfolding runs
bad_path = refl

parse_line_error_example : start ≡ start
parse_line_error_example =
    parse_line_error toy start start (codes "/ipns/x/%zz\n") 1 (escape_error (codes "%zz")) bad_path

abbrev safe_name : Bytes
safe_name = codes "bmUNLLsPACCz1vLxQVkXqqLX5R1X345qqfHbsf67hvA3Nn"

safe_name-IsName : IsName safe_name
unfolding contains_byte
safe_name-IsName = record { visible = omega arith; one_segment = refl; not_empty = (cc) }

safe_cid : is_safe toy (codes "QmUNLLsPACCz1vLxQVkXqqLX5R1X345qqfHbsf67hvA3Nn") ≡ true
unfolding runs
safe_cid = refl

parse_line_safe_test : parse_line toy start (ipfs_line block safe_name none) 1 ≡ returned start none
parse_line_safe_test =
    parse_line_safe toy start block safe_name none 1
      (codes "QmUNLLsPACCz1vLxQVkXqqLX5R1X345qqfHbsf67hvA3Nn") safe_name-IsName tt refl safe_cid
