-- ===== src/Tester/Suite.antt =====
-- tester/tester.go: the suite and its run, and testHeader.
use nopfs.Prelude.{
  Bool, not, ◌||◌, Option, none, some, [], Bytes, codes, bytes_eq, bytes_eqb, nat_eqb, length,
  if◌then◌else◌, Error, Result, ok, err,
}
use nopfs.Prelude.GoMap.{get}
use nopfs.Libs.{Libs, Cid}
use nopfs.Tester.Interface.{
  TestHeader, TestBlocker, header_unparsed, header_wrong, hints_wrong, separator_unparsed,
  denylist_unread, Test, pass, fail, ◌>>◌, enabled,
}
use nopfs.Tester.Cases.{test_cid, test_cid_path, test_ipns_path}
use nopfs.Tester.DoubleHashes.{test_double_hash_legacy, test_double_hash}

-- `Suite`; the blocker that it holds is an argument of the tests.
pub record Suite : Type 0 where
  pub test_header : Bool
  pub test_cid : Bool
  pub test_cid_path : Bool
  pub test_ipns_path : Bool
  pub test_double_hash_legacy : Bool
  pub test_double_hash : Bool

abbrev pub list_with_header : Bytes
list_with_header = codes "version: 1\nname: test\nhints:\n  a: b\n---\n# empty\n"

abbrev pub list_without_header2 : Bytes
list_without_header2 =
    codes "---\n/ipfs/bafybeihvvulpp4evxj7x7armbqcyg6uezzuig6jp3lktpbovlqfkuqeuoq\n"

-- `hints[key]`, with the zero value where the key is missing.
abbrev pub or_empty : Option Bytes → Bytes
or_empty none = []
or_empty (some value) = value

module _ {S : Type 0} (b : TestBlocker S) where
  abbrev pub check_separator : Result TestHeader → Test S
  check_separator (err error) = fail (separator_unparsed error)
  check_separator (ok h) = pass

  abbrev pub check_header : Result TestHeader → Test S
  check_header (err error) = fail header_unparsed
  check_header (ok h) =
      if not (bytes_eqb h.name (codes "test"))
      then fail header_wrong
      else if not (nat_eqb (length h.hints) 1)
          || not (bytes_eqb (or_empty (get h.hints (codes "a"))) (codes "b"))
      then fail hints_wrong
      else λ s. let (h2, s') = b.read_header list_without_header2 s in check_separator h2 s'

  unfoldable pub test_header : Test S
  test_header s = let (h, s') = b.read_header list_with_header s in check_header h s'

  abbrev pub check_denylist : Option Error → Test S
  check_denylist none = pass
  check_denylist (some error) = fail (denylist_unread error)

  unfoldable pub read_test_list : Bytes → Test S
  read_test_list file s = let (error, s') = b.read_denylist file s in check_denylist error s'

  -- `Run`, where `file` is the embedded test.deny.
  unfoldable pub run : Libs → (Bytes → Result Cid) → Bytes → Suite → Test S
  run L parse_cid file s =
      enabled s.test_header test_header
      >> read_test_list file
      >> enabled s.test_cid (test_cid L parse_cid b)
      >> enabled s.test_cid_path (test_cid_path L parse_cid b)
      >> enabled s.test_ipns_path (test_ipns_path L parse_cid b)
      >> enabled s.test_double_hash_legacy (test_double_hash_legacy L parse_cid b)
      >> enabled s.test_double_hash (test_double_hash L parse_cid b)
