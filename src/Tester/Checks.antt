-- ===== src/Tester/Checks.antt =====
-- tester/tester.go: testPaths and the loops over CIDs. `parse_cid` is `cid.Parse`, on whose errors
-- `cid.MustParse` panics.
use nopfs.Prelude.{Bool, true, false, List, [], ◌∷◌, Bytes, Result, ok, err}
use nopfs.Libs.{Libs, Cid, IpfsPath}
use nopfs.Tester.Interface.{
  TestBlocker, Failure, path_unparsed, path_should_be_blocked, path_should_be_allowed,
  cid_should_be_blocked, cid_should_not_be_blocked, panicked, Test, pass, fail, ◌>>◌,
}

-- What an answer means to a test that wants one, with its errors.
abbrev pub verdict : {S : Type 0} → Bool → Bool → Failure → Failure → Test S
verdict false false not_blocked blocked = fail not_blocked
verdict true true not_blocked blocked = fail blocked
verdict _ _ not_blocked blocked = pass

abbrev pub must_parse : {S : Type 0} → Result Cid → (Cid → Test S) → Test S
must_parse (ok c) next = next c
must_parse (err error) next = λ s. (panicked, s)

module _ {S : Type 0} (L : Libs) (parse_cid : Bytes → Result Cid) (b : TestBlocker S) where
  -- One path.
  abbrev pub test_path : Bytes → Bytes → Bytes → Bool → Result IpfsPath → Test S
  test_path p name rule allow (err error) = fail (path_unparsed error)
  test_path p name rule allow (ok ppath) = λ s.
      let (blocked, s') = b.is_path_blocked ppath s in
      verdict blocked allow (path_should_be_blocked name p rule)
        (path_should_be_allowed name p rule) s'

  unfoldable pub test_paths : List Bytes → Bytes → Bytes → Bool → Test S
  test_paths [] name rule allow = pass
  test_paths (p ∷ paths) name rule allow =
      test_path p name rule allow (L.new_path p) >> test_paths paths name rule allow

  -- One CID, that the test wants blocked or allowed.
  unfoldable pub check_cid : Bytes → Bytes → Bool → Cid → Test S
  check_cid name rule allow c = λ s.
      let (blocked, s') = b.is_cid_blocked c s in
      verdict blocked allow (cid_should_be_blocked name (L.cid_string c) rule)
        (cid_should_not_be_blocked name (L.cid_string c) rule) s'

  unfoldable pub check_cids : List Cid → Bytes → Bytes → Bool → Test S
  check_cids [] name rule allow = pass
  check_cids (c ∷ cids) name rule allow =
      check_cid name rule allow c >> check_cids cids name rule allow

  -- The list is made before it is used.
  unfoldable pub parse_all : List Bytes → (List Cid → Test S) → Test S
  parse_all [] next = next []
  parse_all (text ∷ texts) next =
      must_parse (parse_cid text) (λ c. parse_all texts (λ cids. next (c ∷ cids)))
