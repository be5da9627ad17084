-- ===== src/Tester/Passing.antt =====
-- tester/tester.go: when the suite passes.
use nopfs.Prelude.{◌≡◌, true, false, Bytes, codes, bytes_eq, Result, ok}
use nopfs.Libs.{Libs, Cid}
use nopfs.Tester.Interface.{TestBlocker}
use nopfs.Tester.Cases.{
  blocked_cids, allow_cids, rule1, rule1_allowed, rule2, rule3, rule3_allowed, rule4, rule4_allowed,
  rule5, rule5_allowed, rule6, rule6_allowed, rule7, rule7_allowed, rule8, rule8_allowed, test_cid,
  test_cid_path, test_ipns_path,
}
use nopfs.Tester.DoubleHashes.{
  rule10, rule11, rule11_allowed, rule13, rule13_allowed, rule14, rule14_allowed, legacy_cid,
  c1_text, c2_text, test_double_hash_legacy, test_double_hash,
}
use nopfs.Tester.Sequences.{
  IsQuiet, Tells, both, Tells-must_parse, PathsAre, CidIs, CidsAre, AllParse, Tells-test_paths,
  Tells-check_cid, Tells-check_cids, Tells-parse_all,
}

-- What the suite wants, in a state of the implementation.
module _ {S : Type 0} (L : Libs) (parse_cid : Bytes → Result Cid) (b : TestBlocker S) (s : S) where
  abbrev pub CidFacts : Type 0
  CidFacts = AllParse L parse_cid b blocked_cids (λ blocked.
      AllParse L parse_cid b allow_cids
        (λ allowed. CidsAre L parse_cid b false s blocked × CidsAre L parse_cid b true s allowed))

  abbrev pub CidPathFacts : Type 0
  CidPathFacts =
      PathsAre L parse_cid b false s rule1
      × (PathsAre L parse_cid b true s rule1_allowed
          × (PathsAre L parse_cid b false s rule2
              × (PathsAre L parse_cid b false s rule3
                  × (PathsAre L parse_cid b true s rule3_allowed
                      × (PathsAre L parse_cid b false s rule4
                          × (PathsAre L parse_cid b true s rule4_allowed
                              × (PathsAre L parse_cid b false s rule5
                                  × (PathsAre L parse_cid b true s rule5_allowed))))))))

  abbrev pub IpnsPathFacts : Type 0
  IpnsPathFacts =
      PathsAre L parse_cid b false s rule6
      × (PathsAre L parse_cid b true s rule6_allowed
          × (PathsAre L parse_cid b false s rule7
              × (PathsAre L parse_cid b true s rule7_allowed
                  × (PathsAre L parse_cid b false s rule8
                      × (PathsAre L parse_cid b true s rule8_allowed)))))

  abbrev pub LegacyFacts : Type 0
  LegacyFacts =
      (c : Cid) × (parse_cid legacy_cid ≡ ok c)
      × (CidIs L parse_cid b false s c
          × (PathsAre L parse_cid b false s rule10
              × (PathsAre L parse_cid b false s rule11
                  × (PathsAre L parse_cid b true s rule11_allowed))))

  abbrev pub DoubleHashFacts : Type 0
  DoubleHashFacts =
      (c1 : Cid) × (parse_cid c1_text ≡ ok c1)
      × ((c2 : Cid) × (parse_cid c2_text ≡ ok c2)
          × (CidIs L parse_cid b false s c1
              × (CidIs L parse_cid b false s c2
                  × (PathsAre L parse_cid b false s rule13
                      × (PathsAre L parse_cid b true s rule13_allowed
                          × (PathsAre L parse_cid b false s rule14
                              × (PathsAre L parse_cid b true s rule14_allowed)))))))

module _ {S : Type 0} (L : Libs) (parse_cid : Bytes → Result Cid) (b : TestBlocker S)
    (q : IsQuiet b) (s : S) where
  pub Tells-test_cid : Tells (test_cid L parse_cid b) s s (CidFacts L parse_cid b s)
  unfolding test_cid
  Tells-test_cid =
      let n = codes "testCID" in
      Tells-parse_all L parse_cid b q blocked_cids _ s s
        (λ blocked.
          AllParse L parse_cid b allow_cids (λ allowed.
            CidsAre L parse_cid b false s blocked × CidsAre L parse_cid b true s allowed))
        (λ blocked.
          Tells-parse_all L parse_cid b q allow_cids _ s s
            (λ allowed.
              CidsAre L parse_cid b false s blocked × CidsAre L parse_cid b true s allowed)
            (λ allowed.
              both (Tells-check_cids L parse_cid b q blocked n (codes "rule1") false s)
                (Tells-check_cids L parse_cid b q allowed n (codes "rule15") true s)))

  pub Tells-test_cid_path : Tells (test_cid_path L parse_cid b) s s (CidPathFacts L parse_cid b s)
  unfolding test_cid_path
  Tells-test_cid_path =
      let n = codes "testCIDPath" in
      both (Tells-test_paths L parse_cid b q rule1 n (codes "rule1") false s) (
        both (Tells-test_paths L parse_cid b q rule1_allowed n (codes "rule1") true s) (
          both (Tells-test_paths L parse_cid b q rule2 n (codes "rule2") false s) (
            both (Tells-test_paths L parse_cid b q rule3 n (codes "rule3") false s) (
              both (Tells-test_paths L parse_cid b q rule3_allowed n (codes "rule3") true s) (
                both (Tells-test_paths L parse_cid b q rule4 n (codes "rule4") false s) (
                  both (Tells-test_paths L parse_cid b q rule4_allowed n (codes "rule4") true s) (
                    both (Tells-test_paths L parse_cid b q rule5 n (codes "rule5") false s) (
                      Tells-test_paths L parse_cid b q rule5_allowed n (codes "rule5") true
                        s))))))))

  pub Tells-test_ipns_path :
      Tells (test_ipns_path L parse_cid b) s s (IpnsPathFacts L parse_cid b s)
  unfolding test_ipns_path
  Tells-test_ipns_path =
      let n = codes "testIPNS" in
      both (Tells-test_paths L parse_cid b q rule6 n (codes "rule6") false s) (
        both (Tells-test_paths L parse_cid b q rule6_allowed n (codes "rule6") true s) (
          both (Tells-test_paths L parse_cid b q rule7 n (codes "rule7") false s) (
            both (Tells-test_paths L parse_cid b q rule7_allowed n (codes "rule7") true s) (
              both (Tells-test_paths L parse_cid b q rule8 n (codes "rule8") false s)
                (Tells-test_paths L parse_cid b q rule8_allowed n (codes "rule8") true s)))))

  pub Tells-test_double_hash_legacy :
      Tells (test_double_hash_legacy L parse_cid b) s s (LegacyFacts L parse_cid b s)
  unfolding test_double_hash_legacy
  Tells-test_double_hash_legacy =
      let n = codes "TestDoubleHashLegacy" in
      Tells-must_parse (parse_cid legacy_cid) _ s s
        (λ c.
          CidIs L parse_cid b false s c
          × (PathsAre L parse_cid b false s rule10
              × (PathsAre L parse_cid b false s rule11
                  × (PathsAre L parse_cid b true s rule11_allowed))))
        (λ c. both (Tells-check_cid L parse_cid b q n (codes "rule10") false c s) (
          both (Tells-test_paths L parse_cid b q rule10 n (codes "rule10") false s) (
            both (Tells-test_paths L parse_cid b q rule11 n (codes "rule11") false s)
              (Tells-test_paths L parse_cid b q rule11_allowed n (codes "rule11") true s))))

  pub Tells-test_double_hash :
      Tells (test_double_hash L parse_cid b) s s (DoubleHashFacts L parse_cid b s)
  unfolding test_double_hash
  Tells-test_double_hash =
      let n = codes "TestDoubleHash" in
      Tells-must_parse (parse_cid c1_text) _ s s
        (λ c1.
          (c2 : Cid) × (parse_cid c2_text ≡ ok c2)
          × (CidIs L parse_cid b false s c1
              × (CidIs L parse_cid b false s c2
                  × (PathsAre L parse_cid b false s rule13
                      × (PathsAre L parse_cid b true s rule13_allowed
                          × (PathsAre L parse_cid b false s rule14
                              × (PathsAre L parse_cid b true s rule14_allowed)))))))
        (λ c1.
          Tells-must_parse (parse_cid c2_text) _ s s
            (λ c2.
              CidIs L parse_cid b false s c1
              × (CidIs L parse_cid b false s c2
                  × (PathsAre L parse_cid b false s rule13
                      × (PathsAre L parse_cid b true s rule13_allowed
                          × (PathsAre L parse_cid b false s rule14
                              × (PathsAre L parse_cid b true s rule14_allowed))))))
            (λ c2. both (Tells-check_cid L parse_cid b q n (codes "rule12") false c1 s) (
              both (Tells-check_cid L parse_cid b q n (codes "rule12") false c2 s) (
                both (Tells-test_paths L parse_cid b q rule13 n (codes "rule13") false s) (
                  both (Tells-test_paths L parse_cid b q rule13_allowed n (codes "rule13") true s) (
                    both (Tells-test_paths L parse_cid b q rule14 n (codes "rule14") false s) (
                      Tells-test_paths L parse_cid b q rule14_allowed n (codes "rule14") true
                        s)))))))
