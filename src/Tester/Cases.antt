-- ===== src/Tester/Cases.antt =====
-- tester/tester.go: testCID, testCIDPath and testIPNSPath.
use nopfs.Prelude.{true, false, List, [], ◌∷◌, Bytes, codes, Result}
use nopfs.Libs.{Libs, Cid}
use nopfs.Tester.Interface.{TestBlocker, Test, ◌>>◌}
use nopfs.Tester.Checks.{test_paths, check_cids, parse_all}

abbrev pub blocked_cids : List Bytes
blocked_cids =
    codes "bafybeihvvulpp4evxj7x7armbqcyg6uezzuig6jp3lktpbovlqfkuqeuoq"
    ∷ codes "bafkreihvvulpp4evxj7x7armbqcyg6uezzuig6jp3lktpbovlqfkuqeuoq"
    ∷ codes "QmesfgDQ3q6prBy2Kg2gKbW4MAGuWiRP2DVuGA5MZSERLo"
    ∷ []

abbrev pub allow_cids : List Bytes
allow_cids =
    codes "QmUNLLsPACCz1vLxQVkXqqLX5R1X345qqfHbsf67hvA3Nn"
    ∷ codes "bafyaabakaieac"
    ∷ codes "bafkreihdwdcefgh4dqkjv67uzcmw7ojee6xedzdetojuzjevtenxquvyku"
    ∷ codes "bafkqaaa"
    ∷ codes "QmbFMke1KXqnYyBBWxB74N4c5SBnJMVAiMNRcGu6x1AwQH"
    ∷ codes "bafyreigbtj4x7ip5legnfznufuopl4sg4knzc2cof6duas4b3q2fy6swua"
    ∷ codes "baguqeeraiqjw7i2vwntyuekgvulpp2det2kpwt6cd7tx5ayqybqpmhfk76fa"
    ∷ []

abbrev pub rule1 : List Bytes
rule1 =
    codes "/ipfs/bafybeihvvulpp4evxj7x7armbqcyg6uezzuig6jp3lktpbovlqfkuqeuoq"
    ∷ codes "/ipfs/bafkreihvvulpp4evxj7x7armbqcyg6uezzuig6jp3lktpbovlqfkuqeuoq"
    ∷ codes "/ipfs/QmesfgDQ3q6prBy2Kg2gKbW4MAGuWiRP2DVuGA5MZSERLo"
    ∷ []

abbrev pub rule1_allowed : List Bytes
rule1_allowed =
    codes "/ipfs/bafybeihvvulpp4evxj7x7armbqcyg6uezzuig6jp3lktpbovlqfkuqeuoq/sub2"
    ∷ codes "/ipfs/bafkreihvvulpp4evxj7x7armbqcyg6uezzuig6jp3lktpbovlqfkuqeuoq/sub3"
    ∷ codes "/ipfs/QmesfgDQ3q6prBy2Kg2gKbW4MAGuWiRP2DVuGA5MZSERLo/sub4"
    ∷ []

abbrev pub rule2 : List Bytes
rule2 =
    codes "/ipfs/QmdWFA9FL52hx3j9EJZPQP1ZUH8Ygi5tLCX2cRDs6knSf8"
    ∷ codes "/ipfs/QmdWFA9FL52hx3j9EJZPQP1ZUH8Ygi5tLCX2cRDs6knSf8/a/b"
    ∷ codes "/ipfs/QmdWFA9FL52hx3j9EJZPQP1ZUH8Ygi5tLCX2cRDs6knSf8/z/"
    ∷ codes "/ipfs/QmdWFA9FL52hx3j9EJZPQP1ZUH8Ygi5tLCX2cRDs6knSf8/z"
    ∷ []

abbrev pub rule3 : List Bytes
rule3 =
    codes "/ipfs/Qmah2YDTfrox4watLCr3YgKyBwvjq8FJZEFdWY6WtJ3Xt2/test"
    ∷ codes "/ipfs/Qmah2YDTfrox4watLCr3YgKyBwvjq8FJZEFdWY6WtJ3Xt2/test2"
    ∷ codes "/ipfs/Qmah2YDTfrox4watLCr3YgKyBwvjq8FJZEFdWY6WtJ3Xt2/test/one"
    ∷ []

abbrev pub rule3_allowed : List Bytes
rule3_allowed =
    codes "/ipfs/Qmah2YDTfrox4watLCr3YgKyBwvjq8FJZEFdWY6WtJ3Xt2/tes"
    ∷ codes "/ipfs/Qmah2YDTfrox4watLCr3YgKyBwvjq8FJZEFdWY6WtJ3Xt2"
    ∷ codes "/ipfs/Qmah2YDTfrox4watLCr3YgKyBwvjq8FJZEFdWY6WtJ3Xt2/one/test"
    ∷ []

abbrev pub rule4 : List Bytes
rule4 =
    codes "/ipfs/QmTuvSQbEDR3sarFAN9kAeXBpiBCyYYNxdxciazBba11eC/test"
    ∷ codes "/ipfs/QmTuvSQbEDR3sarFAN9kAeXBpiBCyYYNxdxciazBba11eC/test2"
    ∷ codes "/ipfs/QmTuvSQbEDR3sarFAN9kAeXBpiBCyYYNxdxciazBba11eC/test/one"
    ∷ []

abbrev pub rule4_allowed : List Bytes
rule4_allowed =
    codes "/ipfs/QmTuvSQbEDR3sarFAN9kAeXBpiBCyYYNxdxciazBba11eC/tes"
    ∷ codes "/ipfs/QmTuvSQbEDR3sarFAN9kAeXBpiBCyYYNxdxciazBba11eC"
    ∷ codes "/ipfs/QmTuvSQbEDR3sarFAN9kAeXBpiBCyYYNxdxciazBba11eC/one/test"
    ∷ []

abbrev pub rule5 : List Bytes
rule5 =
    codes "/ipfs/QmUboz9UsQBDeS6Tug1U8jgoFkgYxyYood9NDyVURAY9pK/blocked"
    ∷ codes "/ipfs/QmUboz9UsQBDeS6Tug1U8jgoFkgYxyYood9NDyVURAY9pK/blocked2"
    ∷ []

abbrev pub rule5_allowed : List Bytes
rule5_allowed =
    codes "/ipfs/QmUboz9UsQBDeS6Tug1U8jgoFkgYxyYood9NDyVURAY9pK/blockednot"
    ∷ codes "/ipfs/QmUboz9UsQBDeS6Tug1U8jgoFkgYxyYood9NDyVURAY9pK/blocked/not"
    ∷ codes "/ipfs/QmUboz9UsQBDeS6Tug1U8jgoFkgYxyYood9NDyVURAY9pK/blocked/exceptions"
    ∷ codes "/ipfs/QmUboz9UsQBDeS6Tug1U8jgoFkgYxyYood9NDyVURAY9pK/blocked/exceptions2"
    ∷ codes "/ipfs/QmUboz9UsQBDeS6Tug1U8jgoFkgYxyYood9NDyVURAY9pK/blocked/exceptions/one"
    ∷ []

abbrev pub rule6 : List Bytes
rule6 = codes "/ipns/domain.example" ∷ codes "/ipns/domain-example" ∷ []

abbrev pub rule6_allowed : List Bytes
rule6_allowed =
    codes "/ipns/domainaefa.example"
    ∷ codes "/ipns/domain.example/path"
    ∷ codes "/ipns/domain--example"
    ∷ []

abbrev pub rule7 : List Bytes
rule7 = codes "/ipns/domain2.example/path" ∷ []

abbrev pub rule7_allowed : List Bytes
rule7_allowed = codes "/ipns/domain2.example" ∷ codes "/ipns/domain2.example/path2" ∷ []

abbrev pub rule8 : List Bytes
rule8 =
    codes "/ipns/k51qzi5uqu5dhmzyv3zac033i7rl9hkgczxyl81lwoukda2htteop7d3x0y1mf"
    ∷ codes "/ipns/bafzaajaiaejcaotjfs57kieazxny5japcmy5p2pgv2cic77tu6ogghttvurnrufx"
    ∷ codes "/ipns/12D3KooWDkNqEJNmreF3NYYFK1ws7Ra2fuW6cHBTu567SPV3LdYA"
    ∷ []

abbrev pub rule8_allowed : List Bytes
rule8_allowed = codes "/ipns/12D3KooWDkNqEJNmreF3NYYFK1ws7Ra2fuW6cHBTu567SPV3LdYA/path" ∷ []

module _ {S : Type 0} (L : Libs) (parse_cid : Bytes → Result Cid) (b : TestBlocker S) where
  -- All CIDs are parsed before the first is tested.
  unfoldable pub test_cid : Test S
  test_cid =
      let n = codes "testCID" in
      parse_all L parse_cid b blocked_cids (λ blocked.
        parse_all L parse_cid b allow_cids (λ allowed.
          check_cids L parse_cid b blocked n (codes "rule1") false
          >> check_cids L parse_cid b allowed n (codes "rule15") true))

  unfoldable pub test_cid_path : Test S
  test_cid_path =
      let n = codes "testCIDPath" in
      test_paths L parse_cid b rule1 n (codes "rule1") false
      >> test_paths L parse_cid b rule1_allowed n (codes "rule1") true
      >> test_paths L parse_cid b rule2 n (codes "rule2") false
      >> test_paths L parse_cid b rule3 n (codes "rule3") false
      >> test_paths L parse_cid b rule3_allowed n (codes "rule3") true
      >> test_paths L parse_cid b rule4 n (codes "rule4") false
      >> test_paths L parse_cid b rule4_allowed n (codes "rule4") true
      >> test_paths L parse_cid b rule5 n (codes "rule5") false
      >> test_paths L parse_cid b rule5_allowed n (codes "rule5") true

  unfoldable pub test_ipns_path : Test S
  test_ipns_path =
      let n = codes "testIPNS" in
      test_paths L parse_cid b rule6 n (codes "rule6") false
      >> test_paths L parse_cid b rule6_allowed n (codes "rule6") true
      >> test_paths L parse_cid b rule7 n (codes "rule7") false
      >> test_paths L parse_cid b rule7_allowed n (codes "rule7") true
      >> test_paths L parse_cid b rule8 n (codes "rule8") false
      >> test_paths L parse_cid b rule8_allowed n (codes "rule8") true
