-- ===== src/Tester/DoubleHashes.antt =====
-- tester/tester.go: testDoubleHashLegacy and testDoubleHash.
use nopfs.Prelude.{true, false, List, [], ◌∷◌, Bytes, codes, Result}
use nopfs.Libs.{Libs, Cid}
use nopfs.Tester.Interface.{TestBlocker, Test, ◌>>◌}
use nopfs.Tester.Checks.{test_paths, check_cid, must_parse}

abbrev pub rule10 : List Bytes
rule10 =
    codes "/ipns/k51qzi5uqu5dixwsch9wpd9rolqby1m0uqj5hhxwtxal0dwltastfmh01dlniq"
    ∷ codes "/ipns/bafzaajaiaejca3vrvdzmu4qntwa2pn6apsd4ug5k63ckdyhnd3g6vdvgvujdw62s"
    ∷ codes "/ipns/very-bad-example.eth"
    ∷ codes "/ipns/very-bad-example.eth/"
    ∷ []

abbrev pub rule11 : List Bytes
rule11 =
    codes "/ipfs/bafybeiefwqslmf6zyyrxodaxx4vwqircuxpza5ri45ws3y5a62ypxti42e/"
    ∷ codes "/ipfs/bafybeiefwqslmf6zyyrxodaxx4vwqircuxpza5ri45ws3y5a62ypxti42e"
    ∷ codes "/ipfs/bafybeiefwqslmf6zyyrxodaxx4vwqircuxpza5ri45ws3y5a62ypxti42e/path"
    ∷ []

abbrev pub rule11_allowed : List Bytes
rule11_allowed =
    codes "/ipfs/bafybeiefwqslmf6zyyrxodaxx4vwqircuxpza5ri45ws3y5a62ypxti42e/path2" ∷ []

abbrev pub rule13 : List Bytes
rule13 =
    codes "/ipfs/bafyb4ieqht3b2rssdmc7sjv2cy2gfdilxkfh7623nvndziyqnawkmo266a/path"
    ∷ codes "/ipfs/bafyb4ieqht3b2rssdmc7sjv2cy2gfdilxkfh7623nvndziyqnawkmo266a/path"
    ∷ codes "/ipfs/f01701e20903cf61d46521b05f926ba1634628d0bba8a7ffb5b6d5a3ca310682ca63b5ef0/path"
    ∷ []

abbrev pub rule13_allowed : List Bytes
rule13_allowed =
    codes "/ipfs/bafyb4ieqht3b2rssdmc7sjv2cy2gfdilxkfh7623nvndziyqnawkmo266a/"
    ∷ codes "/ipfs/bafyb4ieqht3b2rssdmc7sjv2cy2gfdilxkfh7623nvndziyqnawkmo266a/"
    ∷ codes "/ipfs/f01701e20903cf61d46521b05f926ba1634628d0bba8a7ffb5b6d5a3ca310682ca63b5ef0/"
    ∷ codes "/ipfs/bafyb4ieqht3b2rssdmc7sjv2cy2gfdilxkfh7623nvndziyqnawkmo266a/path2"
    ∷ codes "/ipfs/bafyb4ieqht3b2rssdmc7sjv2cy2gfdilxkfh7623nvndziyqnawkmo266a/path2"
    ∷ codes "/ipfs/f01701e20903cf61d46521b05f926ba1634628d0bba8a7ffb5b6d5a3ca310682ca63b5ef0/path2"
    ∷ []

abbrev pub rule14 : List Bytes
rule14 =
    codes "/ipns/my.domain.com"
    ∷ codes "/ipns/my.domain2.com/path"
    ∷ codes "/ipns/k51qzi5uqu5dixwsch9wpd9rolqby1m0uqj5hhxwtxal0dwltastfmh01dabcd"
    ∷ codes "/ipns/k51qzi5uqu5dixwsch9wpd9rolqby1m0uqj5hhxwtxal0dwltastfmh01d1234/mypath"
    ∷ codes "/ipns/bafzaajaiaejca3vrvdzmu4qntwa2pn6apsd4ug5k63ckdyhnd3g6vdvgvujczuoq/mypath"
    ∷ []

abbrev pub rule14_allowed : List Bytes
rule14_allowed =
    codes "/ipns/my.domain2.com/path2"
    ∷ codes "/ipns/k51qzi5uqu5dixwsch9wpd9rolqby1m0uqj5hhxwtxal0dwltastfmh01d1234/mypath2"
    ∷ []

abbrev pub legacy_cid : Bytes
legacy_cid = codes "bafybeiefwqslmf6zyyrxodaxx4vwqircuxpza5ri45ws3y5a62ypxti42e"

abbrev pub c1_text : Bytes
c1_text = codes "bafybeidjwik6im54nrpfg7osdvmx7zojl5oaxqel5cmsz46iuelwf5acja"

abbrev pub c2_text : Bytes
c2_text = codes "QmVTF1yEejXd9iMgoRTFDxBv7HAz9kuZcQNBzHrceuK9HR"

module _ {S : Type 0} (L : Libs) (parse_cid : Bytes → Result Cid) (b : TestBlocker S) where
  unfoldable pub test_double_hash_legacy : Test S
  test_double_hash_legacy =
      let n = codes "TestDoubleHashLegacy" in
      must_parse (parse_cid legacy_cid) (λ c.
        check_cid L parse_cid b n (codes "rule10") false c
        >> test_paths L parse_cid b rule10 n (codes "rule10") false
        >> test_paths L parse_cid b rule11 n (codes "rule11") false
        >> test_paths L parse_cid b rule11_allowed n (codes "rule11") true)

  unfoldable pub test_double_hash : Test S
  test_double_hash =
      let n = codes "TestDoubleHash" in
      must_parse (parse_cid c1_text) (λ c1. must_parse (parse_cid c2_text) (λ c2.
        check_cid L parse_cid b n (codes "rule12") false c1
        >> check_cid L parse_cid b n (codes "rule12") false c2
        >> test_paths L parse_cid b rule13 n (codes "rule13") false
        >> test_paths L parse_cid b rule13_allowed n (codes "rule13") true
        >> test_paths L parse_cid b rule14 n (codes "rule14") false
        >> test_paths L parse_cid b rule14_allowed n (codes "rule14") true))
