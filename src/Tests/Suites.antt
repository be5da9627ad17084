-- ===== src/Tests/Suites.antt =====
-- The test suite for a toy implementation.
use nopfs.Prelude.{
  ◌≡◌, refl, ◌↔◌, true, false, Option, Error, none, [], ◌∷◌, Bytes, codes, ok, bytes_eq, bytes_eqb,
}
use nopfs.Prelude.GoMap.{get}
use nopfs.Tester.Interface.{TestBlocker, TestHeader, passed}
use nopfs.Tester.Sequences.{IsQuiet}
use nopfs.Tester.Suite.{Suite, run, test_header, read_test_list}
use nopfs.Tester.Running.{HeaderFacts, SuiteFacts, run_iff}
use nopfs.Tests.Toy.{toy, toy_decode}

abbrev the_header : TestHeader
the_header = record { name = codes "test"; hints = (codes "a", codes "b") ∷ [] }

-- Its state is the list that it has read last, and it blocks all or nothing.
abbrev implementation : TestBlocker Bytes
implementation = record {
  read_header = λ text s. (ok the_header, s);
  read_denylist = λ file s. (none, file);
  is_path_blocked = λ p s. (bytes_eqb s (codes "all"), s);
  is_cid_blocked = λ c s. (bytes_eqb s (codes "all"), s);
}

implementation-IsQuiet : IsQuiet implementation
implementation-IsQuiet = record {
  headers = λ text s. refl;
  paths = λ p s. refl;
  cids = λ c s. refl;
}

abbrev everything : Suite
everything = record {
  test_header = true;
  test_cid = true;
  test_cid_path = true;
  test_ipns_path = true;
  test_double_hash_legacy = true;
  test_double_hash = true;
}

abbrev header_only : Suite
header_only = record {
  test_header = true;
  test_cid = false;
  test_cid_path = false;
  test_ipns_path = false;
  test_double_hash_legacy = false;
  test_double_hash = false;
}

header_only_passes : (run implementation toy toy_decode (codes "all") header_only []).0 ≡ passed
unfolding run test_header read_test_list get bytes_eqb
header_only_passes = refl

run_iff_example : ((run implementation toy toy_decode (codes "all") everything []).0 ≡ passed) ↔ (
    (true ≡ true → HeaderFacts implementation [])
    × ((◌≡◌ {A = Option Error} none none)
        × SuiteFacts toy toy_decode implementation everything (codes "all")))
run_iff_example =
    run_iff toy toy_decode implementation implementation-IsQuiet (codes "all") everything []
