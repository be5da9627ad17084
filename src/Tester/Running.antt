-- ===== src/Tester/Running.antt =====
-- tester/tester.go: when `Run` returns nil.
use nopfs.Prelude.{
  ◌≡◌, refl, sym, ◌↔◌, subst, Bool, true, false, not, ◌||◌, Option, none, some, Bytes, codes,
  bytes_eq, bytes_eqb, bytes_eqb_iff, nat_eqb, nat_eqb_iff, length, if◌then◌else◌, Error, Result,
  ok, err, arith,
}
use nopfs.Prelude.GoMap.{get}
use nopfs.Libs.{Libs, Cid}
use nopfs.Tester.Interface.{TestHeader, TestBlocker, header_wrong, hints_wrong, passed, Test, fail}
use nopfs.Tester.Suite.{
  Suite, list_with_header, list_without_header2, or_empty, check_separator, check_header,
  test_header, check_denylist, read_test_list, run,
}
use nopfs.Tester.Sequences.{IsQuiet, Tells, Tells-then, Tells-enabled, both}
use nopfs.Tester.Passing.{
  CidFacts, CidPathFacts, IpnsPathFacts, LegacyFacts, DoubleHashFacts, Tells-test_cid,
  Tells-test_cid_path, Tells-test_ipns_path, Tells-test_double_hash_legacy, Tells-test_double_hash,
}

module _ {S : Type 0} where
  -- Two guards before a test.
  Tells-guards :
      (x y z : Bool) (next : Test S) (s : S) (P : Type 0)
      → Tells next s s P
      → Tells
          (if not x then fail header_wrong else if not y || not z then fail hints_wrong else next)
          s
          s
          ((x ≡ true) × (y ≡ true) × (z ≡ true) × P)
  Tells-guards true true true next s P h = record {
    told = ((λ e. (refl, refl, refl, h.told.0 e)), (λ p. h.told.1 p.3));
    leaves = h.leaves;
  }
  Tells-guards true true false next s P h = record {
    told = ((λ e. absurd (ground arith)), (λ p. absurd (ground (arith, p.2))));
    leaves = λ e. absurd (ground arith);
  }
  Tells-guards true false z next s P h = record {
    told = ((λ e. absurd (ground arith)), (λ p. absurd (ground (arith, p.1))));
    leaves = λ e. absurd (ground arith);
  }
  Tells-guards false y z next s P h = record {
    told = ((λ e. absurd (ground arith)), (λ p. absurd (ground (arith, p.0))));
    leaves = λ e. absurd (ground arith);
  }

  -- The same test, with the fact in other words.
  Tells-iff :
      (m : Test S) (s s' : S) (P Q : Type 0) → Tells m s s' P → (P → Q) → (Q → P) → Tells m s s' Q
  Tells-iff m s s' P Q h f g = record {
    told = ((λ e. f (h.told.0 e)), (λ x. h.told.1 (g x)));
    leaves = h.leaves;
  }

-- A header with the name and the one hint of the first list.
abbrev pub IsTestHeader : {S : Type 0} → TestBlocker S → S → TestHeader → Type 0
IsTestHeader b s h =
    (h.name ≡ codes "test")
    × (length h.hints ≡ 1)
    × (or_empty (get h.hints (codes "a")) ≡ codes "b")
    × ((h2 : TestHeader) × ((b.read_header list_without_header2 s).0 ≡ ok h2))

-- The first list gives such a header, and the second list a header.
abbrev pub HeaderFacts : {S : Type 0} → TestBlocker S → S → Type 0
HeaderFacts b s =
    (h : TestHeader) × ((b.read_header list_with_header s).0 ≡ ok h) × IsTestHeader b s h

-- What each enabled test wants of the implementation, in the state that reading the list leaves.
abbrev pub SuiteFacts :
    {S : Type 0} → Libs → (Bytes → Result Cid) → TestBlocker S → Suite → S → Type 0
SuiteFacts L parse_cid b suite s =
    (suite.test_cid ≡ true → CidFacts L parse_cid b s)
    × ((suite.test_cid_path ≡ true → CidPathFacts L parse_cid b s)
        × ((suite.test_ipns_path ≡ true → IpnsPathFacts L parse_cid b s)
            × ((suite.test_double_hash_legacy ≡ true → LegacyFacts L parse_cid b s)
                × (suite.test_double_hash ≡ true → DoubleHashFacts L parse_cid b s))))

module _ {S : Type 0} (b : TestBlocker S) (q : IsQuiet b) (s : S) where
  Tells-separator :
      (r : Result TestHeader) → Tells (check_separator b r) s s ((h2 : TestHeader) × (r ≡ ok h2))
  Tells-separator (ok h) = record { told = ((λ e. (h, refl)), (λ p. refl)); leaves = λ e. refl }
  Tells-separator (err error) = record {
    told = ((λ e. absurd (ground arith)), no_ok);
    leaves = λ e. refl;
  }
    where
      no_ok : (h2 : TestHeader) × (err error ≡ ok h2) → (check_separator b (err error) s).0 ≡ passed
      no_ok (h2, e) = absurd (ground arith)

  -- A test that begins with a query for a header.
  Tells-read :
      (text : Bytes) (check : Result TestHeader → Test S) (P : Type 0)
      → Tells (check (b.read_header text s).0) s s P
      → Tells (λ t. check (b.read_header text t).0 (b.read_header text t).1) s s P
  Tells-read text check P h =
      let same = q.headers text s in
      record {
        told =
            subst (λ (t : S). ((check (b.read_header text s).0 t).0 ≡ passed) ↔ P) (sym same)
              h.told;
        leaves =
            subst
              (λ (t : S).
                (check (b.read_header text s).0 t).0 ≡ passed
                → (check (b.read_header text s).0 t).1 ≡ s)
              (sym same) h.leaves;
      }

  Tells-check_header :
      (r : Result TestHeader)
      → Tells (check_header b r) s s ((h : TestHeader) × (r ≡ ok h) × IsTestHeader b s h)
  Tells-check_header (ok h) =
      let hint = or_empty (get h.hints (codes "a")) in
      Tells-iff _ s s _ _
        (Tells-guards (bytes_eqb h.name (codes "test")) (nat_eqb (length h.hints) 1)
          (bytes_eqb hint (codes "b")) _ s _
          (Tells-read list_without_header2 (check_separator b) _
            (Tells-separator (b.read_header list_without_header2 s).0)))
        (λ p. (
          h,
          refl,
          (
            (bytes_eqb_iff h.name (codes "test")).0 p.0,
            (nat_eqb_iff (length h.hints) 1).0 p.1,
            (bytes_eqb_iff hint (codes "b")).0 p.2,
            p.3,
          ),
        ))
        of_ok
    where
      of_ok :
          (d : TestHeader) × (ok h ≡ ok d) × IsTestHeader b s d
          → (bytes_eqb h.name (codes "test") ≡ true)
            × (nat_eqb (length h.hints) 1 ≡ true)
            × (bytes_eqb (or_empty (get h.hints (codes "a"))) (codes "b") ≡ true)
            × ((h2 : TestHeader) × ((b.read_header list_without_header2 s).0 ≡ ok h2))
      of_ok (d, e, p) =
          let same : d ≡ h = cc in
          let (name, count, hint, second) = subst (IsTestHeader b s) same p in
          (
            (bytes_eqb_iff h.name (codes "test")).1 name,
            (nat_eqb_iff (length h.hints) 1).1 count,
            (bytes_eqb_iff (or_empty (get h.hints (codes "a"))) (codes "b")).1 hint,
            second,
          )
  Tells-check_header (err error) = record {
    told = ((λ e. absurd (ground arith)), no_ok);
    leaves = λ e. absurd (ground arith);
  }
    where
      no_ok :
          (h : TestHeader) × (err error ≡ ok h) × IsTestHeader b s h
          → (check_header b (err error) s).0 ≡ passed
      no_ok (h, e, p) = absurd (ground arith)

  Tells-test_header : Tells (test_header b) s s (HeaderFacts b s)
  unfolding test_header
  Tells-test_header =
      Tells-read list_with_header (check_header b) _
        (Tells-check_header (b.read_header list_with_header s).0)

module _ {S : Type 0} (b : TestBlocker S) where
  check_denylist_told :
      (error : Option Error) (s : S)
      → (((check_denylist b error s).0 ≡ passed) ↔ (error ≡ none))
        × ((check_denylist b error s).1 ≡ s)
  check_denylist_told none s = (((λ e. refl), (λ e. refl)), refl)
  check_denylist_told (some error) s =
      (((λ e. absurd (ground arith)), (λ e. absurd (ground arith))), refl)

  Tells-read_test_list :
      (file : Bytes) (s : S)
      → Tells
          (read_test_list b file)
          s
          (b.read_denylist file s).1
          ((b.read_denylist file s).0 ≡ none)
  unfolding read_test_list
  Tells-read_test_list file s =
      let (told, left) =
        check_denylist_told (b.read_denylist file s).0 (b.read_denylist file s).1 in
      record { told = told; leaves = λ e. left }

-- `Run` returns nil exactly when the implementation answers as the lists of the suite say: with
-- each test that is enabled, the header is read with its name and hint, the denylist is read with no
-- error, and in the state that reading it leaves every CID and every path of the test's lists parses
-- and is blocked or not blocked as its list says. The queries of the implementation must leave its
-- state alone.
pub run_iff :
    {S : Type 0} (L : Libs) (parse_cid : Bytes → Result Cid) (b : TestBlocker S)
    → IsQuiet b
    → (file : Bytes) (suite : Suite) (s : S)
    → ((run b L parse_cid file suite s).0 ≡ passed) ↔ (
        (suite.test_header ≡ true → HeaderFacts b s)
        × (((b.read_denylist file s).0 ≡ none)
            × SuiteFacts L parse_cid b suite (b.read_denylist file s).1))
unfolding run
run_iff L parse_cid b q file suite s =
    let s' = (b.read_denylist file s).1 in
    let all =
      Tells-then _ _ s s s' _ _ (Tells-enabled suite.test_header _ s _ (Tells-test_header b q s)) (
        Tells-then _ _ s s' s' _ _ (Tells-read_test_list b file s) (
          both (Tells-enabled suite.test_cid _ s' _ (Tells-test_cid L parse_cid b q s')) (
            both (Tells-enabled suite.test_cid_path _ s' _ (Tells-test_cid_path L parse_cid b q s'))
              (both
                (Tells-enabled suite.test_ipns_path _ s' _
                  (Tells-test_ipns_path L parse_cid b q s'))
                (both
                  (Tells-enabled suite.test_double_hash_legacy _ s' _
                    (Tells-test_double_hash_legacy L parse_cid b q s'))
                  (Tells-enabled suite.test_double_hash _ s' _
                    (Tells-test_double_hash L parse_cid b q s'))))))) in
    all.told
