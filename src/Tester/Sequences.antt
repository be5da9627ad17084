-- ===== src/Tester/Sequences.antt =====
-- When tests pass, one after the other.
use nopfs.Prelude.{
  ◌≡◌, refl, sym, subst, ◌↔◌, Bool, true, false, not, List, [], ◌∷◌, Bytes, Result, ok, err, arith,
}
use nopfs.Libs.{Libs, Cid, IpfsPath}
use nopfs.Tester.Interface.{
  TestBlocker, Failure, path_unparsed, Tested, passed, failed, panicked, Test, unless_failed, ◌>>◌,
  pass, enabled,
}
use nopfs.Tester.Checks.{
  verdict, must_parse, test_path, test_paths, check_cid, check_cids, parse_all,
}

-- The queries leave the state alone.
pub record IsQuiet {S : Type 0} (b : TestBlocker S) : Type 0 where
  pub headers : (text : Bytes) (s : S) → (b.read_header text s).1 ≡ s
  pub paths : (p : IpfsPath) (s : S) → (b.is_path_blocked p s).1 ≡ s
  pub cids : (c : Cid) (s : S) → (b.is_cid_blocked c s).1 ≡ s

-- The test passes in the state exactly when the fact holds, and then leaves the other state.
pub record Tells {S : Type 0} (test : Test S) (s s' : S) (Fact : Type 0) : Type 0 where
  pub told : ((test s).0 ≡ passed) ↔ Fact
  pub leaves : (test s).0 ≡ passed → (test s).1 ≡ s'

module _ {S : Type 0} where
  pub Tells-pass : (s : S) → Tells pass s s (Unit {0})
  Tells-pass s = record { told = ((λ e. tt), (λ u. refl)); leaves = λ e. refl }

  then_told :
      (r : Tested × S) (next : Test S) (s s' : S) (P Q : Type 0)
      → (r.0 ≡ passed) ↔ P
      → (r.0 ≡ passed → r.1 ≡ s)
      → Tells next s s' Q
      → (((unless_failed r next).0 ≡ passed) ↔ (P × Q))
        × ((unless_failed r next).0 ≡ passed → (unless_failed r next).1 ≡ s')
  then_told (passed, t) next s s' P Q h same k =
      subst (λ (t : S). (((next t).0 ≡ passed) ↔ (P × Q)) × ((next t).0 ≡ passed → (next t).1 ≡ s'))
        (sym (same refl)) (((λ e. (h.0 refl, k.told.0 e)), (λ p. k.told.1 p.1)), k.leaves)
  then_told (failed failure, t) next s s' P Q h same k =
      (((λ e. absurd (ground arith)), (λ p. h.1 p.0)), (λ e. absurd (ground arith)))
  then_told (panicked, t) next s s' P Q h same k =
      (((λ e. absurd (ground arith)), (λ p. h.1 p.0)), (λ e. absurd (ground arith)))

  pub Tells-then :
      (m next : Test S) (s t s' : S) (P Q : Type 0)
      → Tells m s t P
      → Tells next t s' Q
      → Tells (m >> next) s s' (P × Q)
  Tells-then m next s t s' P Q h k =
      let (told, leaves) = then_told (m s) next t s' P Q h.told h.leaves k in
      record { told = told; leaves = leaves }

  pub Tells-enabled :
      (on : Bool) (test : Test S) (s : S) (P : Type 0)
      → Tells test s s P
      → Tells (enabled on test) s s (on ≡ true → P)
  Tells-enabled true test s P h = record {
    told = ((λ e u. h.told.0 e), (λ f. h.told.1 (f refl)));
    leaves = h.leaves;
  }
  Tells-enabled false test s P h = record {
    told = ((λ e u. absurd (ground arith)), (λ f. refl));
    leaves = λ e. refl;
  }

  pub Tells-must_parse :
      (r : Result Cid) (next : Cid → Test S) (s s' : S) (P : Cid → Type 0)
      → ((c : Cid) → Tells (next c) s s' (P c))
      → Tells (must_parse r next) s s' ((c : Cid) × (r ≡ ok c) × P c)
  Tells-must_parse (ok c) next s s' P h = record {
    told = ((λ e. (c, refl, (h c).told.0 e)), (λ p. (h c).told.1 (of_ok p)));
    leaves = (h c).leaves;
  }
    where
      of_ok : (d : Cid) × (ok c ≡ ok d) × P d → P c
      of_ok (d, e, p) = let same : d ≡ c = cc in subst P same p
  Tells-must_parse (err error) next s s' P h = record {
    told = ((λ e. absurd (ground arith)), (λ p. absurd (no_ok p)));
    leaves = λ e. absurd (ground arith);
  }
    where
      no_ok : (d : Cid) × (err error ≡ ok d) × P d → ⊥
      no_ok (d, e, p) = ground arith

  verdict_told :
      (r : Bool × S) (allow : Bool) (x y : Failure) (s : S)
      → r.1 ≡ s
      → (((verdict r.0 allow x y r.1).0 ≡ passed) ↔ (r.0 ≡ not allow))
        × ((verdict r.0 allow x y r.1).1 ≡ s)
  verdict_told (true, t) true x y s h =
      (((λ e. absurd (ground arith)), (λ e. absurd (ground arith))), h)
  verdict_told (true, t) false x y s h = (((λ e. refl), (λ e. refl)), h)
  verdict_told (false, t) true x y s h = (((λ e. refl), (λ e. refl)), h)
  verdict_told (false, t) false x y s h =
      (((λ e. absurd (ground arith)), (λ e. absurd (ground arith))), h)

-- Two tests that leave the state.
pub both :
    {S : Type 0} {m next : Test S} {s : S} {P Q : Type 0}
    → Tells m s s P
    → Tells next s s Q
    → Tells (m >> next) s s (P × Q)
both h k = Tells-then _ _ _ _ _ _ _ h k

module _ {S : Type 0} (L : Libs) (parse_cid : Bytes → Result Cid) (b : TestBlocker S) where
  -- The path parses, and its answer is the one that the test wants.
  abbrev pub PathIs : Bool → S → Bytes → Type 0
  PathIs allow s p =
      (ppath : IpfsPath) × (L.new_path p ≡ ok ppath) × ((b.is_path_blocked ppath s).0 ≡ not allow)

  abbrev pub PathsAre : Bool → S → List Bytes → Type 0
  PathsAre allow s [] = Unit {0}
  PathsAre allow s (p ∷ paths) = PathIs allow s p × PathsAre allow s paths

  abbrev pub CidIs : Bool → S → Cid → Type 0
  CidIs allow s c = (b.is_cid_blocked c s).0 ≡ not allow

  abbrev pub CidsAre : Bool → S → List Cid → Type 0
  CidsAre allow s [] = Unit {0}
  CidsAre allow s (c ∷ cids) = CidIs allow s c × CidsAre allow s cids

  -- The texts parse, and the fact holds of their CIDs.
  abbrev pub AllParse : List Bytes → (List Cid → Type 0) → Type 0
  AllParse [] Fact = Fact []
  AllParse (text ∷ texts) Fact =
      (c : Cid) × (parse_cid text ≡ ok c) × AllParse texts (λ cids. Fact (c ∷ cids))

module _ {S : Type 0} (L : Libs) (parse_cid : Bytes → Result Cid) (b : TestBlocker S)
    (q : IsQuiet b) where
  Tells-test_path :
      (p name rule : Bytes) (allow : Bool) (r : Result IpfsPath) (s : S)
      → Tells
          (test_path L parse_cid b p name rule allow r)
          s
          s
          ((ppath : IpfsPath) × (r ≡ ok ppath) × ((b.is_path_blocked ppath s).0 ≡ not allow))
  Tells-test_path p name rule allow (err error) s = record {
    told = ((λ e. absurd (ground arith)), no_ok);
    leaves = λ e. absurd (ground arith);
  }
    where
      no_ok :
          (ppath : IpfsPath) × (err error ≡ ok ppath) × ((b.is_path_blocked ppath s).0 ≡ not allow)
          → failed (path_unparsed error) ≡ passed
      no_ok (d, e, p) = absurd (ground arith)
  Tells-test_path p name rule allow (ok ppath) s =
      let (told, left) = verdict_told (b.is_path_blocked ppath s) allow _ _ s (q.paths ppath s) in
      record {
        told = ((λ e. (ppath, refl, told.0 e)), (λ h. told.1 (of_ok h)));
        leaves = λ e. left;
      }
    where
      of_ok :
          (d : IpfsPath) × (ok ppath ≡ ok d) × ((b.is_path_blocked d s).0 ≡ not allow)
          → (b.is_path_blocked ppath s).0 ≡ not allow
      of_ok (d, e, p) =
          let same : d ≡ ppath = cc in
          subst (λ (t : IpfsPath). (b.is_path_blocked t s).0 ≡ not allow) same p

  -- A list of paths passes exactly when each of them parses and has the answer that the test wants.
  pub Tells-test_paths :
      (paths : List Bytes) (name rule : Bytes) (allow : Bool) (s : S)
      → Tells
          (test_paths L parse_cid b paths name rule allow)
          s
          s
          (PathsAre L parse_cid b allow s paths)
  unfolding test_paths
  Tells-test_paths [] name rule allow s = Tells-pass s
  Tells-test_paths (p ∷ paths) name rule allow s =
      Tells-then _ _ s s s _ _ (Tells-test_path p name rule allow (L.new_path p) s)
        (Tells-test_paths paths name rule allow s)

  pub Tells-check_cid :
      (name rule : Bytes) (allow : Bool) (c : Cid) (s : S)
      → Tells (check_cid L parse_cid b name rule allow c) s s (CidIs L parse_cid b allow s c)
  unfolding check_cid
  Tells-check_cid name rule allow c s =
      let (told, left) = verdict_told (b.is_cid_blocked c s) allow _ _ s (q.cids c s) in
      record { told = told; leaves = λ e. left }

  pub Tells-check_cids :
      (cids : List Cid) (name rule : Bytes) (allow : Bool) (s : S)
      → Tells
          (check_cids L parse_cid b cids name rule allow)
          s
          s
          (CidsAre L parse_cid b allow s cids)
  unfolding check_cids
  Tells-check_cids [] name rule allow s = Tells-pass s
  Tells-check_cids (c ∷ cids) name rule allow s =
      Tells-then _ _ s s s _ _ (Tells-check_cid name rule allow c s)
        (Tells-check_cids cids name rule allow s)

  pub Tells-parse_all :
      (texts : List Bytes) (next : List Cid → Test S) (s s' : S) (P : List Cid → Type 0)
      → ((cids : List Cid) → Tells (next cids) s s' (P cids))
      → Tells (parse_all L parse_cid b texts next) s s' (AllParse L parse_cid b texts P)
  unfolding parse_all
  Tells-parse_all [] next s s' P h = h []
  Tells-parse_all (text ∷ texts) next s s' P h =
      Tells-must_parse (parse_cid text) _ s s'
        (λ c. AllParse L parse_cid b texts (λ cids. P (c ∷ cids)))
        (λ c.
          Tells-parse_all texts (λ cids. next (c ∷ cids)) s s' (λ cids. P (c ∷ cids))
            (λ cids. h (c ∷ cids)))
