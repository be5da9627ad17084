-- ===== src/Blocker/Opening.antt =====
-- Which denylists `NewBlocker` holds.
use nopfs.Prelude.{
  ◌+◌, ◌≤◌, ◌≡◌, ◌≢◌, ◌⊎◌, inl, inr, refl, sym, ap, ◌∙◌, ◌↔◌, Bool, false, ◌||◌, List, [], ◌∷◌,
  ◌++◌, Option, none, some, Bytes, bytes_eq, bytes_eqb, bytes_eqb_iff, length, length-append,
  if◌then◌else◌, Error, Result, ok, err, arith,
}
use nopfs.Prelude.GoMap.{get, put, get-put}
use nopfs.Denylist.{Denylist}
use nopfs.Blocker.{Blocker, open_files, new_blocker, empty_blocker, unless_all_failed}

-- The files that open, with their denylists.
abbrev pub opened : Result Denylist → Option Denylist
opened (ok dl) = some dl
opened (err e) = none

unfoldable pub in_files : Bytes → List Bytes → Bool
in_files f [] = false
in_files f (g ∷ files) = bytes_eqb g f || in_files f files

abbrev pub AllFail : (Bytes → Result Denylist) → List Bytes → Type 0
AllFail load_file [] = Unit {0}
AllFail load_file (f ∷ files) = ((e : Error) × (load_file f ≡ err e)) × AllFail load_file files

abbrev or_else : Option Denylist → Option Denylist → Option Denylist
or_else none o = o
or_else (some dl) o = some dl

Result-cases : (r : Result Denylist) → ((a : Denylist) × (r ≡ ok a)) ⊎ ((e : Error) × (r ≡ err e))
Result-cases (ok a) = inl (a, refl)
Result-cases (err e) = inr (e, refl)

or_else-none : (o : Option Denylist) → or_else o none ≡ o
or_else-none none = refl
or_else-none (some dl) = refl

refused :
    (files : List Bytes) (b : Blocker) (errors : List Error)
    → (unless_all_failed files (b, errors)).0 ≡ none
    → (files ≢ []) × (length errors ≡ 0 + length files)
refused [] b errors h = absurd (ground arith)
refused (f ∷ files) b errors h = ((cc), ground arith)

refuses :
    (files : List Bytes)
    → files ≢ []
    → (b : Blocker) (errors : List Error) → length errors ≡ 0 + length files
    → (unless_all_failed files (b, errors)).0 ≡ none
refuses [] n b errors h = absurd (n refl)
refuses (f ∷ files) n b errors h = ground arith

accepted :
    (files : List Bytes) (b : Blocker) (errors : List Error) (b' : Blocker)
    → (unless_all_failed files (b, errors)).0 ≡ some b'
    → b ≡ b'
accepted files b errors b' h = ground arith

module _ (load_file : Bytes → Result Denylist) where
  step-ok :
      (f : Bytes) (files : List Bytes) (b : Blocker) (errors : List Error) (dl : Denylist)
      → load_file f ≡ ok dl
      → open_files load_file (f ∷ files) b errors
        ≡ open_files load_file files (record { denylists = put b.denylists f dl }) errors
  unfolding open_files
  step-ok f files b errors dl e = rw (e, open_files)

  step-err :
      (f : Bytes) (files : List Bytes) (b : Blocker) (errors : List Error) (x : Error)
      → load_file f ≡ err x
      → open_files load_file (f ∷ files) b errors ≡ open_files load_file files b (errors ++ x ∷ [])
  unfolding open_files
  step-err f files b errors x e = rw (e, open_files)

  -- No more errors than files.
  open_files-length :
      (files : List Bytes) (b : Blocker) (errors : List Error)
      → length (open_files load_file files b errors).1 ≤ length errors + length files
  open_files-length [] b errors = unfold open_files in omega arith
  open_files-length (f ∷ files) b errors = elim (Result-cases (load_file f)) [
    | inl (dl, e) ↦
        rw (step-ok f files b errors dl e) (omega (arith, open_files-length files _ errors))
    | inr (x, e) ↦ rw (step-err f files b errors x e) (
        omega
          (arith, open_files-length files b (errors ++ x ∷ []), length-append {0} errors (x ∷ [])))
  ]

  AllFail→length :
      (files : List Bytes) (b : Blocker) (errors : List Error)
      → AllFail load_file files
      → length (open_files load_file files b errors).1 ≡ length errors + length files
  AllFail→length [] b errors h = unfold open_files in omega arith
  AllFail→length (f ∷ files) b errors ((x, e), h) = rw (step-err f files b errors x e) (
      omega (arith, AllFail→length files b (errors ++ x ∷ []) h, length-append {0} errors (x ∷ [])))

  length→AllFail :
      (files : List Bytes) (b : Blocker) (errors : List Error)
      → length (open_files load_file files b errors).1 ≡ length errors + length files
      → AllFail load_file files
  length→AllFail [] b errors h = tt
  length→AllFail (f ∷ files) b errors h = elim (Result-cases (load_file f)) [
    | inl (dl, e) ↦
        let h' = rw (step-ok f files b errors dl e) at h in
        absurd (
          omega
            (arith, open_files-length files (record { denylists = put b.denylists f dl }) errors))
    | inr (x, e) ↦
        let h' = rw (step-err f files b errors x e) at h in
        (
          (x, e),
          length→AllFail files b (errors ++ x ∷ [])
              (omega (arith, length-append {0} errors (x ∷ []))),
        )
  ]

  open_files-get :
      (files : List Bytes) (b : Blocker) (errors : List Error) (k : Bytes)
      → get (open_files load_file files b errors).0.denylists k ≡ (
          if in_files k files
          then or_else (opened (load_file k)) (get b.denylists k)
          else get b.denylists k)
  unfolding in_files
  open_files-get [] b errors k = unfold open_files in refl
  open_files-get (f ∷ files) b errors k = elim (Result-cases (load_file f)) [
    | inl (dl, e) ↦ rw (step-ok f files b errors dl e) (
        ground (
          arith,
          open_files-get files (record { denylists = put b.denylists f dl }) errors k,
          get-put b.denylists f dl k,
          bytes_eqb_iff f k,
        ))
    | inr (x, e) ↦
        rw (step-err f files b errors x e)
          (ground (arith, open_files-get files b (errors ++ x ∷ []) k, bytes_eqb_iff f k))
  ]

  new_blocker-none :
      (files : List Bytes)
      → (new_blocker load_file files).0 ≡ none
      → (files ≢ []) × AllFail load_file files
  unfolding new_blocker
  new_blocker-none files h =
      let (some_file, all) =
        refused files (open_files load_file files empty_blocker []).0
          (open_files load_file files empty_blocker []).1 h in
      (some_file, length→AllFail files empty_blocker [] (omega arith))

  new_blocker_fails :
      (files : List Bytes)
      → files ≢ []
      → AllFail load_file files
      → (new_blocker load_file files).0 ≡ none
  unfolding new_blocker
  new_blocker_fails files n all =
      refuses files n (open_files load_file files empty_blocker []).0
        (open_files load_file files empty_blocker []).1 (AllFail→length files empty_blocker [] all)

  new_blocker-some :
      (files : List Bytes) (b : Blocker) (k : Bytes)
      → (new_blocker load_file files).0 ≡ some b
      → get b.denylists k ≡ (if in_files k files then opened (load_file k) else none)
  unfolding new_blocker get
  new_blocker-some files b k h =
      let same : (open_files load_file files empty_blocker []).0 ≡ b =
        accepted files (open_files load_file files empty_blocker []).0
          (open_files load_file files empty_blocker []).1 b h in
      ap (λ (x : Blocker). get x.denylists k) (sym same)
      ∙ open_files-get files empty_blocker [] k
      ∙ rw or_else-none

  -- `NewBlocker` returns no blocker exactly when there are files and none of them opens. The blocker
  -- that it returns holds the denylists of the files that open, each under its file's name, and no
  -- other.
  pub new_blocker_lem :
      (files : List Bytes)
      → (((new_blocker load_file files).0 ≡ none) ↔ ((files ≢ []) × AllFail load_file files))
        × ((b : Blocker) (k : Bytes)
            → (new_blocker load_file files).0 ≡ some b
            → get b.denylists k ≡ (if in_files k files then opened (load_file k) else none))
  new_blocker_lem files = (
    (λ h. new_blocker-none files h, λ h. new_blocker_fails files h.0 h.1),
    λ b k h. new_blocker-some files b k h,
  )
