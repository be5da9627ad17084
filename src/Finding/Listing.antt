-- ===== src/Finding/Listing.antt =====
-- Which files are found.
use nopfs.Prelude.{
  ℕ, ◌≡◌, ◌≢◌, inl, inr, refl, sym, ap, ◌∙◌, Bool, true, false, not, ◌&&◌, List, [], ◌∷◌, ◌++◌,
  append-nil, append_assoc, Option, none, some, Bytes, codes, nat_eqb, bytes_eqb, bytes_eqb_iff,
  Bool-cases, if◌then◌else◌, Error, walk_failed, ok, err, arith,
}
use mathlib.Core.Option
use nopfs.Text.{contains_byte, has_suffix, strip_suffix, found}
use nopfs.Text.Paths.{ext, ext_from}
use nopfs.Finding.{Visit, walk_files, unless_walk_failed, get_denylist_files_in_dir}

abbrev deny : Bytes
deny = codes ".deny"

found-map : (c : ℕ) (o : Option Bytes) → found (Option.map (◌∷◌ c) o) ≡ found o
found-map c none = refl
found-map c (some s) = refl

has_suffix-cons :
    (c : ℕ) (s suffix : Bytes)
    → has_suffix (c ∷ s) suffix ≡ (if bytes_eqb (c ∷ s) suffix then true else has_suffix s suffix)
unfolding has_suffix strip_suffix
has_suffix-cons c s suffix = elim (Bool-cases (bytes_eqb (c ∷ s) suffix)) [
  | inl same ↦ rw same
  | inr other ↦ rw other (found-map c (strip_suffix s suffix))
]

ext-deny : ext (codes ".deny") ≡ deny
unfolding ext contains_byte
ext-deny = refl

-- The extension of a path that is longer by one byte, where it has one.
ext-cons : (c : ℕ) (s : Bytes) → ext s ≢ [] → ext (c ∷ s) ≡ ext s
unfolding ext
ext-cons c s n = longer (ext s) n
  where
    longer : (e : Bytes) → e ≢ [] → ext_from c s e ≡ e
    longer [] n = absurd (n refl)
    longer (d ∷ e) n = refl

no_suffix : has_suffix [] deny ≢ true
unfolding has_suffix strip_suffix bytes_eqb
no_suffix h = ground arith

no_ext : ext [] ≢ deny
unfolding ext
no_ext h = ground arith

has_suffix→ext : (s : Bytes) → has_suffix s deny ≡ true → ext s ≡ deny
has_suffix→ext [] h = absurd (no_suffix h)
has_suffix→ext (c ∷ s) h = elim (Bool-cases (bytes_eqb (c ∷ s) deny)) [
  | inl same ↦ ap ext ((bytes_eqb_iff (c ∷ s) deny).0 same) ∙ ext-deny
  | inr other ↦
      let later : ext s ≡ deny = has_suffix→ext s (ground (arith, has_suffix-cons c s deny)) in
      ext-cons c s (λ e. absurd (ground (arith, e, later))) ∙ later
]

has_suffix-later : (c : ℕ) (s : Bytes) → has_suffix s deny ≡ true → has_suffix (c ∷ s) deny ≡ true
has_suffix-later c s h = ground (arith, has_suffix-cons c s deny)

has_suffix-whole : (c : ℕ) (s : Bytes) → c ∷ s ≡ deny → has_suffix (c ∷ s) deny ≡ true
has_suffix-whole c s h = has_suffix-cons c s deny ∙ rw ((bytes_eqb_iff (c ∷ s) deny).1 h)

ext_from→has_suffix :
    (c : ℕ) (s e : Bytes)
    → ext_from c s e ≡ deny
    → (e ≡ deny → has_suffix s deny ≡ true)
    → has_suffix (c ∷ s) deny ≡ true
ext_from→has_suffix c s (d ∷ e) h later = has_suffix-later c s (later h)
ext_from→has_suffix c s [] h later =
    has_suffix-whole c s (at_dot (not (contains_byte s b'/') && nat_eqb c b'.') h)
  where
    at_dot : (b : Bool) → (if b then c ∷ s else []) ≡ deny → c ∷ s ≡ deny
    at_dot true h = h
    at_dot false h = absurd (ground arith)

ext→has_suffix : (s : Bytes) → ext s ≡ deny → has_suffix s deny ≡ true
unfolding ext
ext→has_suffix [] h = absurd (no_ext h)
ext→has_suffix (c ∷ s) h = ext_from→has_suffix c s (ext s) h (λ e. ext→has_suffix s e)

-- The extension is the suffix that a denylist's name ends in.
ext-suffix : (s : Bytes) → bytes_eqb (ext s) deny ≡ has_suffix s deny
ext-suffix s = ground (arith, bytes_eqb_iff (ext s) deny, ext→has_suffix s, has_suffix→ext s)

-- The files of the visits whose names end in `.deny`, in their order, without the directories.
abbrev pub names : List Visit → List Bytes
names [] = []
names (v ∷ visits) =
    let rest = names visits in
    if not v.is_dir && has_suffix v.path (codes ".deny") then v.path ∷ rest else rest

abbrev pub NoErrors : List Visit → Type 0
NoErrors [] = Unit {0}
NoErrors (v ∷ visits) = (v.error ≡ none) × NoErrors visits

walk_step :
    (b : Bool) (files : List Bytes) (path : Bytes) (rest : List Bytes)
    → (if b then files ++ path ∷ [] else files) ++ rest ≡ files ++ (if b then path ∷ rest else rest)
walk_step true files path rest = append_assoc files (path ∷ []) rest
walk_step false files path rest = refl

walk_files-names :
    (before after : List Visit) (files : List Bytes)
    → NoErrors before
    → walk_files (before ++ after) files ≡ walk_files after (files ++ names before)
unfolding walk_files
walk_files-names [] after files h = rw append-nil
walk_files-names (v ∷ before) after files (plain, h) =
    rw (plain, ext-suffix v.path)
      (walk_files-names before after _ h
        ∙ ap (walk_files after)
            (walk_step (not v.is_dir && has_suffix v.path deny) files v.path (names before)))

walk_files-stop :
    (v : Visit) (after : List Visit) (files : List Bytes) (error : Error)
    → v.error ≡ some error
    → walk_files (v ∷ after) files ≡ (files, some error)
unfolding walk_files
walk_files-stop v after files error e = rw e

walk_files-nil : (files : List Bytes) → walk_files [] files ≡ (files, none)
unfolding walk_files
walk_files-nil files = refl

module _ (walk : Bytes → List Visit) (is_not_exist : Error → Bool) (dirpath : Bytes) where
  whole_walk :
      NoErrors (walk dirpath)
      → get_denylist_files_in_dir walk is_not_exist dirpath ≡ ok (names (walk dirpath))
  unfolding get_denylist_files_in_dir
  whole_walk h = ap (unless_walk_failed walk is_not_exist dirpath) (
      ap (λ (l : List Visit). walk_files l []) (sym (append-nil (walk dirpath)))
      ∙ walk_files-names (walk dirpath) [] [] h
      ∙ walk_files-nil (names (walk dirpath)))

  stopped_walk :
      (before : List Visit) (v : Visit) (after : List Visit) (error : Error)
      → walk dirpath ≡ before ++ v ∷ after
      → NoErrors before
      → v.error ≡ some error
      → get_denylist_files_in_dir walk is_not_exist dirpath
        ≡ (if not (is_not_exist error) then err (walk_failed dirpath error) else ok (names before))
  unfolding get_denylist_files_in_dir
  stopped_walk before v after error e h stop = ap (unless_walk_failed walk is_not_exist dirpath) (
      ap (λ (l : List Visit). walk_files l []) e
      ∙ walk_files-names before (v ∷ after) [] h
      ∙ walk_files-stop v after (names before) error stop)

  -- `GetDenylistFilesInDir` gives the visited files whose names end in `.deny`, in the order of the
  -- walk and without directories, when no visit comes with an error. At the first visit that comes
  -- with one the walk ends: where the error says that something does not exist, as for a directory
  -- that is missing, the files before it are given and no error; any other error is returned, and no
  -- files.
  pub get_denylist_files_in_dir_lem :
      (NoErrors (walk dirpath)
        → get_denylist_files_in_dir walk is_not_exist dirpath ≡ ok (names (walk dirpath)))
      × ((before : List Visit) (v : Visit) (after : List Visit) (error : Error)
          → walk dirpath ≡ before ++ v ∷ after
          → NoErrors before
          → v.error ≡ some error
          → (is_not_exist error ≡ true
              → get_denylist_files_in_dir walk is_not_exist dirpath ≡ ok (names before))
            × (is_not_exist error ≡ false
                → get_denylist_files_in_dir walk is_not_exist dirpath
                  ≡ err (walk_failed dirpath error)))
  get_denylist_files_in_dir_lem = (
    whole_walk,
    λ before v after error e h stop. (
      (λ missing. stopped_walk before v after error e h stop ∙ rw missing),
      (λ bad. stopped_walk before v after error e h stop ∙ rw bad),
    ),
  )
