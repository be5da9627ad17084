-- ===== src/Denylist/Overlap.antt =====
-- Queries that overlap with the parsing of a line by the goroutine that follows a file: each field
-- that a query reads is as it was before the change or as it is after it.
pub mod OneField
pub mod Answering
use nopfs.Prelude.{
  nat_eq, bytes_eq, ℕ, ◌≡◌, ◌≢◌, ◌⊎◌, inl, inr, refl, sym, ap, ◌∙◌, subst, Bool, true, false, List,
  [], ◌++◌, append-nil, Bytes, Option, Error, if◌then◌else◌, Bool-cases, arith,
}
use nopfs.Prelude.GoMap.{get}
use nopfs.Libs.{Libs, Cid, IpfsPath}
use nopfs.Entry.{Entries}
use nopfs.BlocksDb.{load}
use nopfs.Denylist.{Denylist}
use nopfs.Denylist.Rules.{Outcome, returned, blocks_of}
use nopfs.Denylist.Log.{Rule, Reader, by_cid, by_name, by_hash, by_path, by_paths, pick, line_rules}
use nopfs.Denylist.Log.Adds.{Adds, index}

-- The fields of a denylist that hold rules.
pub data Field : Type 0 where
  ipfs_blocks ipns_blocks double_hash_blocks path_blocks path_prefix_blocks : Field

-- Where a reader looks.
abbrev pub field_of : Reader → Field
field_of (by_cid k) = ipfs_blocks
field_of (by_name k) = ipns_blocks
field_of (by_hash code k) = double_hash_blocks
field_of (by_path k) = path_blocks
field_of by_paths = path_prefix_blocks

abbrev pub same_field : Field → Field → Bool
same_field ipfs_blocks ipfs_blocks = true
same_field ipns_blocks ipns_blocks = true
same_field double_hash_blocks double_hash_blocks = true
same_field path_blocks path_blocks = true
same_field path_prefix_blocks path_prefix_blocks = true
same_field _ _ = false

same_field-eq : (f g : Field) → same_field f g ≡ true → f ≡ g
same_field-eq ipfs_blocks ipfs_blocks e = refl
same_field-eq ipns_blocks ipns_blocks e = refl
same_field-eq double_hash_blocks double_hash_blocks e = refl
same_field-eq path_blocks path_blocks e = refl
same_field-eq path_prefix_blocks path_prefix_blocks e = refl
same_field-eq _ _ e = absurd (ground arith)

-- What a query sees that reads each field before or after another goroutine changes it.
unfoldable pub torn : (Field → Bool) → Denylist → Denylist → Denylist
torn new dl dl' = record dl {
  ipfs_blocks_db = if new ipfs_blocks then dl'.ipfs_blocks_db else dl.ipfs_blocks_db;
  ipns_blocks_db = if new ipns_blocks then dl'.ipns_blocks_db else dl.ipns_blocks_db;
  double_hash_blocks_db =
      if new double_hash_blocks then dl'.double_hash_blocks_db else dl.double_hash_blocks_db;
  path_blocks_db = if new path_blocks then dl'.path_blocks_db else dl.path_blocks_db;
  path_prefix_blocks =
      if new path_prefix_blocks then dl'.path_prefix_blocks else dl.path_prefix_blocks;
}

if_ap {ℓ κ} :
    {A : Type ℓ} {B : Type κ} (f : A → B) (b : Bool) (x y : A)
    → f (if b then x else y) ≡ (if b then f x else f y)
if_ap f true x y = refl
if_ap f false x y = refl

if_same {ℓ} : {A : Type ℓ} (b : Bool) (x : A) → (if b then x else x) ≡ x
if_same true x = refl
if_same false x = refl

torn-index :
    (new : Field → Bool) (dl dl' : Denylist) (r : Reader)
    → index r (torn new dl dl') ≡ (if new (field_of r) then index r dl' else index r dl)
unfolding torn
torn-index new dl dl' (by_cid k) = if_ap (λ db. (load db k).0) (new ipfs_blocks) _ _
torn-index new dl dl' (by_name k) = if_ap (λ db. (load db k).0) (new ipns_blocks) _ _
torn-index new dl dl' (by_hash code k) =
    if_ap (λ db. (load (blocks_of (get db code)) k).0) (new double_hash_blocks) _ _
torn-index new dl dl' (by_path k) = if_ap (λ db. (load db k).0) (new path_blocks) _ _
torn-index new dl dl' by_paths = refl

-- The rules all go to one field.
abbrev pub InField : Field → List Rule → Type 0
InField f rules = (r : Reader) → same_field (field_of r) f ≡ false → pick r rules ≡ []

module _ (new : Field → Bool) (dl dl' : Denylist) (rules : List Rule) (f : Field)
    (adds : Adds dl dl' rules) (one : InField f rules) where
  -- The other fields do not change.
  unchanged : (r : Reader) → same_field (field_of r) f ≡ false → index r dl' ≡ index r dl
  unchanged r other =
      adds r ∙ ap (λ (es : Entries). index r dl ++ es) (one r other) ∙ append-nil (index r dl)

  pub torn-new : new f ≡ true → (r : Reader) → index r (torn new dl dl') ≡ index r dl'
  torn-new h r = torn-index new dl dl' r ∙ elim (Bool-cases (same_field (field_of r) f)) [
    | inl same ↦ rw (same_field-eq (field_of r) f same, h) refl
    | inr other ↦ rw (unchanged r other) (if_same (new (field_of r)) (index r dl))
  ]

  pub torn-old : new f ≡ false → (r : Reader) → index r (torn new dl dl') ≡ index r dl
  torn-old h r = torn-index new dl dl' r ∙ elim (Bool-cases (same_field (field_of r) f)) [
    | inl same ↦ rw (same_field-eq (field_of r) f same, h) refl
    | inr other ↦ rw (unchanged r other) (if_same (new (field_of r)) (index r dl))
  ]
