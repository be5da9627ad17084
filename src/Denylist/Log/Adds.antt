-- ===== src/Denylist/Log/Adds.antt =====
-- What storing a rule does to each reader.
use nopfs.Prelude.{
  ℕ, ◌≡◌, refl, sym, ap, ◌∙◌, Bool, true, false, List, [], ◌∷◌, ◌++◌, append-nil, append_assoc,
  Option, some, Bytes, nat_eq, nat_eqb, nat_eqb_iff, bytes_eqb, if◌then◌else◌, ok,
}
use nopfs.Prelude.GoMap.{get, put, get-put}
use nopfs.Libs.{Libs, Multihash}
use nopfs.Entry.{Entry, Entries, zero_path}
use nopfs.BlocksDb.{BlocksDb, load, store, load-store}
use nopfs.Denylist.{Denylist}
use nopfs.Denylist.Rules.{blocks_of}
use nopfs.Denylist.Parsing.{add_rule}
use nopfs.Denylist.Log.{
  Rule, of_cid, of_name, of_path, of_paths, Reader, by_cid, by_name, by_hash, by_path, by_paths,
  if_key, pick, hash_rules,
}

-- The index that a reader reads.
abbrev pub index : Reader → Denylist → Entries
index (by_cid k) dl = (load dl.ipfs_blocks_db k).0
index (by_name k) dl = (load dl.ipns_blocks_db k).0
index (by_hash code k) dl = (load (blocks_of (get dl.double_hash_blocks_db code)) k).0
index (by_path k) dl = (load dl.path_blocks_db k).0
index by_paths dl = dl.path_prefix_blocks

-- Every reader finds the new rules behind those that it found before.
abbrev pub Adds : Denylist → Denylist → List Rule → Type 0
Adds dl dl' rules = (r : Reader) → index r dl' ≡ index r dl ++ pick r rules

pub pick-append : (r : Reader) (rs qs : List Rule) → pick r (rs ++ qs) ≡ pick r rs ++ pick r qs
pick-append r [] qs = refl
pick-append r (rule ∷ rs) qs = rw (pick-append r rs qs, append_assoc)

pub Adds-nil : (dl : Denylist) → Adds dl dl []
Adds-nil dl r = sym (append-nil (index r dl))

pub Adds-append :
    (dl dl' dl'' : Denylist) (rs qs : List Rule)
    → Adds dl dl' rs
    → Adds dl' dl'' qs
    → Adds dl dl'' (rs ++ qs)
Adds-append dl dl' dl'' rs qs h k r = rw (k r, h r, pick-append r rs qs, append_assoc)

load-store_key :
    (db : BlocksDb) (key : Bytes) (e : Entry) (k : Bytes)
    → (load (store db key e) k).0 ≡ (load db k).0 ++ (if_key (bytes_eqb key k) e ++ [])
load-store_key db key e k = rw (load-store db key e k) (split (bytes_eqb key k))
  where
    split :
        (b : Bool)
        → (if b then (load db k).0 ++ e ∷ [] else (load db k).0)
          ≡ (load db k).0 ++ (if_key b e ++ [])
    split true = refl
    split false = rw append-nil

module _ (dl : Denylist) (key : Bytes) (e : Entry) where
  pub Adds-of_cid :
      Adds dl (record dl { ipfs_blocks_db = store dl.ipfs_blocks_db key e }) (of_cid key e ∷ [])
  Adds-of_cid (by_cid k) = load-store_key dl.ipfs_blocks_db key e k
  Adds-of_cid _ = rw append-nil

  pub Adds-of_name :
      Adds dl (record dl { ipns_blocks_db = store dl.ipns_blocks_db key e }) (of_name key e ∷ [])
  Adds-of_name (by_name k) = load-store_key dl.ipns_blocks_db key e k
  Adds-of_name _ = rw append-nil

  pub Adds-of_path :
      Adds dl (record dl { path_blocks_db = store dl.path_blocks_db key e }) (of_path key e ∷ [])
  Adds-of_path (by_path k) = load-store_key dl.path_blocks_db key e k
  Adds-of_path _ = rw append-nil

pub Adds-of_paths :
    (dl : Denylist) (e : Entry)
    → Adds dl (record dl { path_prefix_blocks = dl.path_prefix_blocks ++ e ∷ [] }) (of_paths e ∷ [])
Adds-of_paths dl e by_paths = refl
Adds-of_paths dl e _ = rw append-nil

pub index-entries :
    (r : Reader) (dl : Denylist) (es : Entries) → index r (record dl { entries = es }) ≡ index r dl
index-entries (by_cid k) dl es = refl
index-entries _ dl es = refl

hash_index :
    (b : Bool) (o o' : Option BlocksDb) (key : Bytes) (e : Entry) (k : Bytes)
    → (b ≡ true → o ≡ o')
    → (load (blocks_of (if b then some (store (blocks_of o) key e) else o')) k).0
      ≡ (load (blocks_of o') k).0 ++ ((if b then if_key (bytes_eqb key k) e else []) ++ [])
hash_index true o o' key e k h = rw (← h refl) (load-store_key (blocks_of o) key e k)
hash_index false o o' key e k h = rw append-nil

module _ (L : Libs) where
  pub Adds-add_rule :
      (dl : Denylist) (e : Entry) (c : ℕ) (mh : Multihash)
      → Adds dl (add_rule L dl e (c, mh)) (hash_rules L e (ok (c, mh)))
  unfolding add_rule
  Adds-add_rule dl e c mh (by_hash code k) =
      let db = dl.double_hash_blocks_db in
      let e' : Entry = record e { path = zero_path; multihash = mh } in
      let blocks : BlocksDb = store (blocks_of (get db c)) (L.b58 mh) e' in
      let step : get (put db c blocks) code
          ≡ (if nat_eqb c code then some blocks else get db code) =
        get-put db c blocks code in
      ap (λ (o : Option BlocksDb). (load (blocks_of o) k).0) step
      ∙ hash_index (nat_eqb c code) (get db c) (get db code) (L.b58 mh) e' k
          (λ same. ap (get db) ((nat_eqb_iff c code).0 same))
  Adds-add_rule dl e c mh _ = rw append-nil
