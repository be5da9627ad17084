-- ===== src/Denylist/HashStore.antt =====
-- What storing a double-hash rule does to the check with one hash function.
use nopfs.Prelude.{
  ℕ, ◌≡◌, ◌⊎◌, inl, inr, refl, sym, ap, ◌∙◌, Bool, true, false, [], Option, none, some, Bytes,
  nat_eq, nat_eqb, nat_eqb-ne, nat_eqb_iff, if◌then◌else◌, arith, Result, ok, err,
}
use native.Mathlib.Decide.{ℕ_discrete}
use nopfs.Prelude.GoMap.{get, get-put}
use nopfs.Libs.{Libs, Multihash}
use nopfs.Entry.{Entry, Status, not_found, zero_entry, scan, zero_path, check_path_status}
use nopfs.Entry.Deciding.{rule_status}
use nopfs.BlocksDb.{BlocksDb, load, store, check_path_status-store}
use nopfs.Denylist.{Denylist}
use nopfs.Denylist.Rules.{blocks_of}
use nopfs.Denylist.Parsing.{add_rule, add_parsed}
use nopfs.Denylist.Lookup.{Checked, nothing, check_double_hash_with_fn, sum_status, status_at}
use nopfs.Denylist.Blocking.{check-covered, matches_empty, empty_path}

load_empty : (key : Bytes) → check_path_status (load [] key).0 [] ≡ (not_found, zero_entry)
unfolding load get check_path_status scan
load_empty key = refl

module _ (L : Libs) where
  sum_status-nil : (r : Result Bytes) → nothing ≡ sum_status L [] r
  sum_status-nil (err x) = refl
  sum_status-nil (ok h) = rw (load_empty (L.b58 h))

  status_at-blocks_of :
      (o : Option BlocksDb) (key : Bytes) (code : ℕ)
      → status_at L o key code ≡ sum_status L (blocks_of o) (L.sum key code)
  status_at-blocks_of none key code = sum_status-nil (L.sum key code)
  status_at-blocks_of (some b) key code = refl

  pub with_fn-blocks_of :
      (dl : Denylist) (key : Bytes) (code : ℕ)
      → check_double_hash_with_fn L dl key code
        ≡ sum_status L (blocks_of (get dl.double_hash_blocks_db code)) (L.sum key code)
  unfolding check_double_hash_with_fn
  with_fn-blocks_of dl key code = status_at-blocks_of _ key code

  status_at-if :
      (b : Bool) (x : BlocksDb) (o : Option BlocksDb) (key : Bytes) (code : ℕ)
      → status_at L (if b then some x else o) key code
        ≡ (if b then sum_status L x (L.sum key code) else status_at L o key code)
  status_at-if true x o key code = refl
  status_at-if false x o key code = refl

  -- The entry that `add_rule` stores.
  abbrev hashed : Entry → Multihash → Entry
  hashed e mh = record e { path = zero_path; multihash = mh }

  with_fn-add_rule :
      (dl : Denylist) (e : Entry) (code' : ℕ) (mh : Multihash) (key : Bytes) (code : ℕ)
      → check_double_hash_with_fn L (add_rule L dl e (code', mh)) key code ≡ (
          if nat_eqb code' code
          then sum_status L
              (store (blocks_of (get dl.double_hash_blocks_db code')) (L.b58 mh) (hashed e mh))
              (L.sum key code)
          else check_double_hash_with_fn L dl key code)
  unfolding add_rule check_double_hash_with_fn
  with_fn-add_rule dl e code' mh key code =
      rw get-put (status_at-if (nat_eqb code' code) _ _ key code)

  -- A key with the new double hash gets the new rule's word.
  sum_status-store :
      (blocks : BlocksDb) (h mh : Multihash) (e : Entry)
      → L.b58 h ≡ L.b58 mh
      → (sum_status L (store blocks (L.b58 mh) (hashed e mh)) (ok h)).0 ≡ rule_status e
  sum_status-store blocks h mh e same = rw (
      check-covered blocks (L.b58 mh) (hashed e mh) (L.b58 h) [] same
        (matches_empty zero_path empty_path))

  -- A key that an earlier rule with the same mark decides keeps its status.
  sum_status-store_kept :
      (blocks : BlocksDb) (r : Result Multihash) (mh : Multihash) (e : Entry)
      → (sum_status L blocks r).0 ≡ rule_status e
      → (sum_status L (store blocks (L.b58 mh) (hashed e mh)) r).0 ≡ rule_status e
  sum_status-store_kept blocks (err x) mh e h = h
  sum_status-store_kept blocks (ok d) mh e h =
      ground (arith, check_path_status-store blocks (L.b58 mh) (hashed e mh) (L.b58 d) [])

  -- Under one hash function, the status of a key.
  abbrev pub fn_status : Denylist → Bytes → ℕ → Status
  fn_status dl key code = (check_double_hash_with_fn L dl key code).0

  add_rule-own :
      (dl : Denylist) (e : Entry) (code : ℕ) (mh h : Multihash) (key : Bytes)
      → L.sum key code ≡ ok h
      → L.b58 h ≡ L.b58 mh
      → fn_status (add_rule L dl e (code, mh)) key code ≡ rule_status e
  add_rule-own dl e code mh h key sums same =
      ap (λ (x : Checked). x.0) (with_fn-add_rule dl e code mh key code)
      ∙ rw ((nat_eqb_iff code code).1 refl, sums) (sum_status-store _ h mh e same)

  add_rule_kept :
      (dl : Denylist) (e : Entry) (code code' : ℕ) (mh : Multihash) (key : Bytes)
      → fn_status dl key code ≡ rule_status e
      → fn_status (add_rule L dl e (code', mh)) key code ≡ rule_status e
  add_rule_kept dl e code code' mh key s = elim (ℕ_discrete code' code) [
    | yes same ↦
        ap (λ (x : Checked). x.0) (with_fn-add_rule dl e code' mh key code)
        ∙ rw ((nat_eqb_iff code' code).1 same, same)
            (sum_status-store_kept _ _ mh e
              (sym (ap (λ (x : Checked). x.0) (with_fn-blocks_of dl key code)) ∙ s))
    | no differs ↦
        ap (λ (x : Checked). x.0) (with_fn-add_rule dl e code' mh key code)
        ∙ rw (nat_eqb-ne code' code differs) s
  ]

  add_parsed_kept :
      (dl : Denylist) (e : Entry) (code : ℕ) (parsed : Result (ℕ × Multihash)) (key : Bytes)
      → fn_status dl key code ≡ rule_status e
      → fn_status (add_parsed L dl e parsed) key code ≡ rule_status e
  add_parsed_kept dl e code (ok (code', mh)) key s = add_rule_kept dl e code code' mh key s
  add_parsed_kept dl e code (err x) key s = s

  add_parsed-own :
      (dl : Denylist) (e : Entry) (code : ℕ) (mh h : Multihash) (parsed : Result (ℕ × Multihash))
      (key : Bytes)
      → parsed ≡ ok (code, mh)
      → L.sum key code ≡ ok h
      → L.b58 h ≡ L.b58 mh
      → fn_status (add_parsed L dl e parsed) key code ≡ rule_status e
  add_parsed-own dl e code mh h parsed key p sums same =
      rw p (add_rule-own dl e code mh h key sums same)

  -- Both readings of a rule are added, with the same mark: a key that one of them covers has its status.
  pub both_added :
      (dl : Denylist) (e : Entry) (code : ℕ) (mh h : Multihash) (key : Bytes)
      (parsed1 parsed2 : Result (ℕ × Multihash))
      → (parsed1 ≡ ok (code, mh)) ⊎ (parsed2 ≡ ok (code, mh))
      → L.sum key code ≡ ok h
      → L.b58 h ≡ L.b58 mh
      → fn_status (add_parsed L (add_parsed L dl e parsed1) e parsed2) key code ≡ rule_status e
  both_added dl e code mh h key parsed1 parsed2 (inl p) sums same =
      add_parsed_kept _ e code parsed2 key (add_parsed-own dl e code mh h parsed1 key p sums same)
  both_added dl e code mh h key parsed1 parsed2 (inr p) sums same =
      add_parsed-own _ e code mh h parsed2 key p sums same
