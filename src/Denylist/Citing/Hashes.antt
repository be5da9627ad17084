-- ===== src/Denylist/Citing/Hashes.antt =====
-- The double hashes that a response cites.
use nopfs.Prelude.{
  ◌≡◌, refl, sym, subst, ℕ, List, [], ◌∷◌, Option, none, some, Bytes, Result, ok, err, bytes_eq,
  nat_eq, if_cases,
}
use nopfs.Prelude.GoMap.{get}
use nopfs.Libs.{Libs, Cid, IpfsPath}
use nopfs.Entry.{Entries, not_found, blocked, allowed, errored}
use nopfs.Status.{StatusResponse}
use nopfs.Denylist.{Denylist}
use nopfs.Denylist.Rules.{blocks_of}
use nopfs.Denylist.SameHashes.{status_at-blocks_of}
use nopfs.Denylist.Lookup.{
  Checked, is_hit, respond, sum_status, check_double_hash_with_fn, or_next, check_double_hash,
  or_modern, double_hash_response,
}
use nopfs.Denylist.Log.{Reader, by_hash}
use nopfs.Denylist.Log.Adds.{index}
use nopfs.Denylist.Citing.{Cites, checked, Cites-check_path_status, Cites-map}

-- What a response cites, it goes on to cite beside other fields.
pub Cites-respond :
    (found : Reader → Entries) (Asks : Reader → Bytes → Type 0) (dl : Denylist) (c : Option Cid)
    (p : Option IpfsPath) (t : Checked)
    → Cites found Asks t
    → Cites found Asks (checked (respond dl c p t))
Cites-respond found Asks dl c p (s, e, error) h = h

module _ (L : Libs) where
  -- The entries of the double hash that the function makes of the text.
  pub record HashOf (text : Bytes) (code : ℕ) (r : Reader) (q : Bytes) : Type 0 where
    pub hash : Bytes
    pub made : L.sum text code ≡ ok hash
    pub reader : r ≡ by_hash code (L.b58 hash)
    pub whole : q ≡ []

  -- Those of the legacy text with sha2-256, and of the modern one with any function.
  pub data AsksHashes (legacy modern : Bytes) (r : Reader) (q : Bytes) : Type 0 where
    of_legacy : HashOf legacy L.sha2_256 r q → AsksHashes legacy modern r q
    of_modern : (code : ℕ) → HashOf modern code r q → AsksHashes legacy modern r q

module _ (L : Libs) (found : Reader → Entries) (Asks : Reader → Bytes → Type 0) where
  Cites-or_next :
      (t next : Checked)
      → Cites found Asks t
      → Cites found Asks next
      → Cites found Asks (or_next L t next)
  Cites-or_next (s, e, some x) next h k = h
  Cites-or_next (not_found, e, none) next h k = k
  Cites-or_next (blocked, e, none) next h k = h
  Cites-or_next (allowed, e, none) next h k = h
  Cites-or_next (errored, e, none) next h k = h

  Cites-or_modern :
      (dl : Denylist) (c : Option Cid) (p : Option IpfsPath) (legacy modern : Checked)
      → Cites found Asks legacy
      → Cites found Asks modern
      → Cites found Asks (checked (or_modern L dl c p legacy modern))
  Cites-or_modern dl c p legacy modern h k =
      if_cases (λ (r : StatusResponse). Cites found Asks (checked r)) (is_hit legacy.0)
        (Cites-respond found Asks dl c p legacy h) (Cites-respond found Asks dl c p modern k)

module _ (L : Libs) (dl : Denylist) where
  abbrev found : Reader → Entries
  found r = index r dl

  Cites-sum_status :
      (text : Bytes) (code : ℕ) (sum : Result Bytes)
      → L.sum text code ≡ sum
      → Cites found
          (HashOf L text code)
          (sum_status L (blocks_of (get dl.double_hash_blocks_db code)) sum)
  Cites-sum_status text code (err e) made = (refl, refl)
  Cites-sum_status text code (ok hash) made =
      Cites-check_path_status found (HashOf L text code) (by_hash code (L.b58 hash)) []
        (record { hash = hash; made = made; reader = refl; whole = refl })

  Cites-with_fn :
      (text : Bytes) (code : ℕ)
      → Cites found (HashOf L text code) (check_double_hash_with_fn L dl text code)
  unfolding check_double_hash_with_fn
  Cites-with_fn text code =
      subst (Cites found (HashOf L text code))
        (sym (status_at-blocks_of L (get dl.double_hash_blocks_db code) text code))
        (Cites-sum_status text code (L.sum text code) refl)

  module _ (legacy modern : Bytes) where
    Cites-modern :
        (code : ℕ)
        → Cites found (AsksHashes L legacy modern) (check_double_hash_with_fn L dl modern code)
    Cites-modern code =
        Cites-map found found (λ r. refl) (HashOf L modern code) (AsksHashes L legacy modern)
          (λ r p h. of_modern code h) _ (Cites-with_fn modern code)

    Cites-check_double_hash :
        (order : List ℕ)
        → Cites found (AsksHashes L legacy modern) (check_double_hash L dl order modern)
    unfolding check_double_hash
    Cites-check_double_hash [] = (refl, refl)
    Cites-check_double_hash (code ∷ order) =
        Cites-or_next L found (AsksHashes L legacy modern)
          (check_double_hash_with_fn L dl modern code) _ (Cites-modern code)
          (Cites-check_double_hash order)

    -- A response by double hash cites a hash of one of the texts.
    pub Cites-double_hash_response :
        (order : List ℕ) (c : Option Cid) (p : Option IpfsPath)
        → Cites found
            (AsksHashes L legacy modern)
            (checked (double_hash_response L dl order c p legacy modern))
    unfolding double_hash_response
    Cites-double_hash_response order c p =
        Cites-or_modern L found (AsksHashes L legacy modern) dl c p _ _
          (Cites-map found found (λ r. refl) (HashOf L legacy L.sha2_256)
            (AsksHashes L legacy modern) (λ r p h. of_legacy h) _ (Cites-with_fn legacy L.sha2_256))
          (Cites-check_double_hash order)
