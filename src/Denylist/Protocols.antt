-- ===== src/Denylist/Protocols.antt =====
-- Which query `IsPathBlocked` asks, when no rule for a path alone decides.
use nopfs.Prelude.{
  ℕ, ◌≡◌, ◌⊎◌, inl, inr, sym, ◌∙◌, false, List, [], ◌∷◌, Bytes, codes, bytes_eqb, ap, Bool-cases,
}
use nopfs.Libs.{Libs, IpfsPath}
use nopfs.Text.{join}
use nopfs.Denylist.{Denylist}
use nopfs.Denylist.Lookup.{
  is_hit, is_subpath_blocked, is_ipfs_path_blocked, is_ipld_path_blocked, is_ipfs_ipld_path_blocked,
  is_ipns_path_blocked, is_protocol_blocked, is_segments_blocked, is_path_blocked,
}

-- The path `/proto/key/sub`, where `sub` may be empty.
abbrev pub Segments : IpfsPath → Bytes → Bytes → Bytes → Type 0
Segments p proto key sub =
    (rest : List Bytes) × (p.segments ≡ proto ∷ key ∷ rest) × (sub ≡ join rest (codes "/"))

-- The protocols whose paths begin with a CID.
abbrev pub IsContent : Bytes → Type 0
IsContent proto = (proto ≡ codes "ipfs") ⊎ (proto ≡ codes "ipld")

-- There is no subpath, or no rule for a path alone says anything of it.
abbrev pub Undecided : Denylist → Bytes → Type 0
Undecided dl sub = (sub ≡ []) ⊎ (is_hit (is_subpath_blocked dl sub).status ≡ false)

module _ (L : Libs) (order : List ℕ) where
  is_path_blocked-Undecided :
      (dl : Denylist) (p : IpfsPath) (proto key sub : Bytes)
      → Segments p proto key sub
      → Undecided dl sub
      → is_path_blocked L dl order p ≡ is_protocol_blocked L dl order p proto key sub
  unfolding is_path_blocked is_segments_blocked bytes_eqb
  is_path_blocked-Undecided dl p proto key sub (rest, segs, joined) (inl empty) =
      let none : join rest (codes "/") ≡ [] = sym joined ∙ empty in rw (segs, joined, none)
  is_path_blocked-Undecided dl p proto key sub (rest, segs, joined) (inr silent) =
      let same : is_hit (is_subpath_blocked dl (join rest (codes "/"))).status ≡ false =
        ap (λ (s : Bytes). is_hit (is_subpath_blocked dl s).status) (sym joined) ∙ silent in
      elim (Bool-cases (bytes_eqb (join rest (codes "/")) [])) [
        | inl empty ↦ rw (segs, joined, empty)
        | inr some_path ↦ rw (segs, joined, some_path, same)
      ]

  pub is_path_blocked-content :
      (dl : Denylist) (p : IpfsPath) (proto key sub : Bytes)
      → Segments p proto key sub
      → IsContent proto
      → Undecided dl sub
      → is_path_blocked L dl order p ≡ is_ipfs_ipld_path_blocked L dl order key sub proto
  unfolding is_protocol_blocked is_ipfs_path_blocked is_ipld_path_blocked bytes_eqb
  is_path_blocked-content dl p proto key sub segs (inl ipfs) u =
      is_path_blocked-Undecided dl p proto key sub segs u ∙ rw ipfs
  is_path_blocked-content dl p proto key sub segs (inr ipld) u =
      is_path_blocked-Undecided dl p proto key sub segs u ∙ rw ipld

  pub is_path_blocked-name :
      (dl : Denylist) (p : IpfsPath) (key sub : Bytes)
      → Segments p (codes "ipns") key sub
      → Undecided dl sub
      → is_path_blocked L dl order p ≡ is_ipns_path_blocked L dl order key sub
  unfolding is_protocol_blocked bytes_eqb
  is_path_blocked-name dl p key sub segs u =
      is_path_blocked-Undecided dl p (codes "ipns") key sub segs u

  -- Two denylists that agree on the paths alone and on the content.
  pub is_path_blocked-agree :
      (dl dl' : Denylist) (p : IpfsPath) (proto key sub : Bytes)
      → Segments p proto key sub
      → IsContent proto
      → is_subpath_blocked dl' sub ≡ is_subpath_blocked dl sub
      → is_ipfs_ipld_path_blocked L dl' order key sub proto
        ≡ is_ipfs_ipld_path_blocked L dl order key sub proto
      → is_path_blocked L dl' order p ≡ is_path_blocked L dl order p
  unfolding is_path_blocked is_segments_blocked is_protocol_blocked is_ipfs_path_blocked
      is_ipld_path_blocked bytes_eqb
  is_path_blocked-agree dl dl' p proto key sub (rest, segs, joined) (inl ipfs) general content =
      rw (segs, ← joined, ipfs, general, rw ipfs at content)
  is_path_blocked-agree dl dl' p proto key sub (rest, segs, joined) (inr ipld) general content =
      rw (segs, ← joined, ipld, general, rw ipld at content)
